-- ===== src/Concurrency/Visibility.antt =====
-- What a transaction sees: isVisibleForMe, isVisibleForIt, getCommitTimestamp and isVisibleForAll
-- of concurrency-recovery/ConcurrencyControl.cpp. A tuple carries the start timestamp of the
-- transaction that wrote it, or, with the most significant bit, its commit timestamp.
pub mod Read
pub mod Timestamp
pub mod Tests
use epsilon_db.Base.{
  ℕ, ◌+◌, ◌-◌, ◌/◌, ◌%◌, ◌^◌, Bool, true, false, ◌==◌, ◌||◌, ◌&&◌, not, ltb, leb, if◌then◌else◌,
  Result, ok, fail, ◌>>=◌, ◌>>◌, ensure, unreachable,
}
use epsilon_db.Concurrency.CommitTree.{CommitTree, lcb}

abbrev pub msb : ℕ
msb = 2 ^ 63

unfoldable pub has_msb : ℕ → Bool
has_msb ts = (ts / msb) % 2 == 1

-- MSB_MASK.
unfoldable pub mask_msb : ℕ → ℕ
mask_msb ts = ts % msb

-- TX_ISOLATION_LEVEL, from 0 on.
pub data IsolationLevel : Type 0 where
  read_uncommitted read_committed snapshot_isolation serializable : IsolationLevel

unfoldable pub is_read_uncommitted : IsolationLevel → Bool
is_read_uncommitted read_uncommitted = true
is_read_uncommitted read_committed = false
is_read_uncommitted snapshot_isolation = false
is_read_uncommitted serializable = false

unfoldable pub is_read_committed : IsolationLevel → Bool
is_read_committed read_uncommitted = false
is_read_committed read_committed = true
is_read_committed snapshot_isolation = false
is_read_committed serializable = false

unfoldable pub at_least_si : IsolationLevel → Bool
at_least_si read_uncommitted = false
at_least_si read_committed = false
at_least_si snapshot_isolation = true
at_least_si serializable = true

-- The members of ConcurrencyControl and of the active transaction that a read uses.
pub record ReadView : Type 0 where
  pub worker_id : ℕ
  pub isolation_level : IsolationLevel
  pub start_ts : ℕ
  pub local_global_all_lwm_cache : ℕ
  pub local_snapshot_cache : ℕ → ℕ
  pub local_snapshot_cache_ts : ℕ → ℕ

unfoldable pub set_cache : ReadView → ℕ → ℕ → ℕ → ReadView
set_cache v other largest ts = record v {
  local_snapshot_cache = λ w. if w == other then largest else v.local_snapshot_cache w;
  local_snapshot_cache_ts = λ w. if w == other then ts else v.local_snapshot_cache_ts w;
}

-- The branch of isVisibleForMe for READ_COMMITTED and READ_UNCOMMITTED.
unfoldable pub read_committed_visible : ℕ → (ℕ → CommitTree) → ReadView → ℕ → ℕ → Bool × ReadView
read_committed_visible global_clock trees v other tx_ts =
    if has_msb tx_ts
    then (true, v)
    else (if leb (mask_msb tx_ts) (v.local_snapshot_cache other)
        then (true, v)
        else let current_ts = (global_clock + 1) % 2 ^ 64 in
          let largest = lcb (trees other).entries current_ts in
          (leb (mask_msb tx_ts) largest, set_cache v other largest current_ts))

-- The branch for SNAPSHOT_ISOLATION and SERIALIZABLE.
unfoldable pub snapshot_visible : (ℕ → CommitTree) → ReadView → ℕ → ℕ → Bool × ReadView
snapshot_visible trees v other tx_ts =
    let start_ts = mask_msb tx_ts in
    if has_msb tx_ts
    then (ltb (mask_msb tx_ts) v.start_ts, v)
    else (if ltb start_ts v.local_global_all_lwm_cache
        then (true, v)
        else (if v.local_snapshot_cache_ts other == v.start_ts
            then (leb start_ts (v.local_snapshot_cache other), v)
            else (if leb start_ts (v.local_snapshot_cache other)
                then (true, v)
                else let largest = lcb (trees other).entries v.start_ts in
                  if not (largest == 0)
                  then (leb start_ts largest, set_cache v other largest v.start_ts)
                  else (false, v))))

unfoldable pub is_visible_for_me :
    ℕ → (ℕ → CommitTree) → ReadView → ℕ → ℕ → Bool → Result (Bool × ReadView)
is_visible_for_me global_clock trees v other tx_ts to_write =
    if not to_write && is_read_uncommitted v.isolation_level
    then ok (true, v)
    else (if v.worker_id == other
        then ok (true, v)
        else (if is_read_committed v.isolation_level || is_read_uncommitted v.isolation_level
            then ok (read_committed_visible global_clock trees v other tx_ts)
            else (if at_least_si v.isolation_level
                then ok (snapshot_visible trees v other tx_ts)
                else fail unreachable)))

-- getCommitTimestamp; its assert is a debug check.
unfoldable pub get_commit_timestamp : (ℕ → CommitTree) → ℕ → ℕ → Result ℕ
get_commit_timestamp trees worker_id tx_ts =
    if has_msb tx_ts
    then ok (mask_msb tx_ts)
    else let found = lcb (trees worker_id).entries tx_ts in
      let commit_ts = if not (found == 0) then found else 2 ^ 64 - 1 in
      ensure (ltb tx_ts commit_ts) >> ok commit_ts

-- isVisibleForAll, with what refreshGlobalState stored.
unfoldable pub is_visible_for_all : ℕ → ℕ → ℕ → Bool
is_visible_for_all global_oldest_all_start_ts global_all_lwm ts =
    if has_msb ts then ltb (mask_msb ts) global_oldest_all_start_ts else ltb ts global_all_lwm
