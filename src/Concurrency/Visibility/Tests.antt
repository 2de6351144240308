-- ===== src/Concurrency/Visibility/Tests.antt =====
-- Reads of a transaction, and states where the theorems about them apply.
use mathlib.Core.List.{Memᴰ}
use epsilon_db.Base.{
  ℕ, ◌+◌, ◌-◌, ◌^◌, ◌≤◌, ◌<◌, ◌≡◌, refl, Bool, true, false, Option, none, some, [], ◌∷◌, arith,
  Result, ok, fail, ensure_failed, ltb, ℕ_discrete,
}
use epsilon_db.Concurrency.CommitTree.{
  Commit, CommitTree, lower_bound, before, in_front, lcb_unsafe, start_or_zero, lcb,
}
use epsilon_db.Concurrency.Snapshots.Invariant.{SystemOk}
use epsilon_db.Concurrency.Snapshots.Safety.{Reach-SystemOk, read_snapshots_lem}
use epsilon_db.Concurrency.Snapshots.{start, latch, draw, publish, set_tree, set_phase, committed}
use epsilon_db.Concurrency.Tests.{s8, reach8, worker_1}
use epsilon_db.Concurrency.Visibility.{
  has_msb, mask_msb, is_read_uncommitted, is_read_committed, at_least_si, read_uncommitted,
  read_committed, snapshot_isolation, serializable, ReadView, set_cache, read_committed_visible,
  snapshot_visible, is_visible_for_me, get_commit_timestamp, is_visible_for_all,
}
use epsilon_db.Concurrency.Visibility.Read.{ViewOk, visible_for_me_lem}
use epsilon_db.Concurrency.Visibility.Timestamp.{get_commit_timestamp_lem}

abbrev trees : ℕ → CommitTree
trees i = s8.tree

abbrev pub reader : ReadView
reader = record {
  worker_id = 1;
  isolation_level = snapshot_isolation;
  start_ts = s8.start_ts 1;
  local_global_all_lwm_cache = 0;
  local_snapshot_cache = λ w. 0;
  local_snapshot_cache_ts = λ w. 0;
}

s8-SystemOk : SystemOk 2 0 s8
s8-SystemOk = Reach-SystemOk 2 0 s8 (omega arith) (omega arith) reach8

start8 : s8.start_ts 1 ≡ 258
unfolding start latch draw publish set_tree set_phase committed ℕ_discrete
start8 = refl

clock8 : s8.global_clock ≡ 259
unfolding start latch draw publish set_tree set_phase committed ℕ_discrete
clock8 = refl

reader-ViewOk : ViewOk reader 0 (lcb s8.history (s8.start_ts 1))
reader-ViewOk = record {
  low_watermark = omega arith;
  cached = omega arith;
  current = λ e. absurd (omega (arith, e, start8));
}

level : at_least_si snapshot_isolation ≡ true
unfolding at_least_si
level = refl

visible_for_me_lem_example :
    ((c : Commit)
      → Memᴰ c s8.history
      → (after : ReadView) × (is_visible_for_me 259 trees reader 0 c.start_ts true
          ≡ ok (ltb c.commit_ts (s8.start_ts 1), after))
        × ViewOk after 0 (lcb s8.history (s8.start_ts 1)))
    × ((tx_ts : ℕ)
        → tx_ts < 2 ^ 63
        → lcb s8.history (s8.start_ts 1) < tx_ts
        → (after : ReadView) × (is_visible_for_me 259 trees reader 0 tx_ts true ≡ ok (false, after))
          × ViewOk after 0 (lcb s8.history (s8.start_ts 1)))
visible_for_me_lem_example =
    visible_for_me_lem 2 s8.global_clock 259 trees s8.history reader 0 true level (omega arith)
      s8-SystemOk.tree (omega (arith, clock8))
      (read_snapshots_lem 2 0 s8 1 (omega arith) (omega arith) reach8 (omega arith) (omega arith)
        worker_1).0
      reader-ViewOk

get_commit_timestamp_lem_example :
    (get_commit_timestamp trees 0 (300 + 2 ^ 63) ≡ ok 300)
    × (((c : Commit) → Memᴰ c s8.tree.entries → 300 ≤ c.commit_ts)
        → get_commit_timestamp trees 0 300 ≡ ok (2 ^ 64 - 1))
    × ((c : Commit)
        → Memᴰ c s8.tree.entries
        → c.commit_ts < 300
        → (0 < lcb s8.tree.entries 300)
          × (lcb s8.tree.entries 300 < 300)
          × (get_commit_timestamp trees 0 300 ≡ fail ensure_failed))
get_commit_timestamp_lem_example =
    get_commit_timestamp_lem trees 0 300 s8-SystemOk.tree.ascending
      (λ c m. (
        s8-SystemOk.tree.positive c (s8-SystemOk.tree.within c m),
        s8-SystemOk.tree.started c (s8-SystemOk.tree.within c m),
      ))
      (omega arith)

-- A worker with one commit, of a transaction that started at 256, at 300.
abbrev one_tree : ℕ → CommitTree
one_tree w = record { capacity = 3; entries = record { commit_ts = 300; start_ts = 256 } ∷ [] }

abbrev empty_tree : ℕ → CommitTree
empty_tree w = record { capacity = 3; entries = [] }

abbrev rc_reader : ReadView
rc_reader = record {
  worker_id = 1;
  isolation_level = read_committed;
  start_ts = 0;
  local_global_all_lwm_cache = 0;
  local_snapshot_cache = λ w. 0;
  local_snapshot_cache_ts = λ w. 0;
}

visible : Result (Bool × ReadView) → Option Bool
visible (ok r) = some r.0
visible (fail e) = none

levels_run :
    (is_read_uncommitted read_uncommitted ≡ true)
    × (is_read_committed read_committed ≡ true)
    × (at_least_si serializable ≡ true)
unfolding is_read_uncommitted is_read_committed at_least_si
levels_run = (refl, refl, refl)

-- A read of read committed at clock 300 caches the answer for timestamp 301. The other worker
-- then commits at 300, and the reader starts a snapshot at 301: it finds the older answer in the
-- cache, though the commit is before its snapshot.
stale_cache_run :
    let cached = (read_committed_visible 300 empty_tree rc_reader 0 256).1 in
    let snapshot = record cached { isolation_level = snapshot_isolation; start_ts = 301 } in
    (visible (is_visible_for_me 302 one_tree snapshot 0 256 true) ≡ some false)
    × (visible (
          is_visible_for_me 302 one_tree
            (record rc_reader { isolation_level = snapshot_isolation; start_ts = 301 })
            0
            256
            true)
        ≡ some true)
unfolding read_committed_visible is_visible_for_me snapshot_visible visible set_cache has_msb
    mask_msb is_read_committed is_read_uncommitted at_least_si lcb lcb_unsafe lower_bound before
    in_front start_or_zero
stale_cache_run = (refl, refl)

timestamps_run :
    (get_commit_timestamp one_tree 0 9223372036854776108 ≡ ok 300)
    × (is_visible_for_all 301 200 9223372036854776108 ≡ true)
    × (is_visible_for_all 301 200 200 ≡ false)
unfolding get_commit_timestamp is_visible_for_all has_msb mask_msb
timestamps_run = (refl, refl, refl)
