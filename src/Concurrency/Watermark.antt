-- ===== src/Concurrency/Watermark.antt =====
-- refreshGlobalState and garbageCollection of concurrency-recovery/ConcurrencyControl.cpp: the
-- oldest snapshots and the low watermarks, from the published words and the commit trees of all
-- workers. FLAGS_todo, FLAGS_olap_mode and FLAGS_graveyard are arguments.
pub mod Refresh
pub mod Safe
pub mod Receivers
pub mod Tests
use epsilon_db.Base.{
  ℕ, zero, suc, ◌+◌, ◌-◌, ◌/◌, ◌%◌, ◌^◌, Bool, true, false, ◌==◌, ◌||◌, ◌&&◌, not, ltb, leb,
  if◌then◌else◌, Result, ok, fail, ◌>>=◌, ◌>>◌, ensure, waiting, List, [], ◌∷◌, min,
}
use epsilon_db.Concurrency.CommitTree.{CommitTree, lcb, is_latched, clean_bits, rc_bit, olap_bit}

abbrev pub u64_max : ℕ
u64_max = 2 ^ 64 - 1

unfoldable pub max : ℕ → ℕ → ℕ
max a b = if ltb a b then b else a

-- The static members of Worker.
pub record Globals : Type 0 where
  pub global_newest_olap_start_ts : ℕ
  pub global_oldest_oltp_start_ts : ℕ
  pub global_oldest_all_start_ts : ℕ
  pub global_all_lwm : ℕ
  pub global_oltp_lwm : ℕ

-- The members of a worker's ConcurrencyControl that the two functions use.
pub record WorkerState : Type 0 where
  pub commit_tree : CommitTree
  pub local_latest_write_tx : ℕ
  pub local_latest_lwm_for_tx : ℕ
  pub local_lwm_latch : ℕ
  pub all_lwm_receiver : ℕ
  pub oltp_lwm_receiver : ℕ
  pub local_all_lwm : ℕ
  pub local_oltp_lwm : ℕ
  pub cleaned_untill_oltp_lwm : ℕ

-- The wait for a worker that is drawing an older start timestamp, on the words that it loads.
unfoldable pub load_settled : ℕ → List ℕ → Result ℕ
load_settled start_ts [] = fail waiting
load_settled start_ts (word ∷ words) =
    let rest = load_settled start_ts words in
    if is_latched word && ltb (clean_bits word) start_ts then rest else ok word

-- The local variables of the first loop.
pub record Oldest : Type 0 where
  pub newest_olap : ℕ
  pub oldest_oltp : ℕ
  pub oldest_tx : ℕ

unfoldable pub is_rc : ℕ → Bool
is_rc word = (word / rc_bit) % 2 == 1

unfoldable pub is_olap : ℕ → Bool
is_olap word = (word / olap_bit) % 2 == 1

unfoldable pub see : ℕ → Oldest → Oldest
see word o =
    let ts = clean_bits word in
    if not (is_rc word)
    then (let seen = record o { oldest_tx = min ts o.oldest_tx } in
        if is_olap word
        then record seen { newest_olap = max ts o.newest_olap }
        else record seen { oldest_oltp = min ts o.oldest_oltp })
    else o

unfoldable pub see_all : ℕ → List (List ℕ) → Oldest → Result Oldest
see_all start_ts [] o = ok o
see_all start_ts (loads ∷ rest) o = do
  word ← load_settled start_ts loads
  see_all start_ts rest (see word o)

-- The local variables of the second loop.
pub record Buffers : Type 0 where
  pub all_lwm : ℕ
  pub oltp_lwm : ℕ
  pub skipped_a_worker : Bool

unfoldable pub receive : WorkerState → ℕ → ℕ → WorkerState
receive w all oltp = record w {
  local_latest_lwm_for_tx = w.local_latest_write_tx;
  local_lwm_latch = (w.local_lwm_latch + 2) % 2 ^ 64;
  all_lwm_receiver = all;
  oltp_lwm_receiver = oltp;
}

unfoldable pub its_lwm : Bool → Globals → Buffers → WorkerState → Buffers × WorkerState
its_lwm olap_mode g b w =
    if w.local_latest_lwm_for_tx == w.local_latest_write_tx
    then (record b { skipped_a_worker = true }, w)
    else (let all = lcb w.commit_tree.entries g.global_oldest_all_start_ts in
        let oltp = lcb w.commit_tree.entries g.global_oldest_oltp_start_ts in
        let b' = record b { all_lwm = min all b.all_lwm } in
        if olap_mode && not (g.global_oldest_all_start_ts == g.global_oldest_oltp_start_ts)
        then (record b' { oltp_lwm = min oltp b.oltp_lwm }, receive w all oltp)
        else (b', receive w all all))

unfoldable pub its_lwms : Bool → Globals → Buffers → List WorkerState → Buffers × List WorkerState
its_lwms olap_mode g b [] = (b, [])
its_lwms olap_mode g b (w ∷ ws) =
    let one = its_lwm olap_mode g b w in
    let rest = its_lwms olap_mode g one.0 ws in (rest.0, one.1 ∷ rest.1)

abbrev pub no_oldest : Oldest
no_oldest = record { newest_olap = 0; oldest_oltp = u64_max; oldest_tx = u64_max }

abbrev pub no_buffers : Buffers
no_buffers = record { all_lwm = u64_max; oltp_lwm = u64_max; skipped_a_worker = false }

unfoldable pub store_oldest : Globals → Oldest → Globals
store_oldest g o = record g {
  global_oldest_all_start_ts = o.oldest_tx;
  global_oldest_oltp_start_ts = o.oldest_oltp;
  global_newest_olap_start_ts = o.newest_olap;
}

unfoldable pub store_lwms : Globals → Buffers → Globals
store_lwms g b =
    if not b.skipped_a_worker
    then record g { global_all_lwm = b.all_lwm; global_oltp_lwm = b.oltp_lwm }
    else g

-- refreshGlobalState by the worker that does it.
unfoldable pub refresh :
    Bool → ℕ → List (List ℕ) → Globals → List WorkerState → Result (Globals × List WorkerState)
refresh olap_mode start_ts snapshots g ws = do
  o ← see_all start_ts snapshots no_oldest
  let r = its_lwms olap_mode (store_oldest g o) no_buffers ws
  ok (store_lwms (store_oldest g o) r.0, r.1)

-- `elected` says that the random number was 0 and the mutex free.
unfoldable pub refresh_global_state :
    Bool
    → Bool
    → Bool
    → ℕ
    → List (List ℕ)
    → Globals
    → List WorkerState
    → Result (Globals × List WorkerState)
refresh_global_state todo olap_mode elected start_ts snapshots g ws =
    if not todo
    then ok (g, ws)
    else (if elected then refresh olap_mode start_ts snapshots g ws else ok (g, ws))

-- The label synclwm of garbageCollection: what one round reads, the latch before and after it.
unfoldable pub sync_lwm : Bool → ℕ → ℕ → WorkerState → Result WorkerState
sync_lwm olap_mode before after w =
    if before % 2 == 1
    then fail waiting
    else (if not (before == after)
        then fail waiting
        else (let w' = record w {
          local_all_lwm = w.all_lwm_receiver;
          local_oltp_lwm = w.oltp_lwm_receiver;
        } in
            ensure (not olap_mode || leb w'.local_all_lwm w'.local_oltp_lwm) >> ok w'))
