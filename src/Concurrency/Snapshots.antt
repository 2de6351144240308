-- ===== src/Concurrency/Snapshots.antt =====
-- The workers that draw their snapshots while one of them, the owner, commits to its tree: the
-- accesses of startTX of concurrency-recovery/Worker.cpp in a transaction of at least snapshot
-- isolation, and the commit of commitTX. The accesses of different workers interleave. The commit
-- of the owner is one step (the tree's mutex), and so is its cleanIfNecessary, with what it may
-- have read of the others while they went on.
pub mod Invariant
pub mod Moves
pub mod Cleaning
pub mod Committing
pub mod Safety
use mathlib.Core.List.{Memᴰ}
use mathlib.Core.Logic.{ite}
use Prim.Native.Nat.{bit_or}
use epsilon_db.Base.{
  ℕ, suc, ◌+◌, ◌^◌, ◌<◌, ◌≤◌, ◌≡◌, ◌≢◌, ◌%◌, Bool, List, [], ◌∷◌, ◌++◌, Result, ok, some, get_elem?,
  length, if◌then◌else◌, ℕ_discrete,
}
use epsilon_db.Concurrency.CommitTree.{
  Commit, CommitTree, latch_bit, olap_bit, rc_bit, new_tree, commit, clean_if_necessary,
  load_unlatched,
}
use epsilon_db.Concurrency.CommitTree.Gather.{Ready}

-- Where a worker stands in its transaction: the accesses of startTX in order.
pub data Phase : Type 0 where
  idle latched drawn published running : Phase

-- `history` is every commit of the owner, which no part of the program keeps.
pub record System : Type 0 where
  pub global_clock : ℕ
  pub snapshot : ℕ → ℕ
  pub start_ts : ℕ → ℕ
  pub phase : ℕ → Phase
  pub tree : CommitTree
  pub history : List Commit

abbrev pub put {ℓ} : {A : Type ℓ} → (ℕ → A) → ℕ → A → ℕ → A
put f i a j = ite (ℕ_discrete i j) a (f j)

-- The words that startTX publishes, before and after it draws a start timestamp.
unfoldable pub latched_word : ℕ → ℕ
latched_word start_ts = bit_or start_ts latch_bit

unfoldable pub snapshot_word : Bool → ℕ → ℕ
snapshot_word is_olap start_ts = if is_olap then bit_or start_ts olap_bit else start_ts

-- switchToReadCommittedMode, on the worker's word.
unfoldable pub read_committed_word : ℕ → ℕ
read_committed_word word = bit_or word rc_bit

unfoldable pub latch : ℕ → System → System
latch i s = record s {
  snapshot = put s.snapshot i (latched_word (s.start_ts i));
  phase = put s.phase i latched;
}

unfoldable pub draw : ℕ → System → System
draw i s = record s {
  start_ts = put s.start_ts i s.global_clock;
  global_clock = (s.global_clock + 1) % 2 ^ 64;
  phase = put s.phase i drawn;
}

unfoldable pub publish : Bool → ℕ → System → System
publish is_olap i s = record s {
  snapshot = put s.snapshot i (snapshot_word is_olap (s.start_ts i));
  phase = put s.phase i published;
}

-- switchToSnapshotIsolationMode, between transactions.
unfoldable pub switch_to_snapshot_isolation : ℕ → System → System
switch_to_snapshot_isolation i s = record s { snapshot = put s.snapshot i s.global_clock }

unfoldable pub switch_to_read_committed : ℕ → System → System
switch_to_read_committed i s = record s {
  snapshot = put s.snapshot i (read_committed_word (s.snapshot i));
}

unfoldable pub set_phase : ℕ → Phase → System → System
set_phase i p s = record s { phase = put s.phase i p }

unfoldable pub set_tree : CommitTree → System → System
set_tree t s = record s { tree = t }

-- The commit of a worker whose tree is not followed.
unfoldable pub commit_elsewhere : ℕ → System → System
commit_elsewhere i s = record s {
  global_clock = (s.global_clock + 1) % 2 ^ 64;
  phase = put s.phase i idle;
}

-- The owner's commit, when `commit` gives that tree and clock.
unfoldable pub committed : ℕ → CommitTree × ℕ → System → System
committed owner r s = record s {
  tree = r.0;
  global_clock = r.1;
  history = s.history ++ record { commit_ts = s.global_clock; start_ts = s.start_ts owner } ∷ [];
  phase = put s.phase owner idle;
}

-- Whether a worker has drawn a start timestamp for the transaction that it is in.
abbrev pub InTransaction : Phase → Type 0
InTransaction idle = ⊥
InTransaction latched = ⊥
InTransaction drawn = Unit
InTransaction published = Unit
InTransaction running = Unit

-- What the owner may have read of the others: a worker that drew its start timestamp before the
-- owner's last commit, and so before the owner's present transaction, has the word now that it
-- had when it was read. A worker that drew later may have been read at any time.
pub record Saw (workers_count owner : ℕ) (s : System) (snapshots : List (List ℕ)) : Type 0 where
  pub every : length snapshots ≡ workers_count
  pub ready : Ready snapshots
  pub stable :
      (j : ℕ) (loads : List ℕ) (c : Commit)
      → get_elem? snapshots j ≡ some loads
      → j ≢ owner
      → InTransaction (s.phase j)
      → Memᴰ c s.history
      → s.start_ts j ≤ c.commit_ts
      → load_unlatched loads ≡ load_unlatched (s.snapshot j ∷ [])

pub data Step (workers_count owner : ℕ) (s : System) : System → Type 0 where
  latches : (i : ℕ) → s.phase i ≡ idle → Step workers_count owner s (latch i s)
  draws :
      (i : ℕ)
      → s.phase i ≡ latched
      → s.global_clock + 1 < olap_bit
      → Step workers_count owner s (draw i s)
  publishes :
      (i : ℕ) (is_olap : Bool)
      → s.phase i ≡ drawn
      → Step workers_count owner s (publish is_olap i s)
  runs :
      (i : ℕ)
      → s.phase i ≡ published
      → i ≢ owner
      → Step workers_count owner s (set_phase i running s)
  cleans :
      (snapshots : List (List ℕ)) (t : CommitTree)
      → s.phase owner ≡ published
      → Saw workers_count owner s snapshots
      → clean_if_necessary owner snapshots s.tree ≡ ok t
      → Step workers_count owner s (set_phase owner running (set_tree t s))
  ends : (i : ℕ) → s.phase i ≡ running → Step workers_count owner s (set_phase i idle s)
  commits :
      (r : CommitTree × ℕ)
      → s.phase owner ≡ running
      → s.global_clock + 1 < olap_bit
      → commit s.global_clock s.tree (s.start_ts owner) ≡ ok r
      → Step workers_count owner s (committed owner r s)
  commits_elsewhere :
      (i : ℕ)
      → s.phase i ≡ running
      → i ≢ owner
      → s.global_clock + 1 < olap_bit
      → Step workers_count owner s (commit_elsewhere i s)
  switches_to_si :
      (i : ℕ) → s.phase i ≡ idle → Step workers_count owner s (switch_to_snapshot_isolation i s)
  switches_to_rc :
      (i : ℕ) → s.phase i ≡ idle → Step workers_count owner s (switch_to_read_committed i s)

-- Worker's constructor; the global clock begins at WORKERS_INCREMENT.
unfoldable pub start : ℕ → System
start workers_count = record {
  global_clock = 2 ^ 8;
  snapshot = λ i. 0;
  start_ts = λ i. 0;
  phase = λ i. idle;
  tree = new_tree workers_count;
  history = [];
}

pub data Reach (workers_count owner : ℕ) : System → Type 0 where
  begin : Reach workers_count owner (start workers_count)
  step :
      {s t : System}
      → Reach workers_count owner s
      → Step workers_count owner s t
      → Reach workers_count owner t
