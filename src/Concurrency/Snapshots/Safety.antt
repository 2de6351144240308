-- ===== src/Concurrency/Snapshots/Safety.antt =====
-- What the other workers read from the owner's tree, however their steps interleave.
use mathlib.Core.List.{Memᴰ}
use mathlib.Core.List.Memᴰ
use epsilon_db.Base.{
  ◌↔◌, dec_lt, ℕ, ◌+◌, ◌^◌, ◌≤◌, ◌<◌, ◌≡◌, ◌≢◌, refl, Option, none, some, List, [], ◌∷◌, ◌++◌,
  arith, ℕ_discrete, ok,
}
use epsilon_db.Concurrency.CommitTree.{start_or_zero, Commit, CommitTree, lcb, commit, new_tree}
use epsilon_db.Concurrency.CommitTree.Answers.{Ascending-Functional}
use epsilon_db.Concurrency.Snapshots.{
  running, System, set_phase, commit_elsewhere, InTransaction, Step, start, Reach, latches, draws,
  publishes, runs, cleans, ends, commits, commits_elsewhere, switches_to_si, switches_to_rc, begin,
  step, switch_to_snapshot_isolation, switch_to_read_committed,
}
use epsilon_db.Concurrency.Snapshots.Invariant.{TreeOk, SystemOk}
use epsilon_db.Concurrency.Snapshots.Moves.{
  latch-SystemOk, draw-SystemOk, publish-SystemOk, run-SystemOk, idle-SystemOk, switch-SystemOk,
}
use epsilon_db.Concurrency.Snapshots.Cleaning.{clean-SystemOk}
use epsilon_db.Concurrency.Snapshots.Moves.{
  latch-SystemOk, draw-SystemOk, publish-SystemOk, run-SystemOk, idle-SystemOk, switch-SystemOk,
}
use epsilon_db.Concurrency.Snapshots.Cleaning.{clean-SystemOk}
use epsilon_db.Concurrency.Snapshots.Committing.{commit-SystemOk, commit-room}
use epsilon_db.Concurrency.CommitTree.Search.{
  IsLatest, latest_before-IsLatest, latest_before, lcb_unsafe-latest_before,
}

pub start-SystemOk : (n owner : ℕ) → n + 1 < 2 ^ 64 → SystemOk n owner (start n)
unfolding start new_tree
start-SystemOk n owner h = record {
  clock_positive = omega arith;
  clock_bound = omega arith;
  worker = λ j. record { drawn_before = omega arith; word = tt; positive = λ k. absurd k };
  tree = record {
    capacity = omega (arith, h);
    fits = omega arith;
    ascending = tt;
    within = λ c m. m;
    history_ascending = tt;
    past = λ c m. absurd (Memᴰ.not-nil m);
    started = λ c m. absurd (Memᴰ.not-nil m);
    positive = λ c m. absurd (Memᴰ.not-nil m);
    starts = λ c d m. absurd (Memᴰ.not-nil m);
  };
  later = λ j ts b ne all. refl;
  answers = λ j b ne k. refl;
  owner_drew = λ k. absurd k;
  owner_room = λ k. cc;
}

Step-SystemOk :
    (n owner : ℕ) (s t : System)
    → owner < n
    → SystemOk n owner s
    → Step n owner s t
    → SystemOk n owner t
unfolding commit_elsewhere set_phase switch_to_snapshot_isolation switch_to_read_committed
Step-SystemOk n owner s t b v (latches i p) = latch-SystemOk n owner s v i p
Step-SystemOk n owner s t b v (draws i p h) = draw-SystemOk n owner s v i p h
Step-SystemOk n owner s t b v (publishes i is_olap p) = publish-SystemOk n owner s v i is_olap p
Step-SystemOk n owner s t b v (runs i p ne) = run-SystemOk n owner s v i p ne
Step-SystemOk n owner s t b v (cleans snapshots tree p saw e) =
    clean-SystemOk n owner s v b snapshots tree p saw e
Step-SystemOk n owner s t b v (ends i p) =
    idle-SystemOk n owner s v i s.global_clock s.snapshot (omega arith) v.clock_bound (λ j ne. refl)
Step-SystemOk n owner s t b v (commits r p h e) = commit-SystemOk n owner s v r p h e
Step-SystemOk n owner s t b v (commits_elsewhere i p ne h) =
    idle-SystemOk n owner s v i _ s.snapshot (omega arith) (omega arith) (λ j d. refl)
Step-SystemOk n owner s t b v (switches_to_si i p) = switch-SystemOk n owner s v i _ p
Step-SystemOk n owner s t b v (switches_to_rc i p) = switch-SystemOk n owner s v i _ p

pub Reach-SystemOk :
    (n owner : ℕ) (s : System) → owner < n → n + 1 < 2 ^ 64 → Reach n owner s → SystemOk n owner s
Reach-SystemOk n owner s b h begin = start-SystemOk n owner h
Reach-SystemOk n owner s b h (step {s = r} x y) =
    Step-SystemOk n owner r s b (Reach-SystemOk n owner r b h x) y

-- In a history, a commit is before a timestamp exactly when the last commit before it started as
-- late or later.
pub committed_before :
    (n : ℕ) (t : CommitTree) (history : List Commit) (clock ts : ℕ) (c : Commit)
    → TreeOk n t history clock
    → Memᴰ c history
    → (c.commit_ts < ts) ↔ (c.start_ts ≤ lcb history ts)
unfolding lcb start_or_zero
committed_before n t history clock ts c k m =
    rw (lcb_unsafe-latest_before history ts k.history_ascending)
      (compare (latest_before history ts) (latest_before-IsLatest history ts k.history_ascending))
  where
    compare :
        (o : Option Commit)
        → IsLatest history ts o
        → (c.commit_ts < ts) ↔ (c.start_ts ≤ start_or_zero o)
    compare none l =
        ((λ h. absurd (omega (arith, h, l c m))), λ h. absurd (omega (arith, h, k.positive c m)))
    compare (some d) l = (
      (λ h. elim (ℕ_discrete c.commit_ts d.commit_ts) [
        | yes e ↦ omega (arith, Ascending-Functional history k.history_ascending c d m l.0 e)
        | no ne ↦ omega (arith, k.starts c d m l.0 (omega (arith, ne, l.2 c m h)))
      ]),
      λ h. elim (dec_lt d.commit_ts c.commit_ts) [
        | yes q ↦ absurd (omega (arith, h, k.starts d c l.0 m q))
        | no q ↦ omega (arith, q, l.1)
      ],
    )

-- In every interleaving of the workers' transactions, the owner's commits and its cleaning of the
-- tree, another worker in a transaction finds for its start timestamp what the owner's whole
-- history says: the last commit that it finds started as late as a transaction of the owner that
-- committed, or later, exactly when that one committed before the start timestamp.
pub read_snapshots_lem :
    (n owner : ℕ) (s : System) (j : ℕ)
    → owner < n
    → n + 1 < 2 ^ 64
    → Reach n owner s
    → j < n
    → j ≢ owner
    → InTransaction (s.phase j)
    → (lcb s.tree.entries (s.start_ts j) ≡ lcb s.history (s.start_ts j))
      × ((c : Commit)
          → Memᴰ c s.history
          → (c.commit_ts < s.start_ts j) ↔ (c.start_ts ≤ lcb s.tree.entries (s.start_ts j)))
read_snapshots_lem n owner s j b h r l ne k =
    let v = Reach-SystemOk n owner s b h r in
    let e = v.answers j l ne k in
    (e, λ c m. rw e (committed_before n s.tree s.history s.global_clock (s.start_ts j) c v.tree m))

-- In every interleaving, the owner's commit finds room in its array: cleaning it at the start of
-- the transaction was enough, and the commit takes the clock as its timestamp.
pub commit-Reach :
    (n owner : ℕ) (s : System)
    → owner < n
    → n + 1 < 2 ^ 64
    → Reach n owner s
    → s.phase owner ≡ running
    → s.global_clock + 1 < 2 ^ 61
    → commit s.global_clock s.tree (s.start_ts owner)
      ≡ ok (
        record s.tree {
          entries =
              s.tree.entries
              ++ record { commit_ts = s.global_clock; start_ts = s.start_ts owner } ∷ [];
        },
        s.global_clock + 1,
      )
commit-Reach n owner s b h r p c = commit-room n owner s (Reach-SystemOk n owner s b h r) p c
