-- ===== src/Concurrency/Visibility/Timestamp.antt =====
-- getCommitTimestamp, on every branch.
use mathlib.Core.List.{Memᴰ}
use epsilon_db.Base.{
  ℕ, ◌+◌, ◌-◌, ◌^◌, ◌≤◌, ◌<◌, ◌≡◌, refl, true, false, Option, none, some, List, arith, ltb-false,
  ltb-true, ok, fail, ==-false, ensure_failed,
}
use epsilon_db.Concurrency.CommitTree.{Commit, CommitTree, lcb, start_or_zero}
use epsilon_db.Concurrency.CommitTree.Search.{
  Ascending, IsLatest, latest_before, latest_before-IsLatest, lcb_unsafe-latest_before,
}
use epsilon_db.Concurrency.Visibility.{has_msb, mask_msb, get_commit_timestamp}

mask_msb_small : (ts : ℕ) → ts < 2 ^ 63 → (has_msb ts ≡ false) × (mask_msb ts ≡ ts)
unfolding has_msb mask_msb
mask_msb_small ts h = (ground arith, omega arith)

mask_msb_set :
    (ts : ℕ) → ts < 2 ^ 63 → (has_msb (ts + 2 ^ 63) ≡ true) × (mask_msb (ts + 2 ^ 63) ≡ ts)
unfolding has_msb mask_msb
mask_msb_set ts h = (ground arith, omega arith)

-- Everything in the tree started before it committed, and not at 0.
abbrev pub Started : List Commit → Type 0
Started xs = (c : Commit) → Memᴰ c xs → (0 < c.start_ts) × (c.start_ts < c.commit_ts)

lcb-bounds :
    (xs : List Commit) (ts : ℕ)
    → Ascending xs
    → Started xs
    → ((c : Commit) → Memᴰ c xs → c.commit_ts < ts → (0 < lcb xs ts) × (lcb xs ts < ts))
      × (((c : Commit) → Memᴰ c xs → ts ≤ c.commit_ts) → lcb xs ts ≡ 0)
unfolding lcb start_or_zero
lcb-bounds xs ts a st =
    rw (lcb_unsafe-latest_before xs ts a)
      (by_latest (latest_before xs ts) (latest_before-IsLatest xs ts a))
  where
    by_latest :
        (o : Option Commit)
        → IsLatest xs ts o
        → ((c : Commit)
            → Memᴰ c xs
            → c.commit_ts < ts
            → (0 < start_or_zero o) × (start_or_zero o < ts))
          × (((c : Commit) → Memᴰ c xs → ts ≤ c.commit_ts) → start_or_zero o ≡ 0)
    by_latest none l = ((λ c m h. absurd (omega (arith, h, l c m))), λ h. refl)
    by_latest (some d) l = (
      (λ c m h. ((st d l.0).0, omega (arith, (st d l.0).1, l.1))),
      λ h. absurd (omega (arith, h d l.0, l.1)),
    )

-- For a timestamp below 2 ^ 63 and a worker's tree in the order of its commits, each of which
-- started after 0 and before it committed: getCommitTimestamp of the timestamp with its top bit
-- set is the timestamp without it. Without that bit it is the largest TXID when the tree has no
-- commit before the timestamp; when the tree has one, LCB finds a start timestamp above 0 and
-- below the one asked for, and the ensure on it fails.
pub get_commit_timestamp_lem :
    (trees : ℕ → CommitTree) (worker_id ts : ℕ)
    → Ascending (trees worker_id).entries
    → Started (trees worker_id).entries
    → ts < 2 ^ 63
    → (get_commit_timestamp trees worker_id (ts + 2 ^ 63) ≡ ok ts)
      × (((c : Commit) → Memᴰ c (trees worker_id).entries → ts ≤ c.commit_ts)
          → get_commit_timestamp trees worker_id ts ≡ ok (2 ^ 64 - 1))
      × ((c : Commit)
          → Memᴰ c (trees worker_id).entries
          → c.commit_ts < ts
          → (0 < lcb (trees worker_id).entries ts)
            × (lcb (trees worker_id).entries ts < ts)
            × (get_commit_timestamp trees worker_id ts ≡ fail ensure_failed))
unfolding get_commit_timestamp
get_commit_timestamp_lem trees worker_id ts a st h =
    let small = mask_msb_small ts h in
    let set = mask_msb_set ts h in
    let xs = (trees worker_id).entries in
    let l = lcb-bounds xs ts a st in
    (
      rw (set.0, set.1) refl,
      (λ none_before.
          rw (small.0, l.1 none_before) (rw (ltb-true ts (2 ^ 64 - 1) (omega (arith, h))) refl)),
      λ c m before.
          let (p, q) = l.0 c m before in
          (
            p,
            q,
            rw (small.0, ==-false (lcb xs ts) 0 (λ z. omega (arith, z, p)))
                (rw (ltb-false ts (lcb xs ts) (λ k. absurd (omega (arith, k, q)))) refl),
          ),
    )
