-- ===== src/Concurrency/CommitTree/Append.antt =====
-- `commit` puts the new pair behind the others: what the tree answers before and after it.
use mathlib.Core.List.{Memᴰ}
use mathlib.Core.List.Memᴰ.{head, tail}
use epsilon_db.Base.{ℕ, ◌≤◌, ◌<◌, ◌≡◌, refl, some, List, [], ◌∷◌, ◌++◌, arith, ltb-false, ltb-true}
use epsilon_db.Concurrency.CommitTree.{Commit, lcb, start_or_zero}
use epsilon_db.Concurrency.CommitTree.Search.{
  Above, Ascending, latest_before, lcb_unsafe-latest_before,
}

Above-append :
    (b : Commit) (xs : List Commit) (c : Commit)
    → Above b xs
    → b.commit_ts < c.commit_ts
    → Above b (xs ++ c ∷ [])
Above-append b [] c a h = (h, tt)
Above-append b (x ∷ xs) c a h = (a.0, Above-append b xs c a.1 h)

pub Ascending-append :
    (xs : List Commit) (c : Commit)
    → Ascending xs
    → ((d : Commit) → Memᴰ d xs → d.commit_ts < c.commit_ts)
    → Ascending (xs ++ c ∷ [])
Ascending-append [] c a h = (tt, tt)
Ascending-append (x ∷ xs) c a h =
    (Above-append x xs c a.0 (h x (head refl)), Ascending-append xs c a.1 (λ d m. h d (tail m)))

latest_before-old :
    (xs : List Commit) (c : Commit) (ts : ℕ)
    → ts ≤ c.commit_ts
    → latest_before (xs ++ c ∷ []) ts ≡ latest_before xs ts
unfolding latest_before
latest_before-old [] c ts h =
    rw (ltb-false c.commit_ts ts (λ k. absurd (omega (arith, h, k))), latest_before) refl
latest_before-old (x ∷ xs) c ts h = rw (latest_before-old xs c ts h, latest_before) refl

latest_before-new :
    (xs : List Commit) (c : Commit) (ts : ℕ)
    → c.commit_ts < ts
    → latest_before (xs ++ c ∷ []) ts ≡ some c
unfolding latest_before
latest_before-new [] c ts h = rw (ltb-true c.commit_ts ts h, latest_before) refl
latest_before-new (x ∷ xs) c ts h = rw (latest_before-new xs c ts h, latest_before) refl

module _ (xs : List Commit) (c : Commit) (ts : ℕ) (a : Ascending xs)
    (h : (d : Commit) → Memᴰ d xs → d.commit_ts < c.commit_ts) where
  -- A commit does not change what is seen from before it.
  pub lcb-old : ts ≤ c.commit_ts → lcb (xs ++ c ∷ []) ts ≡ lcb xs ts
  unfolding lcb
  lcb-old k =
      rw
        (
          lcb_unsafe-latest_before (xs ++ c ∷ []) ts (Ascending-append xs c a h),
          lcb_unsafe-latest_before xs ts a,
          latest_before-old xs c ts k,
        )
        refl

  -- What is seen from after it is that commit.
  pub lcb-new : c.commit_ts < ts → lcb (xs ++ c ∷ []) ts ≡ c.start_ts
  unfolding lcb start_or_zero
  lcb-new k =
      rw
        (
          lcb_unsafe-latest_before (xs ++ c ∷ []) ts (Ascending-append xs c a h),
          latest_before-new xs c ts k,
        )
        refl
