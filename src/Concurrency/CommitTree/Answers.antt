-- ===== src/Concurrency/CommitTree/Answers.antt =====
-- cleanIfNecessary as a whole, on a full array and on one with room.
use mathlib.Core.List.{Memᴰ}
use mathlib.Core.List.Memᴰ
use mathlib.Core.List.Memᴰ.{head, tail}
use epsilon_db.Base.{
  ℕ, suc, ◌-◌, ◌≤◌, ◌<◌, ◌≡◌, ◌≢◌, inl, inr, refl, sym, ◌∙◌, ap, true, false, Option, none, some,
  List, [], ◌∷◌, ltb, length, get_elem?, arith, Bool-cases, ltb→lt, ltb-true, ok,
}
use epsilon_db.Concurrency.CommitTree.{Commit, CommitTree, lcb, load_unlatched, clean_if_necessary}
use epsilon_db.Concurrency.CommitTree.Search.{
  Ascending, latest_before, Above-lt, lcb-within, lcb_unsafe-latest_before,
}
use epsilon_db.Concurrency.CommitTree.Clean.{Within, Functional}
use epsilon_db.Concurrency.CommitTree.Gather.{gather_lem, others-length, Ready}
use epsilon_db.Concurrency.CommitTree.Keep.{last}

pub Ascending-Functional : (xs : List Commit) → Ascending xs → Functional xs
Ascending-Functional [] a c d m n e = absurd (Memᴰ.not-nil m)
Ascending-Functional (x ∷ xs) a c d (head p) (head q) e = rw (p, q) refl
Ascending-Functional (x ∷ xs) a c d (head p) (tail n) e =
    absurd (omega (arith, Above-lt x xs a.0 d n, e, ap (λ (k : Commit). k.commit_ts) p))
Ascending-Functional (x ∷ xs) a c d (tail m) (head q) e =
    absurd (omega (arith, Above-lt x xs a.0 c m, e, ap (λ (k : Commit). k.commit_ts) q))
Ascending-Functional (x ∷ xs) a c d (tail m) (tail n) e = Ascending-Functional xs a.1 c d m n e

sub_one : (n : ℕ) → suc n - 1 ≡ n
sub_one n = omega arith

last-cons : (x y : Commit) (ys : List Commit) → last (x ∷ y ∷ ys) ≡ last (y ∷ ys)
last-cons x y ys = rw (sub_one (suc (length ys)), sub_one (length ys)) refl

pub last-some : (xs : List Commit) → 0 < length xs → (c : Commit) × (last xs ≡ some c)
last-some [] h = absurd (omega (arith, h))
last-some (x ∷ []) h = (x, refl)
last-some (x ∷ y ∷ ys) h = let c = last-some (y ∷ ys) (omega arith) in (c.0, last-cons x y ys ∙ c.1)

-- After every commit, the last commit is the last element of the array.
pub latest_before-last :
    (xs : List Commit) (ts : ℕ)
    → ((c : Commit) → Memᴰ c xs → c.commit_ts < ts)
    → latest_before xs ts ≡ last xs
unfolding latest_before
latest_before-last [] ts h = refl
latest_before-last (x ∷ []) ts h =
    rw (ltb-true x.commit_ts ts (h x (head refl)), latest_before) refl
latest_before-last (x ∷ y ∷ ys) ts h =
    let ih = latest_before-last (y ∷ ys) ts (λ c m. h c (tail m)) in
    let e = last-some (y ∷ ys) (omega arith) in
    sym (
      last-cons x y ys
      ∙ e.1
      ∙ sym (
          ap
            (λ (o : Option Commit). elim o [
              | some d ↦ some d
              | none ↦ elim (ltb x.commit_ts ts) [ true ↦ some x | false ↦ none ]
            ])
            (ih ∙ e.1)))

-- The tree after cleanIfNecessary answers as it did for the other workers: for the snapshot that
-- it read of each, and for every timestamp after the last commit.
pub record Cleaned (my_worker_id : ℕ) (snapshots : List (List ℕ)) (t : CommitTree) : Type 0 where
  pub tree : CommitTree
  pub runs : clean_if_necessary my_worker_id snapshots t ≡ ok tree
  pub same_capacity : tree.capacity ≡ t.capacity
  pub room : length tree.entries < tree.capacity
  pub ascending : Ascending tree.entries
  pub within : Within tree.entries t.entries
  pub snapshot :
      (i ts : ℕ) (loads : List ℕ)
      → get_elem? snapshots i ≡ some loads
      → i ≢ my_worker_id
      → load_unlatched loads ≡ ok ts
      → ts ≢ 0
      → lcb tree.entries ts ≡ lcb t.entries ts
  pub later :
      (i ts : ℕ) (loads : List ℕ)
      → get_elem? snapshots i ≡ some loads
      → i ≢ my_worker_id
      → ((c : Commit) → Memᴰ c t.entries → c.commit_ts < ts)
      → lcb tree.entries ts ≡ lcb t.entries ts

-- On a tree whose pairs are in the order of their commits, with a place for every worker and one
-- more, cleanIfNecessary succeeds once the waits for the other workers' snapshots end, and leaves
-- room for a commit. What it keeps is a part of the pairs, in their order, and every other
-- worker gets the answer that it got before: for the snapshot that was read of it, when that is
-- not 0, and for every timestamp after the last commit.
pub clean_lem :
    (my n : ℕ) (snapshots : List (List ℕ)) (t : CommitTree)
    → my < n
    → length snapshots ≡ n
    → t.capacity ≡ suc n
    → length t.entries ≤ t.capacity
    → Ascending t.entries
    → Ready snapshots
    → Cleaned my snapshots t
unfolding clean_if_necessary
clean_lem my n snapshots t h l k b a r = elim (Bool-cases (ltb (length t.entries) t.capacity)) [
  | inl e ↦ record {
    tree = t;
    runs = rw e refl;
    same_capacity = refl;
    room = ltb→lt (length t.entries) t.capacity e;
    ascending = a;
    within = λ c m. m;
    snapshot = λ i ts loads f ne lu nz. refl;
    later = λ i ts loads f ne all. refl;
  }
  | inr e ↦
      let xs = t.entries in
      let u = Ascending-Functional xs a in
      let c = last-some xs (ground arith) in
      let g = gather_lem my xs c.0 snapshots 0 0 [] a u c.1 r (record {
        ascending = tt;
        within = λ d m. absurd (Memᴰ.not-nil m);
        small = inl (refl, refl);
      }) in
      record {
        tree = record t { entries = g.result };
        runs = rw (e, g.runs) refl;
        same_capacity = refl;
        room = elim g.kept.small [
          | inl q ↦ rw q.1 (omega arith)
          | inr q ↦ omega (arith, q.0, (others-length my 0 snapshots).1)
        ];
        ascending = g.kept.ascending;
        within = g.kept.within;
        snapshot = λ i ts loads f ne lu nz.
            lcb-within xs g.result ts a g.kept.ascending g.kept.within u (λ d q.
              (g.covers i ts loads f (λ e. ne (omega (arith, e))) lu).found nz d
                (lcb_unsafe-latest_before xs ts a ∙ q));
        later = λ i ts loads f ne all.
            let lu = r i loads f in
            lcb-within xs g.result ts a g.kept.ascending g.kept.within u (λ d q.
              (g.covers i lu.0 loads f (λ e. ne (omega (arith, e))) lu.1).newest d
                (sym (latest_before-last xs ts all) ∙ q));
      }
]
