-- ===== src/Concurrency/CommitTree/Gather.antt =====
-- The loop of cleanIfNecessary: what it keeps for the other workers, and how much.
use mathlib.Core.Path.{subst}
use epsilon_db.Base.{
  ℕ, zero, suc, ◌+◌, ◌≤◌, ◌<◌, ◌≡◌, ◌≢◌, inl, inr, refl, sym, ◌∙◌, ap, true, false, some, List, [],
  ◌∷◌, ◌==◌, length, get_elem?, arith, Bool-cases, ==-eq, some_injective, ok, ok-injective,
}
use epsilon_db.Concurrency.CommitTree.{Commit, load_unlatched, gather}
use epsilon_db.Concurrency.CommitTree.Search.{Ascending}
use epsilon_db.Concurrency.CommitTree.Clean.{Within, Functional}
use epsilon_db.Concurrency.CommitTree.Keep.{Kept, Covers, last, keep_for_lem}

-- The number of the workers from `w` on but for one.
abbrev pub others : ℕ → ℕ → List (List ℕ) → ℕ
others my_worker_id w [] = 0
others my_worker_id w (loads ∷ rest) = elim (w == my_worker_id) [
  | true ↦ others my_worker_id (suc w) rest
  | false ↦ suc (others my_worker_id (suc w) rest)
]

-- The waits for the other workers' snapshots end.
abbrev pub Ready : List (List ℕ) → Type 0
Ready snapshots =
    (i : ℕ) (loads : List ℕ)
    → get_elem? snapshots i ≡ some loads
    → (ts : ℕ) × (load_unlatched loads ≡ ok ts)

-- The set has what the other workers from `w` on need.
abbrev pub CoversAll : ℕ → List Commit → ℕ → List (List ℕ) → List Commit → Type 0
CoversAll my_worker_id xs w snapshots set =
    (i ts : ℕ) (loads : List ℕ)
    → get_elem? snapshots i ≡ some loads
    → w + i ≢ my_worker_id
    → load_unlatched loads ≡ ok ts
    → Covers xs ts set

Covers-Within : (xs s s' : List Commit) (ts : ℕ) → Within s s' → Covers xs ts s → Covers xs ts s'
Covers-Within xs s s' ts w k = record {
  newest = λ c e. w c (k.newest c e);
  found = λ ne c e. w c (k.found ne c e);
}

CoversAll-cons :
    (my : ℕ) (xs : List Commit) (w : ℕ) (loads : List ℕ) (rest : List (List ℕ)) (set : List Commit)
    → ((ts : ℕ) → w ≢ my → load_unlatched loads ≡ ok ts → Covers xs ts set)
    → CoversAll my xs (suc w) rest set
    → CoversAll my xs w (loads ∷ rest) set
CoversAll-cons my xs w loads rest set first h zero ts l f ne lu =
    first ts (λ e. ne (omega (arith, e))) (ap load_unlatched (some_injective f) ∙ lu)
CoversAll-cons my xs w loads rest set first h (suc i) ts l f ne lu =
    h i ts l f (λ e. ne (omega (arith, e))) lu

-- What the loop ends with.
pub record Gathered (my_worker_id : ℕ) (xs : List Commit) (w : ℕ) (snapshots : List (List ℕ))
    (set : List Commit) (n : ℕ) : Type 0 where
  pub result : List Commit
  pub runs : gather my_worker_id xs w snapshots set ≡ ok result
  pub kept : Kept xs (n + others my_worker_id w snapshots) result
  pub grows : Within set result
  pub covers : CoversAll my_worker_id xs w snapshots result

pub gather_lem :
    (my_worker_id : ℕ) (xs : List Commit) (c : Commit) (snapshots : List (List ℕ)) (w n : ℕ)
    (set : List Commit)
    → Ascending xs
    → Functional xs
    → last xs ≡ some c
    → Ready snapshots
    → Kept xs n set
    → Gathered my_worker_id xs w snapshots set n
unfolding gather
gather_lem my xs c [] w n set a u e r k = record {
  result = set;
  runs = refl;
  kept = subst (λ m. Kept xs m set) (omega arith) k;
  grows = λ d m. m;
  covers = λ i ts l h. cc;
}
gather_lem my xs c (loads ∷ rest) w n set a u e r k = elim (Bool-cases (w == my)) [
  | inl q ↦
      let g = gather_lem my xs c rest (suc w) n set a u e (λ i l f. r (suc i) l f) k in
      record {
        result = g.result;
        runs = rw (q, gather) g.runs;
        kept = rw (q, others) g.kept;
        grows = g.grows;
        covers =
            CoversAll-cons my xs w loads rest g.result (λ ts ne. absurd (ne (==-eq w my q)))
              g.covers;
      }
  | inr q ↦
      let lu = r 0 loads refl in
      let one = keep_for_lem xs set n lu.0 c a u e k in
      let g = gather_lem my xs c rest (suc w) (suc n) one.0 a u e (λ i l f. r (suc i) l f) one.2 in
      record {
        result = g.result;
        runs = rw (q, lu.1, one.1, gather) g.runs;
        kept = rw (q, others) (subst (λ m. Kept xs m g.result) (omega arith) g.kept);
        grows = λ d m. g.grows d (one.4 d m);
        covers =
            CoversAll-cons my xs w loads rest g.result
              (λ ts ne l.
                subst (λ t. Covers xs t g.result) (ok-injective (sym lu.1 ∙ l))
                  (Covers-Within xs one.0 g.result lu.0 g.grows one.3))
              g.covers;
      }
]

-- One of the workers is the one that cleans.
pub others-length :
    (my w : ℕ) (snapshots : List (List ℕ))
    → (my < w → others my w snapshots ≡ length snapshots)
      × (w ≤ my → my < w + length snapshots → suc (others my w snapshots) ≡ length snapshots)
others-length my w [] = ((λ h. refl), λ h k. absurd (omega (arith, h, k)))
others-length my w (l ∷ ls) = elim (Bool-cases (w == my)) [
  | inl q ↦
      let e = ==-eq w my q in
      (
        (λ h. absurd (omega (arith, h, e))),
        λ h k. rw (q, others) (ap suc ((others-length my (suc w) ls).0 (omega arith))),
      )
  | inr q ↦ (
    λ h. rw (q, others) (ap suc ((others-length my (suc w) ls).0 (omega arith))),
    λ h k. rw (q, others) (ap suc ((others-length my (suc w) ls).1 (ground arith) (omega arith))),
  )
]
