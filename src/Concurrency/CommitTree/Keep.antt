-- ===== src/Concurrency/CommitTree/Keep.antt =====
-- What cleanIfNecessary puts in its set for one worker.
use mathlib.Core.List.{Memᴰ}
use mathlib.Core.List.Memᴰ
use mathlib.Core.List.Memᴰ.{head, tail}
use mathlib.Core.Path.{subst}
use epsilon_db.Base.{
  ℕ, zero, suc, ◌-◌, ◌≤◌, ◌≡◌, ◌≢◌, ◌⊎◌, inl, inr, refl, sym, ◌∙◌, Option, some, List, [], ◌∷◌,
  ◌==◌, length, get_elem?, arith, Bool-cases, ==-eq, Option-cases, some_injective, ok,
}
use epsilon_db.Concurrency.CommitTree.{
  Commit, lcb_unsafe, set_insert, insert_element, insert_found, keep_for,
}
use epsilon_db.Concurrency.CommitTree.Search.{
  Ascending, lcb_unsafe-latest_before, IsLatest, latest_before-IsLatest,
}
use epsilon_db.Concurrency.CommitTree.Clean.{
  Within, Functional, set_insert-mem, set_insert-keeps, set_insert-Within, set_insert-Ascending,
  length-set_insert, set_insert-again,
}

get_elem?-mem : (xs : List Commit) (i : ℕ) (c : Commit) → get_elem? xs i ≡ some c → Memᴰ c xs
get_elem?-mem [] i c h = cc
get_elem?-mem (x ∷ xs) zero c h = head (sym (some_injective h))
get_elem?-mem (x ∷ xs) (suc i) c h = tail (get_elem?-mem xs i c h)

-- The last element of the array.
abbrev pub last : List Commit → Option Commit
last xs = get_elem? xs (length xs - 1)

-- The set is a part of the array, with at most one element for each of `n` workers but the last
-- element of the array.
pub record Kept (xs : List Commit) (n : ℕ) (set : List Commit) : Type 0 where
  pub ascending : Ascending set
  pub within : Within set xs
  pub small :
      ((n ≡ 0) × (set ≡ []))
      ⊎ ((length set ≤ suc n) × ((c : Commit) → last xs ≡ some c → Memᴰ c set))

-- What the set has for a worker with that snapshot.
pub record Covers (xs : List Commit) (ts : ℕ) (set : List Commit) : Type 0 where
  pub newest : (c : Commit) → last xs ≡ some c → Memᴰ c set
  pub found : ts ≢ 0 → (c : Commit) → lcb_unsafe xs ts ≡ some c → Memᴰ c set

-- The array's last element goes in once.
with_newest :
    (xs set : List Commit) (n : ℕ) (c : Commit)
    → last xs ≡ some c
    → Kept xs n set
    → length (set_insert c set) ≤ suc n
with_newest xs set n c e k = elim k.small [
  | inl (z, q) ↦ rw q (omega (arith, length-set_insert c []))
  | inr (l, m) ↦ rw (set_insert-again c set k.ascending (m c e)) l
]

-- An element goes in after the array's last one.
with_another :
    (xs set : List Commit) (n : ℕ) (c d : Commit)
    → Functional xs
    → last xs ≡ some c
    → Kept xs n set
    → Memᴰ d xs
    → Kept xs (suc n) (set_insert d (set_insert c set))
with_another xs set n c d u e k m =
    let mc = get_elem?-mem xs (length xs - 1) c e in
    let s1 = set_insert c set in
    let a1 = set_insert-Ascending c set xs u mc k.within k.ascending in
    let w1 = set_insert-Within c set xs mc k.within in
    record {
      ascending = set_insert-Ascending d s1 xs u m w1 a1;
      within = set_insert-Within d s1 xs m w1;
      small = inr (
        omega (arith, length-set_insert d s1, with_newest xs set n c e k),
        λ c' e'.
            set_insert-keeps d s1 c'
              (Memᴰ.cast (some_injective (sym e' ∙ e)) (set_insert-mem c set)),
      );
    }

-- Only the array's last element goes in.
with_one :
    (xs set : List Commit) (n : ℕ) (c : Commit)
    → Functional xs
    → last xs ≡ some c
    → Kept xs n set
    → Kept xs (suc n) (set_insert c set)
with_one xs set n c u e k =
    let mc = get_elem?-mem xs (length xs - 1) c e in
    record {
      ascending = set_insert-Ascending c set xs u mc k.within k.ascending;
      within = set_insert-Within c set xs mc k.within;
      small = inr (
        omega (arith, with_newest xs set n c e k),
        λ c' e'. Memᴰ.cast (some_injective (sym e' ∙ e)) (set_insert-mem c set),
      );
    }

lcb_unsafe-mem :
    (xs : List Commit) (ts : ℕ) (c : Commit) → Ascending xs → lcb_unsafe xs ts ≡ some c → Memᴰ c xs
lcb_unsafe-mem xs ts c a e =
    (subst (IsLatest xs ts) (sym (lcb_unsafe-latest_before xs ts a) ∙ e)
      (latest_before-IsLatest xs ts a)).0

first-exists :
    (xs : List Commit) (c : Commit) → Memᴰ c xs → (d : Commit) × (get_elem? xs 0 ≡ some d)
first-exists [] c m = absurd (Memᴰ.not-nil m)
first-exists (x ∷ xs) c m = (x, refl)

-- What the loop does for one worker.
pub keep_for_lem :
    (xs set : List Commit) (n ts : ℕ) (c : Commit)
    → Ascending xs
    → Functional xs
    → last xs ≡ some c
    → Kept xs n set
    → (set' : List Commit) × (keep_for xs ts set ≡ ok set')
      × Kept xs (suc n) set'
      × Covers xs ts set'
      × Within set set'
unfolding keep_for insert_element insert_found
keep_for_lem xs set n ts c a u e k =
    let s1 = set_insert c set in
    let has : (d : Commit) → Memᴰ d set → Memᴰ d s1 = set_insert-keeps c set in
    let is_c : (c' : Commit) → last xs ≡ some c' → Memᴰ c' s1 =
      λ c' e'. Memᴰ.cast (some_injective (sym e' ∙ e)) (set_insert-mem c set) in
    elim (Bool-cases (ts == 0)) [
      | inl z ↦
          let first = first-exists xs c (get_elem?-mem xs (length xs - 1) c e) in
          let d = first.0 in
          (
            set_insert d s1,
            rw (e, z, first.1) refl,
            with_another xs set n c d u e k (get_elem?-mem xs 0 d first.1),
            record {
              newest = λ c' e'. set_insert-keeps d s1 c' (is_c c' e');
              found = λ ne. absurd (ne (==-eq ts 0 z));
            },
            λ x m. set_insert-keeps d s1 x (has x m),
          )
      | inr z ↦ elim (Option-cases (lcb_unsafe xs ts)) [
        | inl q ↦ (
          s1,
          rw (e, z, q) refl,
          with_one xs set n c u e k,
          record { newest = is_c; found = λ ne d f. cc },
          has,
        )
        | inr (d, q) ↦ (
          set_insert d s1,
          rw (e, z, q) refl,
          with_another xs set n c d u e k (lcb_unsafe-mem xs ts d a q),
          record {
            newest = λ c' e'. set_insert-keeps d s1 c' (is_c c' e');
            found = λ ne d' f. Memᴰ.cast (some_injective (sym f ∙ q)) (set_insert-mem d s1);
          },
          λ x m. set_insert-keeps d s1 x (has x m),
        )
      ]
    ]
