-- ===== src/CompressedSpace/Lists.antt =====
-- Arrays as functions, the end of a list, and how often a block stands in the free lists.
use mathlib.Core.Logic.{ite}
use epsilon_db.Base.{
  ℕ, zero, suc, ◌+◌, ◌≤◌, ◌<◌, ◌≡◌, refl, Option, none, some, List, [], ◌∷◌, ◌++◌, ◌==◌,
  if◌then◌else◌, length, take, drop, arith, ℕ_discrete, take-append-drop, Option-cases, inl, inr,
  sym, ap, ◌∙◌, length-append,
}

abbrev pub update {ℓ} : {A : Type ℓ} → (ℕ → A) → ℕ → A → ℕ → A
update f i a j = ite (ℕ_discrete i j) a (f j)

pub update_self {ℓ} : {A : Type ℓ} (f : ℕ → A) (i : ℕ) (x : A) → update f i x i ≡ x
update_self f i x = ground arith

-- `back()` and the list after `pop_back()`.
abbrev pub split_last {ℓ} : {A : Type ℓ} → List A → Option (List A × A)
split_last [] = none
split_last (x ∷ xs) = elim (split_last xs) [ none ↦ some ([], x) | some (ys, y) ↦ some (x ∷ ys, y) ]

pub split_last-append {ℓ} :
    {A : Type ℓ} (xs ys : List A) (y : A) → split_last xs ≡ some (ys, y) → xs ≡ ys ++ (y ∷ [])
split_last-append [] ys y h = cc
split_last-append (x ∷ xs) ys y h = elim (Option-cases (split_last xs)) [
  | inl e ↦ ground (arith, e)
  | inr ((zs, z), e) ↦ ground (arith, e, split_last-append xs zs z e)
]

-- How often a number stands in a list.
unfoldable pub occurrences : ℕ → List ℕ → ℕ
occurrences b [] = 0
occurrences b (x ∷ xs) = (if x == b then 1 else 0) + occurrences b xs

pub occurrences-append :
    (b : ℕ) (xs ys : List ℕ) → occurrences b (xs ++ ys) ≡ occurrences b xs + occurrences b ys
unfolding occurrences
occurrences-append b [] ys = omega arith
occurrences-append b (x ∷ xs) ys = omega (arith, occurrences-append b xs ys)

pub occurrences-split :
    (b n : ℕ) (xs : List ℕ)
    → occurrences b (take n xs) + occurrences b (drop n xs) ≡ occurrences b xs
occurrences-split b n xs =
    sym (occurrences-append b (take n xs) (drop n xs)) ∙ ap (occurrences b) (take-append-drop n xs)

pub length-split {ℓ} :
    {A : Type ℓ} (n : ℕ) (xs : List A) → length (take n xs) + length (drop n xs) ≡ length xs
length-split n xs = sym (length-append (take n xs) (drop n xs)) ∙ ap length (take-append-drop n xs)

-- The sum of a measure over the first n lists of a family.
unfoldable pub total : (List ℕ → ℕ) → ℕ → (ℕ → List ℕ) → ℕ
total m zero f = 0
total m (suc n) f = m (f n) + total m n f

total-update_above :
    (m : List ℕ → ℕ) (n : ℕ) (f : ℕ → List ℕ) (i : ℕ) (xs : List ℕ)
    → n ≤ i
    → total m n (update f i xs) ≡ total m n f
unfolding total
total-update_above m zero f i xs h = refl
total-update_above m (suc n) f i xs h = ground (arith, total-update_above m n f i xs)

pub total-update :
    (m : List ℕ → ℕ) (n : ℕ) (f : ℕ → List ℕ) (i : ℕ) (xs : List ℕ)
    → i < n
    → total m n (update f i xs) + m (f i) ≡ total m n f + m xs
unfolding total
total-update m zero f i xs h = absurd (omega arith)
total-update m (suc n) f i xs h = elim (ℕ_discrete i n) [
  | yes e ↦ ground (arith, total-update_above m n f i xs)
  | no e ↦ ground (arith, total-update m n f i xs)
]
