-- ===== src/Packer/Fit.antt =====
-- The loop of `place` finds the fullest slot that the page fits in.
use epsilon_db.Base.{
  ℕ, zero, suc, ◌+◌, ◌≤◌, ◌<◌, ◌≡◌, inl, inr, refl, Option, none, some, List, [], ◌∷◌, ◌++◌,
  if◌then◌else◌, length, get_elem?, arith, Bool-cases, length-append,
}
use epsilon_db.CompressedSpace.Cpid.{page_size}
use mathlib.Core.List.{append-nil, append_assoc}
use epsilon_db.Packer.{Slot, better, best_fit}

-- The page fits behind the slot's bytes, and the slot may hold one more page.
abbrev pub Fits : ℕ → ℕ → Slot → Type 0
Fits len max_pages s = (s.used + len ≤ page_size) × (s.pages < max_pages)

-- The bytes of every slot are within its block.
abbrev pub All {ℓ κ} : {A : Type ℓ} → (A → Type κ) → List A → Type κ
All P [] = Unit
All P (x ∷ xs) = P x × All P xs

abbrev pub Best : ℕ → ℕ → List Slot → Option (ℕ × ℕ) → Type 0
Best len n seen none = All (λ s. ¬ (Fits len n s)) seen
Best len n seen (some (i, u)) =
    (s : Slot) × (get_elem? seen i ≡ some s)
    × (s.used ≡ u)
    × Fits len n s
    × All (λ t. Fits len n t → t.used ≤ u) seen

pub All-append {ℓ κ} :
    {A : Type ℓ} (P : A → Type κ) (xs ys : List A) → All P xs → All P ys → All P (xs ++ ys)
All-append P [] ys h k = k
All-append P (x ∷ xs) ys h k = (h.0, All-append P xs ys h.1 k)

pub All-map {ℓ κ μ} :
    {A : Type ℓ} (P : A → Type κ) (Q : A → Type μ) (xs : List A)
    → ((a : A) → P a → Q a)
    → All P xs
    → All Q xs
All-map P Q [] f h = tt
All-map P Q (x ∷ xs) f h = (f x h.0, All-map P Q xs f h.1)

pub get_elem?-append {ℓ} :
    {A : Type ℓ} (xs ys : List A) (i : ℕ) (a : A)
    → get_elem? xs i ≡ some a
    → get_elem? (xs ++ ys) i ≡ some a
get_elem?-append [] ys i a h = cc
get_elem?-append (x ∷ xs) ys zero a h = h
get_elem?-append (x ∷ xs) ys (suc i) a h = get_elem?-append xs ys i a h

pub get_elem?-length {ℓ} :
    {A : Type ℓ} (xs : List A) (a : A) → get_elem? (xs ++ (a ∷ [])) (length xs) ≡ some a
get_elem?-length [] a = refl
get_elem?-length (x ∷ xs) a = get_elem?-length xs a

module _ (len max_pages : ℕ) (small : len ≤ page_size) where
  Best-step :
      (seen : List Slot) (best : Option (ℕ × ℕ)) (s : Slot)
      → s.used ≤ page_size
      → Best len max_pages seen best
      → Best len max_pages
          (seen ++ (s ∷ []))
          (if better len max_pages best s then some (length seen, s.used) else best)
  unfolding better
  Best-step seen none s h b = elim (Bool-cases (better len max_pages none s)) [
    | inl t ↦ rw t (
      s,
      get_elem?-length seen s,
      refl,
      ground arith,
      All-append _ seen (s ∷ []) (All-map _ _ seen (λ a nf f. absurd (nf f)) b)
          (λ _. omega arith, tt),
    )
    | inr f ↦ rw f (All-append _ seen (s ∷ []) b (λ k. ground arith, tt))
  ]
  Best-step seen (some (i, u)) s h (t, e, eu, fits, all) =
      elim (Bool-cases (better len max_pages (some (i, u)) s)) [
        | inl b ↦ rw b (
          s,
          get_elem?-length seen s,
          refl,
          ground arith,
          All-append _ seen (s ∷ [])
              (All-map _ _ seen
                (λ a le f. let lt : u < s.used = ground arith in omega (arith, le f)) all)
              (λ _. omega arith, tt),
        )
        | inr f ↦ rw f (
          t,
          get_elem?-append seen (s ∷ []) i t e,
          eu,
          fits,
          All-append _ seen (s ∷ []) all (λ k. ground arith, tt),
        )
      ]

  best_fit-Best :
      (seen slots : List Slot) (best : Option (ℕ × ℕ))
      → All (λ s. s.used ≤ page_size) slots
      → Best len max_pages seen best
      → Best len max_pages (seen ++ slots) (best_fit len max_pages (length seen) best slots)
  unfolding best_fit
  best_fit-Best seen [] best h b = rw append-nil b
  best_fit-Best seen (s ∷ slots) best h b =
      let ih =
        best_fit-Best (seen ++ (s ∷ [])) slots
          (if better len max_pages best s then some (length seen, s.used) else best) h.1
          (Best-step seen best s h.0 b) in
      rw (append_assoc, length-append seen (s ∷ [])) at ih

  -- The slot that the loop of `place` ends with can take the page and is fuller than, or as full
  -- as, any other that can; it ends with none exactly when no slot can.
  pub best_fit_lem :
      (slots : List Slot)
      → All (λ s. s.used ≤ page_size) slots
      → Best len max_pages slots (best_fit len max_pages 0 none slots)
  best_fit_lem slots h = best_fit-Best [] slots none h tt
