-- ===== src/Concurrency/CommitTree/Clean.antt =====
-- cleanIfNecessary: the set that it keeps answers the snapshots of the other workers as the whole
-- array does, and leaves room for a commit.
use mathlib.Core.List.{Memᴰ}
use mathlib.Core.List.Memᴰ
use mathlib.Core.List.Memᴰ.{head, tail}
use epsilon_db.Base.{
  suc, ◌≤◌, ◌<◌, ◌≡◌, inl, inr, refl, sym, true, false, List, [], ◌∷◌, length, arith, Bool-cases,
  ℕ_discrete,
}
use epsilon_db.Concurrency.CommitTree.{Commit, pair_less, set_insert}
use epsilon_db.Concurrency.CommitTree.Search.{Above, Ascending, Above-lt}

Commit-≡ : (c d : Commit) → c.commit_ts ≡ d.commit_ts → c.start_ts ≡ d.start_ts → c ≡ d
Commit-≡ c d p q = cc

-- Neither pair is less than the other only when they are the same.
pair_less-same : (c d : Commit) → pair_less c d ≡ false → pair_less d c ≡ false → c ≡ d
unfolding pair_less
pair_less-same c d h k = Commit-≡ c d (ground arith) (ground arith)

pair_less-le : (c d : Commit) → pair_less c d ≡ true → c.commit_ts ≤ d.commit_ts
unfolding pair_less
pair_less-le c d h = ground arith

abbrev pub Within : List Commit → List Commit → Type 0
Within ys xs = (c : Commit) → Memᴰ c ys → Memᴰ c xs

-- One start timestamp for a commit timestamp.
abbrev pub Functional : List Commit → Type 0
Functional xs =
    (c d : Commit) → Memᴰ c xs → Memᴰ d xs → c.commit_ts ≡ d.commit_ts → c.start_ts ≡ d.start_ts

pub set_insert-mem : (c : Commit) (s : List Commit) → Memᴰ c (set_insert c s)
unfolding set_insert
set_insert-mem c [] = head refl
set_insert-mem c (d ∷ ds) = elim (Bool-cases (pair_less c d)) [
  | inl e ↦ rw e (head refl)
  | inr e ↦ elim (Bool-cases (pair_less d c)) [
    | inl f ↦ rw (e, f) (tail (set_insert-mem c ds))
    | inr f ↦ rw (e, f) (head (pair_less-same c d e f))
  ]
]

pub set_insert-keeps : (c : Commit) (s : List Commit) → Within s (set_insert c s)
unfolding set_insert
set_insert-keeps c [] = λ d m. absurd (Memᴰ.not-nil m)
set_insert-keeps c (e ∷ es) = λ d m. elim (Bool-cases (pair_less c e)) [
  | inl p ↦ rw p (tail m)
  | inr p ↦ elim (Bool-cases (pair_less e c)) [
    | inr q ↦ rw (p, q) m
    | inl q ↦
        rw (p, q)
          (elim (Memᴰ.cases_cons m) [ inl r ↦ head r | inr n ↦ tail (set_insert-keeps c es d n) ])
  ]
]

pub set_insert-Within :
    (c : Commit) (s xs : List Commit) → Memᴰ c xs → Within s xs → Within (set_insert c s) xs
unfolding set_insert
set_insert-Within c [] xs m w =
    λ d n. elim (Memᴰ.cases_cons n) [ inl r ↦ Memᴰ.cast r m | inr k ↦ w d k ]
set_insert-Within c (e ∷ es) xs m w = λ d. elim (Bool-cases (pair_less c e)) [
  | inl p ↦ rw p (λ n. elim (Memᴰ.cases_cons n) [ inl r ↦ Memᴰ.cast r m | inr k ↦ w d k ])
  | inr p ↦ elim (Bool-cases (pair_less e c)) [
    | inr q ↦ rw (p, q) (w d)
    | inl q ↦
        rw (p, q)
          (λ n. elim (Memᴰ.cases_cons n) [
            | inl r ↦ w d (head r)
            | inr k ↦ set_insert-Within c es xs m (λ x y. w x (tail y)) d k
          ])
  ]
]

-- Members of an array with one start per commit that are different have different commits.
less-commit :
    (c d : Commit) (xs : List Commit)
    → Functional xs
    → Memᴰ c xs
    → Memᴰ d xs
    → pair_less c d ≡ true
    → c.commit_ts < d.commit_ts
unfolding pair_less
less-commit c d xs u m n h = elim (ℕ_discrete c.commit_ts d.commit_ts) [
  | yes e ↦ let s = u c d m n e in ground (arith, h, e, s)
  | no ne ↦ ground (arith, h, ne)
]

Above-set_insert :
    (b c : Commit) (s : List Commit)
    → b.commit_ts < c.commit_ts
    → Above b s
    → Above b (set_insert c s)
unfolding set_insert
Above-set_insert b c [] h a = (h, tt)
Above-set_insert b c (e ∷ es) h a = elim (Bool-cases (pair_less c e)) [
  | inl p ↦ rw p (h, a)
  | inr p ↦ elim (Bool-cases (pair_less e c)) [
    | inr q ↦ rw (p, q) a
    | inl q ↦ rw (p, q) (a.0, Above-set_insert b c es h a.1)
  ]
]

Above-trans : (b c : Commit) (s : List Commit) → b.commit_ts < c.commit_ts → Above c s → Above b s
Above-trans b c [] h a = tt
Above-trans b c (e ∷ es) h a = (omega (arith, h, a.0), Above-trans b c es h a.1)

pub set_insert-Ascending :
    (c : Commit) (s xs : List Commit)
    → Functional xs
    → Memᴰ c xs
    → Within s xs
    → Ascending s
    → Ascending (set_insert c s)
unfolding set_insert
set_insert-Ascending c [] xs u m w a = (tt, tt)
set_insert-Ascending c (e ∷ es) xs u m w a = elim (Bool-cases (pair_less c e)) [
  | inl p ↦
      let l = less-commit c e xs u m (w e (head refl)) p in rw p ((l, Above-trans c e es l a.0), a)
  | inr p ↦ elim (Bool-cases (pair_less e c)) [
    | inr q ↦ rw (p, q) a
    | inl q ↦
        let l = less-commit e c xs u (w e (head refl)) m q in
        rw (p, q)
          (
            Above-set_insert e c es l a.0,
            set_insert-Ascending c es xs u m (λ x y. w x (tail y)) a.1,
          )
  ]
]

pub length-set_insert : (c : Commit) (s : List Commit) → length (set_insert c s) ≤ suc (length s)
unfolding set_insert
length-set_insert c [] = omega arith
length-set_insert c (e ∷ es) = elim (Bool-cases (pair_less c e)) [
  | inl p ↦ rw p (omega arith)
  | inr p ↦ elim (Bool-cases (pair_less e c)) [
    | inr q ↦ rw (p, q) (omega arith)
    | inl q ↦ rw (p, q) (omega (arith, length-set_insert c es))
  ]
]

pair_less_irrefl : (c d : Commit) → c ≡ d → pair_less c d ≡ false
unfolding pair_less
pair_less_irrefl c d e = rw e (ground arith)

pair_less-above :
    (c d : Commit) → c.commit_ts < d.commit_ts → (pair_less c d ≡ true) × (pair_less d c ≡ false)
unfolding pair_less
pair_less-above c d h = (ground arith, ground arith)

-- An element that is in the set is not inserted again.
pub set_insert-again : (c : Commit) (s : List Commit) → Ascending s → Memᴰ c s → set_insert c s ≡ s
unfolding set_insert
set_insert-again c [] a m = absurd (Memᴰ.not-nil m)
set_insert-again c (e ∷ es) a (head r) =
    rw (pair_less_irrefl c e r, pair_less_irrefl e c (sym r)) refl
set_insert-again c (e ∷ es) a (tail m) =
    let p = pair_less-above e c (Above-lt e es a.0 c m) in
    rw (p.1, p.0, set_insert-again c es a.1 m) refl
