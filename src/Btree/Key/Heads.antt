-- ===== src/Btree/Key/Heads.antt =====
-- What the heads of two keys say of their order.
use Prim.Native.Nat.{lt, compare}
use native.Mathlib.Nat.{pow-suc, one-le-pow}
use epsilon_db.Base.{
  ℕ, zero, suc, ◌+◌, ◌*◌, ◌^◌, ◌<◌, ◌≤◌, ◌≡◌, refl, [], ◌∷◌, length, ◌⊎◌, inl, inr, arith, ap,
  dec_lt,
}
use epsilon_db.Bits.{bit_or_fields}
use epsilon_db.Btree.Key.{Key, head}
use epsilon_db.Btree.Key.Order.{lex}

abbrev pub IsBytes : Key → Type 0
IsBytes [] = Unit {0}
IsBytes (x ∷ xs) = (x < 256) × IsBytes xs

-- The first n bytes as a number, with zeros where the key ends.
padded : ℕ → Key → ℕ
padded zero k = 0
padded (suc n) [] = 0
padded (suc n) (x ∷ xs) = x * 256 ^ n + padded n xs

digit_below : (m x r : ℕ) → x < 256 → r < m → x * m + r < m * 256
digit_below m x r h k = grind arith

padded-lt : (n : ℕ) (k : Key) → IsBytes k → padded n k < 256 ^ n
unfolding padded
padded-lt zero k h = omega arith
padded-lt (suc n) [] h = omega (arith, one-le-pow (suc n) 256)
padded-lt (suc n) (x ∷ xs) h =
    rw (pow-suc 256 n) (digit_below (256 ^ n) x (padded n xs) h.0 (padded-lt n xs h.1))

-- A larger digit in front decides.
digit_mono : (m x r y : ℕ) → r < m → x < y → x * m + r < y * m
digit_mono m x r y hr h = grind arith

digit-lt : (m x r y s : ℕ) → r < m → s < m → x * m + r < y * m + s → (x < y) ⊎ ((x ≡ y) × (r < s))
digit-lt m x r y s hr hs h = elim (dec_lt x y) [
  | yes p ↦ inl p
  | no p ↦ elim (dec_lt y x) [
    | yes q ↦ absurd (omega (arith, digit_mono m y s x hs q))
    | no q ↦ let e : x ≡ y = omega arith in inr (e, omega (arith, h, ap (λ (t : ℕ). t * m) e))
  ]
]

digit-eq : (m x r y s : ℕ) → r < m → s < m → x * m + r ≡ y * m + s → (x ≡ y) × (r ≡ s)
digit-eq m x r y s hr hs h = elim (dec_lt x y) [
  | yes p ↦ absurd (omega (arith, digit_mono m x r y hr p))
  | no p ↦ elim (dec_lt y x) [
    | yes q ↦ absurd (omega (arith, digit_mono m y s x hs q))
    | no q ↦ let e : x ≡ y = omega arith in (e, omega (arith, h, ap (λ (t : ℕ). t * m) e))
  ]
]

head-padded : (k : Key) → IsBytes k → head k ≡ padded 4 k
unfolding head padded
head-padded [] h = refl
head-padded (a ∷ []) h = omega arith
head-padded (a ∷ b ∷ []) h = omega arith
head-padded (a ∷ b ∷ c ∷ []) h =
    omega (arith, bit_or_fields 16 (a * 256 + b) (c * 256) (omega arith))
head-padded (a ∷ b ∷ c ∷ d ∷ rest) h = omega arith

padded-lt-lex : (n : ℕ) (a b : Key) → IsBytes a → IsBytes b → padded n a < padded n b → lex a b ≡ lt
unfolding padded
padded-lt-lex zero a b ha hb h = absurd (omega arith)
padded-lt-lex (suc n) a [] ha hb h = absurd (omega arith)
padded-lt-lex (suc n) [] (y ∷ ys) ha hb h = refl
padded-lt-lex (suc n) (x ∷ xs) (y ∷ ys) ha hb h = ground (
  arith,
  digit-lt (256 ^ n) x (padded n xs) y (padded n ys) (padded-lt n xs ha.1) (padded-lt n ys hb.1) h,
  padded-lt-lex n xs ys ha.1 hb.1,
)

padded-eq-lex :
    (n : ℕ) (a b : Key)
    → IsBytes a
    → IsBytes b
    → padded n a ≡ padded n b
    → length b ≤ n
    → lex a b ≡ compare (length a) (length b)
unfolding padded
padded-eq-lex zero a (y ∷ ys) ha hb h k = absurd (omega arith)
padded-eq-lex zero [] [] ha hb h k = refl
padded-eq-lex zero (x ∷ xs) [] ha hb h k = ground arith
padded-eq-lex (suc n) [] [] ha hb h k = refl
padded-eq-lex (suc n) (x ∷ xs) [] ha hb h k = ground arith
padded-eq-lex (suc n) [] (y ∷ ys) ha hb h k = ground arith
padded-eq-lex (suc n) (x ∷ xs) (y ∷ ys) ha hb h k = ground (
  arith,
  digit-eq (256 ^ n) x (padded n xs) y (padded n ys) (padded-lt n xs ha.1) (padded-lt n ys hb.1) h,
  padded-eq-lex n xs ys ha.1 hb.1,
)

-- A smaller head is a smaller key.
pub head-lt-lex : (a b : Key) → IsBytes a → IsBytes b → head a < head b → lex a b ≡ lt
head-lt-lex a b ha hb h =
    padded-lt-lex 4 a b ha hb (omega (arith, h, head-padded a ha, head-padded b hb))

-- With equal heads, a key of at most four bytes is told from another by the lengths.
pub head-eq-lex :
    (a b : Key)
    → IsBytes a
    → IsBytes b
    → head a ≡ head b
    → length b ≤ 4
    → lex a b ≡ compare (length a) (length b)
head-eq-lex a b ha hb h k =
    padded-eq-lex 4 a b ha hb (omega (arith, h, head-padded a ha, head-padded b hb)) k
