-- ===== src/Bits.antt =====
-- Masks, shifts and disjoint fields of machine words as arithmetic, at every width.
mod Step
use Step.{bit_and_step, bit_or_step, zero-bit_or}
use Prim.Native.Nat.{bit_and, bit_or}
use native.Mathlib.Nat.{pow-suc, one-le-pow, zero-add, add-zero, le_refl, div-add-mod'}
use epsilon_db.Base.{
  ℕ, zero, suc, ◌+◌, ◌-◌, ◌*◌, ◌/◌, ◌%◌, ◌^◌, ◌≤◌, ◌<◌, ◌≡◌, refl, ap, ◌∙◌, arith,
}

abbrev pub u64_mod : ℕ
u64_mod = 2 ^ 64

-- `x << k` on u64, and `x >> k`.
abbrev pub shl : ℕ → ℕ → ℕ
shl x k = (x * 2 ^ k) % u64_mod

abbrev pub shr : ℕ → ℕ → ℕ
shr x k = x / 2 ^ k

-- `~x` on u64, for x < 2 ^ 64.
abbrev pub bit_not : ℕ → ℕ
bit_not x = u64_mod - 1 - x

-- The recursion halves both sides, so the size bounds it.
bit_and-zero_fuel : (room x : ℕ) → x ≤ room → bit_and x 0 ≡ 0
bit_and-zero_fuel room zero fits = refl
bit_and-zero_fuel zero (suc x) fits = absurd (omega arith)
bit_and-zero_fuel (suc room) (suc x) fits =
    omega (arith, bit_and_step (suc x) 0, bit_and-zero_fuel room (suc x / 2) (omega arith))

bit_or-zero_fuel : (room x : ℕ) → x ≤ room → bit_or x 0 ≡ x
bit_or-zero_fuel room zero fits = refl
bit_or-zero_fuel zero (suc x) fits = absurd (omega arith)
bit_or-zero_fuel (suc room) (suc x) fits =
    omega (arith, bit_or_step (suc x) 0, bit_or-zero_fuel room (suc x / 2) (omega arith))

pub bit_or-zero : (a : ℕ) → bit_or a 0 ≡ a
bit_or-zero a = bit_or-zero_fuel a a (le_refl a)

mul-pow-suc : (q k : ℕ) → q * 2 ^ suc k ≡ 2 * (q * 2 ^ k)
mul-pow-suc q k = omega (arith, ap (λ (t : ℕ). q * t) (pow-suc 2 k))

field_zero : (a b : ℕ) → b < 2 ^ 0 → a * 2 ^ 0 + b ≡ a
field_zero a b h = omega arith

low_zero : (b : ℕ) → b < 2 ^ 0 → b ≡ 0
low_zero b h = omega arith

-- `&` works on the fields above and below bit k on their own.
pub bit_and_fields :
    (k q r m n : ℕ)
    → r < 2 ^ k
    → n < 2 ^ k
    → bit_and (q * 2 ^ k + r) (m * 2 ^ k + n) ≡ bit_and q m * 2 ^ k + bit_and r n
bit_and_fields zero q r m n hr hn = ground (
  arith,
  bit_and-zero_fuel 0 0,
  ap (λ (t : ℕ). bit_and t (m * 2 ^ 0 + n)) (field_zero q r hr),
  ap (λ (t : ℕ). bit_and q t) (field_zero m n hn),
  ap (λ (t : ℕ). bit_and t n) (low_zero r hr),
  ap (λ (t : ℕ). bit_and 0 t) (low_zero n hn),
)
bit_and_fields (suc k) q r m n hr hn = ground (
  arith,
  bit_and_step (q * 2 ^ suc k + r) (m * 2 ^ suc k + n),
  bit_and_step r n,
  mul-pow-suc q k,
  mul-pow-suc m k,
  mul-pow-suc (bit_and q m) k,
  pow-suc 2 k,
  bit_and_fields k q (r / 2) m (n / 2) (omega (arith, pow-suc 2 k)) (omega (arith, pow-suc 2 k)),
)

bit_and_ones : (k r : ℕ) → r < 2 ^ k → bit_and r (2 ^ k - 1) ≡ r
bit_and_ones zero r h = rw (low_zero r h) refl
bit_and_ones (suc k) r h = ground (
  arith,
  bit_and_step r (2 ^ suc k - 1),
  pow-suc 2 k,
  one-le-pow k 2,
  bit_and_ones k (r / 2) (omega (arith, pow-suc 2 k)),
)

rem-lt : (k a : ℕ) → a % 2 ^ k < 2 ^ k
rem-lt k a = grind (arith, one-le-pow k 2)

-- A mask of k low ones is the remainder by 2 ^ k.
pub bit_and_low : (k a : ℕ) → bit_and a (2 ^ k - 1) ≡ a % 2 ^ k
bit_and_low k a = ground (
  arith,
  bit_and_fields k (a / 2 ^ k) (a % 2 ^ k) 0 (2 ^ k - 1) (rem-lt k a)
      (omega (arith, one-le-pow k 2)),
  ap (λ (t : ℕ). bit_and t (2 ^ k - 1)) (div-add-mod' a (2 ^ k)),
  ap (λ (t : ℕ). bit_and (a / 2 ^ k * 2 ^ k + a % 2 ^ k) t) (zero-add (2 ^ k - 1)),
  bit_and_ones k (a % 2 ^ k) (rem-lt k a),
  bit_and-zero_fuel (a / 2 ^ k) (a / 2 ^ k) (le_refl (a / 2 ^ k)),
)

-- A mask shifted by k reads the bits from k on.
pub bit_and_high : (k a m : ℕ) → bit_and a (m * 2 ^ k) ≡ bit_and (a / 2 ^ k) m * 2 ^ k
bit_and_high k a m = ground (
  arith,
  bit_and_fields k (a / 2 ^ k) (a % 2 ^ k) m 0 (rem-lt k a) (omega (arith, one-le-pow k 2)),
  ap (λ (t : ℕ). bit_and t (m * 2 ^ k)) (div-add-mod' a (2 ^ k)),
  ap (λ (t : ℕ). bit_and (a / 2 ^ k * 2 ^ k + a % 2 ^ k) t) (add-zero (m * 2 ^ k)),
  bit_and-zero_fuel (a % 2 ^ k) (a % 2 ^ k) (le_refl (a % 2 ^ k)),
)

-- The bits of a mask of n ones from bit k on.
pub bit_and_field : (k n v : ℕ) → bit_and v ((2 ^ n - 1) * 2 ^ k) ≡ v / 2 ^ k % 2 ^ n * 2 ^ k
bit_and_field k n v =
    bit_and_high k v (2 ^ n - 1) ∙ ap (λ (t : ℕ). t * 2 ^ k) (bit_and_low n (v / 2 ^ k))

-- `|` works on the fields above and below bit k on their own.
pub bit_or_split :
    (k q r m n : ℕ)
    → r < 2 ^ k
    → n < 2 ^ k
    → bit_or (q * 2 ^ k + r) (m * 2 ^ k + n) ≡ bit_or q m * 2 ^ k + bit_or r n
bit_or_split zero q r m n hr hn = ground (
  arith,
  bit_or-zero_fuel 0 0,
  ap (λ (t : ℕ). bit_or t (m * 2 ^ 0 + n)) (field_zero q r hr),
  ap (λ (t : ℕ). bit_or q t) (field_zero m n hn),
  ap (λ (t : ℕ). bit_or t n) (low_zero r hr),
  ap (λ (t : ℕ). bit_or 0 t) (low_zero n hn),
)
bit_or_split (suc k) q r m n hr hn = ground (
  arith,
  bit_or_step (q * 2 ^ suc k + r) (m * 2 ^ suc k + n),
  bit_or_step r n,
  mul-pow-suc q k,
  mul-pow-suc m k,
  mul-pow-suc (bit_or q m) k,
  pow-suc 2 k,
  bit_or_split k q (r / 2) m (n / 2) (omega (arith, pow-suc 2 k)) (omega (arith, pow-suc 2 k)),
)

-- `|` of disjoint fields is their sum.
pub bit_or_fields : (k q r : ℕ) → r < 2 ^ k → bit_or (q * 2 ^ k) r ≡ q * 2 ^ k + r
bit_or_fields k q r h = ground (
  arith,
  bit_or_split k q 0 0 r (omega (arith, one-le-pow k 2)) h,
  ap (λ (t : ℕ). bit_or t (0 * 2 ^ k + r)) (add-zero (q * 2 ^ k)),
  ap (λ (t : ℕ). bit_or (q * 2 ^ k) t) (zero-add r),
  bit_or-zero_fuel q q (le_refl q),
  zero-bit_or r,
)

pub bit_or_fields' : (k q r : ℕ) → r < 2 ^ k → bit_or r (q * 2 ^ k) ≡ q * 2 ^ k + r
bit_or_fields' k q r h = ground (
  arith,
  bit_or_split k 0 r q 0 h (omega (arith, one-le-pow k 2)),
  ap (λ (t : ℕ). bit_or t (q * 2 ^ k + 0)) (zero-add r),
  ap (λ (t : ℕ). bit_or r t) (add-zero (q * 2 ^ k)),
  bit_or-zero_fuel r r (le_refl r),
  zero-bit_or q,
)

pub bit_or-add : (k a b : ℕ) → a % 2 ^ k ≡ 0 → b < 2 ^ k → bit_or a b ≡ a + b
bit_or-add k a b h p =
    let e : a / 2 ^ k * 2 ^ k ≡ a = omega (arith, div-add-mod' a (2 ^ k)) in
    ground (arith, bit_or_fields k (a / 2 ^ k) b p, ap (λ (t : ℕ). bit_or t b) e)
