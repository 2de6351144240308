-- ===== src/Align.antt =====
-- backend/leanstore/utils/Misc.hpp: upAlign and downAlign, on u64; the asserts are debug checks.
use Prim.Native.Nat.{bit_and}
use epsilon_db.Base.{ℕ, ◌+◌, ◌-◌, ◌*◌, ◌/◌, ◌%◌, ◌^◌, ◌<◌, ◌≡◌, arith}
use epsilon_db.Bits.{bit_not, bit_and_low, bit_and_field}

unfoldable pub up_align : ℕ → ℕ → ℕ
up_align x b = bit_and ((x + (b - 1)) % 2 ^ 64) (bit_not (b - 1))

unfoldable pub down_align : ℕ → ℕ → ℕ
down_align x b = x - bit_and x (b - 1)

pub up_align_8 : (x : ℕ) → x + 7 < 2 ^ 64 → up_align x 8 ≡ (x + 7) / 8 * 8
unfolding up_align
up_align_8 x h = omega (arith, bit_and_field 3 61 ((x + 7) % 2 ^ 64))

pub up_align_4096 : (x : ℕ) → x + 4095 < 2 ^ 64 → up_align x 4096 ≡ (x + 4095) / 4096 * 4096
unfolding up_align
up_align_4096 x h = omega (arith, bit_and_field 12 52 ((x + 4095) % 2 ^ 64))

pub down_align_4096 : (x : ℕ) → down_align x 4096 ≡ x / 4096 * 4096
unfolding down_align
down_align_4096 x = omega (arith, bit_and_low 12 x)

-- Rounding up gives a multiple that fits a u64.
pub up_align_multiple : (x : ℕ) → (up_align x 4096 < 2 ^ 64) × (up_align x 4096 % 4096 ≡ 0)
unfolding up_align
up_align_multiple x =
    let e = bit_and_field 12 52 ((x + 4095) % 2 ^ 64) in (omega (arith, e), omega (arith, e))
