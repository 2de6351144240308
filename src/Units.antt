-- ===== src/Units.antt =====
-- shared-headers/Units.hpp: identifiers and the layout of a log sequence number (LSN),
-- [unused:6][log_id:10][offset within the log segment:48].
use Prim.Native.Nat.{bit_and, bit_or}
use epsilon_db.Base.{ℕ, ◌+◌, ◌-◌, ◌*◌, ◌/◌, ◌%◌, ◌^◌, ◌≤◌, ◌<◌, ◌≡◌, ◌↔◌, Bool, true, arith, ◌==◌}
use epsilon_db.Bits.{shl, shr, bit_not, bit_and_low, bit_and_high, bit_or_fields}

abbrev pub invalid_pid : ℕ
invalid_pid = 2 ^ 64 - 1

abbrev pub invalid_lsn : ℕ
invalid_lsn = 2 ^ 64 - 1

abbrev pub inexistant_lsn : ℕ
inexistant_lsn = 2 ^ 64 - 2

abbrev pub non_persisted_lsn : ℕ
non_persisted_lsn = 2 ^ 64 - 3

abbrev pub lsn_log_id_bits : ℕ
lsn_log_id_bits = 10

abbrev pub lsn_offset_bits : ℕ
lsn_offset_bits = 48

abbrev pub lsn_max_log_id : ℕ
lsn_max_log_id = shl 1 lsn_log_id_bits - 1

abbrev pub lsn_offset_mask : ℕ
lsn_offset_mask = shl 1 lsn_offset_bits - 1

abbrev pub lsn_mask : ℕ
lsn_mask = shl 1 (lsn_log_id_bits + lsn_offset_bits) - 1

unfoldable pub make_lsn : ℕ → ℕ → ℕ
make_lsn log_id offset = bit_or (shl log_id lsn_offset_bits) offset

-- The result is a u32.
unfoldable pub lsn_log_id : ℕ → ℕ
lsn_log_id lsn = shr lsn lsn_offset_bits % 2 ^ 32

unfoldable pub lsn_offset : ℕ → ℕ
lsn_offset lsn = bit_and lsn lsn_offset_mask

unfoldable pub is_regular_lsn : ℕ → Bool
is_regular_lsn lsn = bit_and lsn (bit_not lsn_mask) == 0

-- The three readings and the constructor as arithmetic.
pub lsn_offset_lem : (v : ℕ) → lsn_offset v ≡ v % 2 ^ 48
unfolding lsn_offset
lsn_offset_lem v = bit_and_low 48 v

pub is_regular_lsn_lem : (v : ℕ) → v < 2 ^ 64 → (is_regular_lsn v ≡ true) ↔ (v < 2 ^ 58)
unfolding is_regular_lsn
is_regular_lsn_lem v h = ground (arith, bit_and_high 58 v 63, bit_and_low 6 (v / 2 ^ 58))

pub make_lsn_lem : (l o : ℕ) → l < 2 ^ 10 → o < 2 ^ 48 → make_lsn l o ≡ l * 2 ^ 48 + o
unfolding make_lsn
make_lsn_lem l o h k = rw (shl_small l h) (bit_or_fields 48 l o k)
  where
    shl_small : (n : ℕ) → n < 2 ^ 10 → shl n 48 ≡ n * 2 ^ 48
    shl_small n p = omega arith

-- An LSN made of a log id of 10 bits and an offset of 48 bits is regular and gives both back.
pub make_lsn-fields :
    (log_id offset : ℕ)
    → log_id ≤ lsn_max_log_id
    → offset ≤ lsn_offset_mask
    → (is_regular_lsn (make_lsn log_id offset) ≡ true)
      × (lsn_log_id (make_lsn log_id offset) ≡ log_id)
      × (lsn_offset (make_lsn log_id offset) ≡ offset)
unfolding lsn_log_id
make_lsn-fields log_id offset h k = rw (make_lsn_lem log_id offset (omega arith) (omega arith)) (
  (is_regular_lsn_lem _ (omega arith)).1 (omega arith),
  omega arith,
  omega (arith, lsn_offset_lem (log_id * 2 ^ 48 + offset)),
)
