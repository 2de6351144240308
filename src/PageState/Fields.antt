-- ===== src/PageState/Fields.antt =====
-- What each mask and each `|` of the page state word does, as arithmetic.
use Prim.Native.Nat.{bit_and, bit_or}
use epsilon_db.Base.{ℕ, ◌+◌, ◌-◌, ◌*◌, ◌/◌, ◌%◌, ◌^◌, ◌<◌, ◌≡◌, refl, ap, arith}
use epsilon_db.Bits.{
  bit_and_low, bit_and_fields, bit_and_field, bit_or_fields', bit_or_split, bit_or-add, bit_or-zero,
  bit_not,
}
use epsilon_db.PageState.{
  latch_bit, latch_mask, state_mask, nb_log_records_mask, log_id_mask, discard_count_mask,
  page_lsn_mask, bf_ptr_mask, full_lsn_mask,
}
use native.Mathlib.Nat.{div-add-mod'}

pub bit_and-latch_bit : (v : ℕ) → bit_and v latch_bit ≡ v / 2 ^ 63 % 2 * 2 ^ 63
bit_and-latch_bit v = bit_and_field 63 1 v

pub bit_and-latch_mask : (v : ℕ) → bit_and v latch_mask ≡ v % 2 ^ 63
bit_and-latch_mask v = bit_and_low 63 v

pub bit_and-state_mask : (v : ℕ) → bit_and v state_mask ≡ v / 2 ^ 61 % 4 * 2 ^ 61
bit_and-state_mask v = bit_and_field 61 2 v

pub bit_and-nb_log_records_mask : (v : ℕ) → bit_and v nb_log_records_mask ≡ v / 2 ^ 58 % 8 * 2 ^ 58
bit_and-nb_log_records_mask v = bit_and_field 58 3 v

pub bit_and-log_id_mask : (v : ℕ) → bit_and v log_id_mask ≡ v / 2 ^ 48 % 1024 * 2 ^ 48
bit_and-log_id_mask v = bit_and_field 48 10 v

pub bit_and-discard_count_mask : (v : ℕ) → bit_and v discard_count_mask ≡ v / 2 ^ 45 % 8 * 2 ^ 45
bit_and-discard_count_mask v = bit_and_field 45 3 v

pub bit_and-page_lsn_mask : (v : ℕ) → bit_and v page_lsn_mask ≡ v % 2 ^ 45
bit_and-page_lsn_mask v = bit_and_low 45 v

pub bit_and-bf_ptr_mask : (v : ℕ) → bit_and v bf_ptr_mask ≡ v % 2 ^ 48
bit_and-bf_ptr_mask v = bit_and_low 48 v

-- The LSN: the log id and the offset, without the discard count between them.
pub bit_and-full_lsn_mask :
    (v : ℕ) → bit_and v full_lsn_mask ≡ v / 2 ^ 48 % 1024 * 2 ^ 48 + v % 2 ^ 45
bit_and-full_lsn_mask v = ground (
  arith,
  bit_and_fields 48 (v / 2 ^ 48) (v % 2 ^ 48) 1023 (2 ^ 45 - 1) (omega arith) (omega arith),
  ap (λ (t : ℕ). bit_and t full_lsn_mask) (div-add-mod' v (2 ^ 48)),
  bit_and_low 10 (v / 2 ^ 48),
  bit_and_low 45 (v % 2 ^ 48),
)

-- The bits outside the LSN offset and outside a frame pointer.
pub bit_and-not_page_lsn_mask :
    (v : ℕ) → bit_and v (bit_not page_lsn_mask) ≡ v / 2 ^ 45 % 2 ^ 19 * 2 ^ 45
bit_and-not_page_lsn_mask v = bit_and_field 45 19 v

pub bit_and-not_bf_ptr_mask :
    (v : ℕ) → bit_and v (bit_not bf_ptr_mask) ≡ v / 2 ^ 48 % 2 ^ 16 * 2 ^ 48
bit_and-not_bf_ptr_mask v = bit_and_field 48 16 v

pub bit_or-latch_bit : (v : ℕ) → v < 2 ^ 63 → bit_or v latch_bit ≡ 2 ^ 63 + v
bit_or-latch_bit v h = bit_or_fields' 63 1 v h

-- The five fields that `tryDiscard` puts together, the last one 45 bits wide.
pub bit_or_discard :
    (n l d x : ℕ)
    → n < 8
    → l < 1024
    → d < 8
    → x < 2 ^ 45
    → bit_or (bit_or (bit_or (bit_or (2 ^ 61) (n * 2 ^ 58)) (l * 2 ^ 48)) (d * 2 ^ 45)) x
      ≡ 2 ^ 61 + n * 2 ^ 58 + l * 2 ^ 48 + d * 2 ^ 45 + x
bit_or_discard n l d x hn hl hd hx = rw (bit_or-add 61 (2 ^ 61) (n * 2 ^ 58) refl (omega arith)) (
    rw (bit_or-add 58 (2 ^ 61 + n * 2 ^ 58) (l * 2 ^ 48) (omega arith) (omega arith)) (
      rw (bit_or-add 48 (2 ^ 61 + n * 2 ^ 58 + l * 2 ^ 48) (d * 2 ^ 45) (omega arith) (omega arith))
        (bit_or-add 45 (2 ^ 61 + n * 2 ^ 58 + l * 2 ^ 48 + d * 2 ^ 45) x (omega arith) hx)))

-- The three fields that `unlockClean` puts together, around a regular LSN l * 2 ^ 48 + x.
pub bit_or_clean :
    (l d x : ℕ)
    → l < 1024
    → d < 8
    → x < 2 ^ 45
    → bit_or (bit_or (l * 2 ^ 48 + x) (d * 2 ^ 45)) (2 ^ 62) ≡ 2 ^ 62 + l * 2 ^ 48 + d * 2 ^ 45 + x
bit_or_clean l d x hl hd hx = ground (
  arith,
  bit_or_split 48 l x 0 (d * 2 ^ 45) (omega arith) (omega arith),
  bit_or_fields' 45 d x hx,
  bit_or-zero l,
  bit_or_fields' 62 1 (l * 2 ^ 48 + (d * 2 ^ 45 + x)) (omega arith),
)
