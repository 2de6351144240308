-- ===== src/Swip.antt =====
-- backend/leanstore/storage/buffer-manager/Swip.hpp: the word of a swizzled pointer, which is
-- the address of a frame (hot or cooling) or a page id with 32 bits of status (evicted).
pub mod Transitions
mod Tests
use Prim.Native.Nat.{bit_and, bit_or}
use epsilon_db.Base.{
  ℕ, ◌+◌, ◌-◌, ◌*◌, ◌/◌, ◌%◌, ◌^◌, Bool, not, ◌==◌, leb, if◌then◌else◌, Result, ok, ◌>>=◌, ◌>>◌,
  ensure,
}
use epsilon_db.Bits.{shl, shr, bit_not}

abbrev pub evicted_bit : ℕ
evicted_bit = shl 1 63

abbrev pub cool_bit : ℕ
cool_bit = shl 1 62

abbrev pub hot_mask : ℕ
hot_mask = bit_not (shl 3 62)

abbrev pub dirty_bit : ℕ
dirty_bit = shl 1 61

-- u32 constants of the upper half, `meta`.
abbrev pub pending_lsn_count_shift : ℕ
pending_lsn_count_shift = 26

abbrev pub pending_lsn_count_mask : ℕ
pending_lsn_count_mask = 7 * 2 ^ 26

abbrev pub ru_epoch_mask : ℕ
ru_epoch_mask = 2 ^ 26 - 1

-- The two halves of the word, on a little-endian machine.
abbrev pub page_id : ℕ → ℕ
page_id w = w % 2 ^ 32

abbrev pub meta : ℕ → ℕ
meta w = w / 2 ^ 32

abbrev pub of_halves : ℕ → ℕ → ℕ
of_halves id m = m * 2 ^ 32 + id

pub is_hot : ℕ → Bool
is_hot w = bit_and w (bit_or evicted_bit cool_bit) == 0

pub is_cool : ℕ → Bool
is_cool w = not (bit_and w cool_bit == 0)

pub is_evicted : ℕ → Bool
is_evicted w = not (bit_and w evicted_bit == 0)

pub is_dirty : ℕ → Bool
is_dirty w = not (bit_and w dirty_bit == 0)

abbrev pub as_page_id : ℕ → ℕ
as_page_id w = page_id w

-- The address, of a hot or a cooling swip.
pub as_buffer_frame_masked : ℕ → ℕ
as_buffer_frame_masked w = bit_and w hot_mask

pub ru_epoch : ℕ → ℕ
ru_epoch w = bit_and (meta w) ru_epoch_mask

pub pending_lsn_count : ℕ → ℕ
pending_lsn_count w =
    if not (is_evicted w)
    then 0
    else shr (bit_and (meta w) pending_lsn_count_mask) pending_lsn_count_shift % 2 ^ 8

-- `warm()`; the other `warm` stores the address it gets.
pub warm : ℕ → ℕ
warm w = bit_and w (bit_not cool_bit)

pub cool : ℕ → ℕ
cool w = bit_or w cool_bit

-- The mask of the check is the complement of a u32, 0.
abbrev pub page_id_check : ℕ → Bool
page_id_check pid = bit_and pid (2 ^ 32 - 1 - 0xFFFFFFFF) == 0

pub evict : ℕ → Result ℕ
evict pid = ensure (page_id_check pid) >> ok (of_halves (pid % 2 ^ 32) 0x80000000)

pub evict_and_mark_dirty : ℕ → ℕ → ℕ → Result ℕ
evict_and_mark_dirty pid epoch count = do
  ensure (page_id_check pid)
  ensure (bit_and epoch (bit_not ru_epoch_mask) == 0)
  ensure (leb count 7)
  ensure (bit_and epoch (bit_not 0x1FFFFFFF) == 0)
  let counted = bit_or epoch ((count * 2 ^ pending_lsn_count_shift) % 2 ^ 32)
  ok (of_halves (pid % 2 ^ 32) (bit_or counted 0xA0000000 % 2 ^ 32))
