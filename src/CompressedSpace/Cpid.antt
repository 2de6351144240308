-- ===== src/CompressedSpace/Cpid.antt =====
-- namespace cpid of CompressedSpace.hpp: the location of a page on the SSD in one word,
-- [63..61] 0, [60..48] length in (0, page_size], [47..0] byte address; length 0 is "never written".
use epsilon_db.Base.{ℕ, ◌+◌, ◌-◌, ◌*◌, ◌/◌, ◌%◌, ◌^◌, ◌≤◌, ◌<◌, ◌≡◌, Bool, true, not, arith, ◌==◌}
use Prim.Native.Nat.{bit_and, bit_or}
use epsilon_db.Bits.{shl, shr, bit_and_low, bit_or_fields}

-- PAGE_SIZE of BufferFrame.hpp.
abbrev pub page_size : ℕ
page_size = 4 * 1024

abbrev pub address_bits : ℕ
address_bits = 48

abbrev pub address_mask : ℕ
address_mask = shl 1 address_bits - 1

abbrev pub length_mask : ℕ
length_mask = 0x1FFF

-- The length is a u32.
unfoldable pub make : ℕ → ℕ → ℕ
make address length = bit_or (shl length address_bits) address

unfoldable pub address : ℕ → ℕ
address pid = bit_and pid address_mask

unfoldable pub page_length : ℕ → ℕ
page_length pid = bit_and (shr pid address_bits) length_mask

unfoldable pub on_ssd : ℕ → Bool
on_ssd pid = not (page_length pid == 0)

unfoldable pub block : ℕ → ℕ
block pid = address pid / page_size

unfoldable pub offset_in_block : ℕ → ℕ
offset_in_block pid = address pid % page_size

pub address_lem : (v : ℕ) → address v ≡ v % 2 ^ 48
unfolding address
address_lem v = bit_and_low 48 v

pub page_length_lem : (v : ℕ) → page_length v ≡ v / 2 ^ 48 % 2 ^ 13
unfolding page_length
page_length_lem v = bit_and_low 13 (v / 2 ^ 48)

pub make_lem : (a l : ℕ) → a < 2 ^ 48 → l < 2 ^ 13 → make a l ≡ l * 2 ^ 48 + a
unfolding make
make_lem a l h k = rw (small l k) (bit_or_fields 48 l a h)
  where
    small : (n : ℕ) → n < 2 ^ 13 → shl n 48 ≡ n * 2 ^ 48
    small n p = omega arith

-- The location of a page of l bytes, 1 to a whole block, at the offset o of a block b below 2 ^
-- 36 gives all three back, and its three high bits, which a swip uses for its status, are 0.
pub make_fields :
    (b o l : ℕ)
    → b < 2 ^ 36
    → o < page_size
    → 0 < l
    → l ≤ page_size
    → (block (make (b * page_size + o) l) ≡ b)
      × (offset_in_block (make (b * page_size + o) l) ≡ o)
      × (page_length (make (b * page_size + o) l) ≡ l)
      × (on_ssd (make (b * page_size + o) l) ≡ true)
      × (make (b * page_size + o) l < 2 ^ 61)
unfolding block offset_in_block on_ssd
make_fields b o l hb ho hl hp =
    let e : make (b * page_size + o) l ≡ l * 2 ^ 48 + (b * page_size + o) =
      make_lem (b * page_size + o) l (omega arith) (omega arith) in
    let a : address (make (b * page_size + o) l) ≡ b * page_size + o =
      omega (arith, e, address_lem (make (b * page_size + o) l)) in
    let n : page_length (make (b * page_size + o) l) ≡ l =
      omega (arith, e, page_length_lem (make (b * page_size + o) l)) in
    (omega arith, omega arith, n, ground arith, omega arith)
