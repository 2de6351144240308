-- ===== src/PageState/Discard.antt =====
-- `tryDiscard` of PageState.hpp against the readings of the word that it stores.
use epsilon_db.Base.{
  ℕ, ◌+◌, ◌-◌, ◌*◌, ◌/◌, ◌%◌, ◌^◌, ◌≤◌, ◌<◌, ◌≡◌, refl, Bool, true, false, arith, ok, some,
  if◌then◌else◌, ◌==◌, ◌>>=◌, ltb, leb, List, get_elem?, ◌||◌, ◌&&◌, ap, sym, ◌∙◌, ensure-eq-ok,
  >>=-eq-ok, ok-injective,
}
use Prim.Native.Nat.{bit_and, bit_or}
use epsilon_db.Bits.{shl, bit_and_low}
use epsilon_db.Units.{lsn_log_id, lsn_offset, lsn_offset_lem}
use epsilon_db.PageState.{
  discarded, fits_in_page_state, encode_discard_count, encode_lsn_array, holds_lsn_array, is_locked,
  get_state, get_log_id, get_discard_count, get_locked_fields, discarded_head, discarded_location,
  discarded_word, try_discard, compare_exchange, may_discard, status_of, is_hot, latch_bit,
  state_mask,
}
use epsilon_db.PageState.Fields.{
  bit_and-latch_bit, bit_or-latch_bit, bit_and-state_mask, bit_or_discard,
  bit_and-not_page_lsn_mask,
}
use epsilon_db.PageState.Word.{
  word, InRange, is_locked-word, get_state-word, get_log_id-word, get_discard_count-word,
  get_locked_fields-word,
}

pub record Stored (in_parent : Bool) (ptr last count log_id dc w : ℕ) : Type 0 where
  pub offset : ℕ
  pub range : InRange 1 count log_id dc offset
  pub whole : w ≡ word 1 count log_id dc offset
  pub place :
      (if holds_lsn_array in_parent count then offset * 8 else (log_id * 2 ^ 48 + offset))
      ≡ (if holds_lsn_array in_parent count then ptr else last)

fits_lem : (v : ℕ) → fits_in_page_state v ≡ true → lsn_offset v < 2 ^ 45
unfolding fits_in_page_state
fits_lem v h = ground (arith, bit_and-not_page_lsn_mask (lsn_offset v), lsn_offset_lem v)

lsn_parts : (v l : ℕ) → v < 2 ^ 64 → (lsn_log_id v == l) ≡ true → l * 2 ^ 48 + lsn_offset v ≡ v
unfolding lsn_log_id
lsn_parts v l h e = ground (arith, lsn_offset_lem v)

encode_lsn_array_lem :
    (ptr x : ℕ) → ptr < 2 ^ 64 → encode_lsn_array ptr ≡ ok x → (x * 8 ≡ ptr) × (x < 2 ^ 45)
unfolding encode_lsn_array
encode_lsn_array_lem ptr x h e =
    ground (arith, bit_and_low 3 ptr, bit_and-not_page_lsn_mask (ptr / 8))

discarded_head-word :
    (count log_id dc x : ℕ)
    → InRange 1 count log_id dc x
    → bit_or (discarded_head count log_id dc) x ≡ word 1 count log_id dc x
unfolding discarded_head encode_discard_count
discarded_head-word count log_id dc x r =
    rw (small_58 count r.records, small_48 log_id r.log_id, small_45 dc r.count)
      (bit_or_discard count log_id dc x r.records r.log_id r.count r.offset)
  where
    small_58 : (n : ℕ) → n < 8 → shl n 58 ≡ n * 2 ^ 58
    small_58 n h = omega arith

    small_48 : (n : ℕ) → n < 1024 → shl n 48 ≡ n * 2 ^ 48
    small_48 n h = omega arith

    small_45 : (n : ℕ) → n < 8 → shl n 45 ≡ n * 2 ^ 45
    small_45 n h = omega arith

-- The test of `tryDiscard` by the readings of the word.
may_discard-unlatched_hot :
    (v : ℕ) → may_discard v ≡ true → (is_locked v ≡ false) × (is_hot v ≡ ok true)
unfolding may_discard is_locked is_hot get_state status_of
may_discard-unlatched_hot v may =
    let unlatched : bit_and v latch_bit ≡ 0 = ground arith in
    let field : bit_and v state_mask ≡ 3 * 2 ^ 61 = ground arith in
    (rw unlatched refl, rw field refl)

module _ (in_parent : Bool) (ptr : ℕ) (lsns : List ℕ) (count log_id dc last : ℕ)
    (some_lsn : 0 < count) (few : count < 8) (ptr_word : ptr < 2 ^ 64) (last_word : last < 2 ^ 64)
    (last_lsn : get_elem? lsns (count - 1) ≡ some last) where
  discarded_location-eq-ok :
      (x : ℕ)
      → discarded_location in_parent ptr lsns count log_id ≡ ok x
      → (x < 2 ^ 45)
        × ((if holds_lsn_array in_parent count then x * 8 else (log_id * 2 ^ 48 + x))
            ≡ (if holds_lsn_array in_parent count then ptr else last))
  unfolding discarded_location holds_lsn_array
  discarded_location-eq-ok x h = ground (
    arith,
    index_lem,
    ap (get_elem? lsns) index_lem,
    encode_lsn_array_lem ptr x,
    lsn_parts last log_id,
    fits_lem last,
  )
    where
      index_lem : (count + 2 ^ 64 - 1) % 2 ^ 64 ≡ count - 1
      index_lem = omega arith

  discarded_word-Stored :
      (w : ℕ)
      → discarded_word in_parent ptr lsns count log_id dc ≡ ok w
      → Stored in_parent ptr last count log_id dc w
  unfolding discarded_word
  discarded_word-Stored w h =
      let (l, h1) = ensure-eq-ok (ltb log_id 1023) _ h in
      let (d, h2) = ensure-eq-ok (leb dc 7) _ h1 in
      let (x, e, h3) = >>=-eq-ok (discarded_location in_parent ptr lsns count log_id) _ h2 in
      let (lt, place) = discarded_location-eq-ok x e in
      let r : InRange 1 count log_id dc x = ground arith in
      record {
        offset = x;
        range = r;
        whole = ok-injective (sym h3) ∙ discarded_head-word count log_id dc x r;
        place = place;
      }

  pub discarded_word-lt :
      (w : ℕ) → discarded_word in_parent ptr lsns count log_id dc ≡ ok w → w < 2 ^ 63
  discarded_word-lt w h = let s = discarded_word-Stored w h in omega (arith, s.whole, s.range)

  try_discard-eq-ok :
      (v1 raw w : ℕ)
      → try_discard v1 raw in_parent ptr lsns count log_id dc ≡ ok (true, w)
      → (may_discard v1 ≡ true)
        × (raw ≡ v1)
        × (discarded_word in_parent ptr lsns count log_id dc ≡ ok w)
  unfolding try_discard compare_exchange
  try_discard-eq-ok v1 raw w h = ground arith

  -- When `tryDiscard` returns true for a page with one to seven pending LSNs, the word was
  -- unlatched and HOT and unchanged since it was loaded, and the word that it stores is unlatched
  -- and DISCARDED and gives back the log id, the discard count, the number of LSNs, and either the
  -- address of the LSN array or the last LSN, as `getLocked` reads them.
  pub try_discard_round_trip :
      (v1 raw w : ℕ)
      → try_discard v1 raw in_parent ptr lsns count log_id dc ≡ ok (true, w)
      → (raw ≡ v1)
        × (is_locked v1 ≡ false)
        × (is_hot v1 ≡ ok true)
        × (is_locked w ≡ false)
        × (get_state w ≡ ok discarded)
        × (get_log_id w ≡ ok log_id)
        × (get_discard_count w ≡ ok dc)
        × (get_locked_fields in_parent w
            ≡ ((if holds_lsn_array in_parent count then ptr else last), count))
  unfolding status_of
  try_discard_round_trip v1 raw w h =
      let (may, same, e) = try_discard-eq-ok v1 raw w h in
      let s = discarded_word-Stored w e in
      rw s.whole (
        same,
        (may_discard-unlatched_hot v1 may).0,
        (may_discard-unlatched_hot v1 may).1,
        is_locked-word 1 count log_id dc s.offset s.range,
        get_state-word 1 count log_id dc s.offset s.range,
        get_log_id-word 1 count log_id dc s.offset s.range refl,
        get_discard_count-word 1 count log_id dc s.offset s.range (omega arith),
        (get_locked_fields-word 1 count log_id dc s.offset s.range in_parent
            ∙ ap (λ (t : ℕ). (t, count)) s.place),
      )

may_discard-hot :
    (v : ℕ)
    → v < 2 ^ 64
    → may_discard v ≡ true
    → (is_hot (bit_or v latch_bit) ≡ ok true) × (bit_or v latch_bit ≡ 2 ^ 63 + v)
unfolding may_discard is_hot get_state status_of
may_discard-hot v h may =
    let below : v < 2 ^ 63 = ground (arith, bit_and-latch_bit v) in
    let e : bit_or v latch_bit ≡ 2 ^ 63 + v = bit_or-latch_bit v below in
    let field : v / 2 ^ 61 % 4 ≡ 3 = ground (arith, bit_and-state_mask v) in
    let field' : bit_and (2 ^ 63 + v) state_mask ≡ 3 * 2 ^ 61 =
      omega (arith, bit_and-state_mask (2 ^ 63 + v)) in
    (rw (e, field'), e)

-- The test of `tryDiscard` by the bits of a 64-bit word: the latch bit 0, the state bits 3.
may_discard_lem :
    (v : ℕ) → v < 2 ^ 64 → may_discard v ≡ ((v / 2 ^ 63 == 0) && (v / 2 ^ 61 % 4 == 3))
unfolding may_discard
may_discard_lem v h = ground (arith, bit_and-latch_bit v, bit_and-state_mask v)

-- `tryDiscard` discards exactly when the 64-bit word that it loaded has a latch bit of 0 and the
-- state bits of HOT, 3, and is still there at the compare-exchange; its check that the latched
-- page is HOT then holds, and it returns true with the word of the discard, or the error of making
-- that word. In every other case it returns false and leaves the word alone.
pub try_discard_branches :
    (v1 raw : ℕ) (in_parent : Bool) (ptr : ℕ) (lsns : List ℕ) (count log_id dc : ℕ)
    → v1 < 2 ^ 64
    → raw < 2 ^ 64
    → try_discard v1 raw in_parent ptr lsns count log_id dc ≡ (
        if (v1 / 2 ^ 63 == 0) && (v1 / 2 ^ 61 % 4 == 3) && (raw == v1)
        then (discarded_word in_parent ptr lsns count log_id dc >>= λ w. ok (true, w))
        else ok (false, raw))
unfolding try_discard compare_exchange
try_discard_branches v1 raw in_parent ptr lsns count log_id dc h1 h =
    ground (arith, may_discard_lem v1 h1, may_discard-hot raw h, ap may_discard {x = v1} {y = raw})

-- With valid arguments the word to store is found: one to seven LSNs, a log id below 1023, a
-- discard count of at most 7, and, when the word is to hold the LSN array, an array below 2 ^ 48
-- aligned to 8, when it is to hold the last LSN, an LSN of that log whose offset fits 45 bits.
pub discarded_word_total :
    (in_parent : Bool) (ptr : ℕ) (lsns : List ℕ) (count log_id dc last : ℕ)
    → 0 < count
    → count < 8
    → log_id < 1023
    → dc ≤ 7
    → (holds_lsn_array in_parent count ≡ true → (ptr < 2 ^ 48) × (ptr % 8 ≡ 0))
    → (holds_lsn_array in_parent count ≡ false → last ≡ log_id * 2 ^ 48 + last % 2 ^ 45)
    → get_elem? lsns (count - 1) ≡ some last
    → (w : ℕ) × (discarded_word in_parent ptr lsns count log_id dc ≡ ok w)
unfolding discarded_word discarded_location encode_lsn_array fits_in_page_state lsn_log_id
    holds_lsn_array
discarded_word_total in_parent ptr lsns count log_id dc last h1 h2 h3 h4 h5 h6 h7 = (
  bit_or (discarded_head count log_id dc)
      (if in_parent || (count == 1) then lsn_offset last else (ptr / 8)),
  ground (
    arith,
    ap (get_elem? lsns) index_lem,
    bit_and_low 3 ptr,
    bit_and-not_page_lsn_mask (ptr / 8),
    bit_and-not_page_lsn_mask (lsn_offset last),
    lsn_offset_lem last,
  ),
)
  where
    index_lem : (count + 2 ^ 64 - 1) % 2 ^ 64 ≡ count - 1
    index_lem = omega arith
