-- ===== src/PageState.antt =====
-- backend/leanstore/storage/buffer-manager/PageState.{hpp,cpp}: the 64-bit word that says of a page
-- whether it is latched, discarded, clean or cached, and where its pending log records are.
-- The word is a number below 2 ^ 64; pointers are addresses.
pub mod Fields
pub mod Word
pub mod Discard
pub mod Publish
pub mod Latching
mod Tests
use Prim.Native.Nat.{bit_and, bit_or}
use epsilon_db.Base.{
  ℕ, ◌+◌, ◌-◌, ◌*◌, ◌/◌, ◌%◌, ◌^◌, ◌≤◌, ◌<◌, Bool, true, false, not, ◌&&◌, ◌||◌, Option, none, some,
  List, ◌==◌, ltb, leb, if◌then◌else◌, get_elem?, Result, ok, fail, ◌>>=◌, ◌>>◌, ensure,
  undefined_behaviour,
}
use epsilon_db.Bits.{u64_mod, shl, shr, bit_not}
use epsilon_db.Units.{lsn_mask, lsn_log_id, lsn_offset, is_regular_lsn, non_persisted_lsn}

abbrev pub latch_bit : ℕ
latch_bit = shl 1 63

abbrev pub latch_mask : ℕ
latch_mask = bit_not (shl 1 63)

abbrev pub state_shift : ℕ
state_shift = 61

abbrev pub state_mask : ℕ
state_mask = shl 3 state_shift

-- `enum PAGE_STATE`, by its values 0, 1, 2, 3.
pub data PageStatus : Type 0 where
  not_sure discarded clean hot : PageStatus

abbrev pub status_code : PageStatus → ℕ
status_code not_sure = 0
status_code discarded = 1
status_code clean = 2
status_code hot = 3

abbrev pub state_discarded_mask : ℕ
state_discarded_mask = shl (status_code discarded) state_shift

abbrev pub state_clean_mask : ℕ
state_clean_mask = shl (status_code clean) state_shift

abbrev pub state_hot_mask : ℕ
state_hot_mask = shl (status_code hot) state_shift

abbrev pub max_log_records_bits : ℕ
max_log_records_bits = 3

abbrev pub nb_log_records_shift : ℕ
nb_log_records_shift = state_shift - max_log_records_bits

abbrev pub nb_log_records_mask : ℕ
nb_log_records_mask = shl 7 nb_log_records_shift

abbrev pub max_log_id_bits : ℕ
max_log_id_bits = 10

abbrev pub max_log_id : ℕ
max_log_id = shl 1 max_log_id_bits - 1

abbrev pub log_id_shift : ℕ
log_id_shift = nb_log_records_shift - max_log_id_bits

abbrev pub log_id_mask : ℕ
log_id_mask = shl max_log_id log_id_shift

abbrev pub discard_count_bits : ℕ
discard_count_bits = 3

abbrev pub max_discard_count : ℕ
max_discard_count = shl 1 discard_count_bits - 1

abbrev pub discard_count_shift : ℕ
discard_count_shift = log_id_shift - discard_count_bits

abbrev pub discard_count_mask : ℕ
discard_count_mask = shl max_discard_count discard_count_shift

abbrev pub page_lsn_mask : ℕ
page_lsn_mask = shl 1 discard_count_shift - 1

abbrev pub lsn_array_ptr_shift : ℕ
lsn_array_ptr_shift = 3

abbrev pub lsn_array_ptr_mask : ℕ
lsn_array_ptr_mask = page_lsn_mask

abbrev pub bf_ptr_mask : ℕ
bf_ptr_mask = shl 1 log_id_shift - 1

abbrev pub full_lsn_mask : ℕ
full_lsn_mask = bit_or log_id_mask page_lsn_mask

pub fits_in_page_state : ℕ → Bool
fits_in_page_state lsn = bit_and (lsn_offset lsn) (bit_not page_lsn_mask) == 0

pub encode_discard_count : ℕ → ℕ
encode_discard_count discard_count = shl discard_count discard_count_shift

-- The result is a u8.
pub decode_discard_count : ℕ → ℕ
decode_discard_count v = shr (bit_and v discard_count_mask) discard_count_shift % 2 ^ 8

pub encode_lsn_array : ℕ → Result ℕ
encode_lsn_array ptr = do
  ensure (bit_and ptr (shl 1 lsn_array_ptr_shift - 1) == 0)
  ensure (bit_and (shr ptr lsn_array_ptr_shift) (bit_not lsn_array_ptr_mask) == 0)
  ok (shr ptr lsn_array_ptr_shift)

pub decode_lsn_array : ℕ → ℕ
decode_lsn_array v = shl (bit_and v lsn_array_ptr_mask) lsn_array_ptr_shift

-- `in_parent` is FLAGS_discard_lsns_in_parent.
pub holds_lsn_array : Bool → ℕ → Bool
holds_lsn_array in_parent pending_lsn_count = ltb 1 pending_lsn_count && not in_parent

pub is_locked : ℕ → Bool
is_locked raw = not (bit_and raw latch_bit == 0)

-- The cast of the two state bits to the enum.
pub status_of : ℕ → PageStatus
status_of code =
    if code == 0
    then not_sure
    else if code == 1
    then discarded
    else if code == 2
    then clean
    else hot

pub get_state : ℕ → Result PageStatus
get_state raw =
    let state = shr (bit_and raw state_mask) state_shift in
    ensure (ltb state 4) >> ok (status_of state)

abbrev is_status : PageStatus → PageStatus → Bool
is_status s t = status_code s == status_code t

pub is_clean : ℕ → Result Bool
is_clean raw = do s ← get_state raw; ok (is_status s clean)

pub is_discarded : ℕ → Result Bool
is_discarded raw = do s ← get_state raw; ok (is_status s discarded)

pub is_hot : ℕ → Result Bool
is_hot raw = do s ← get_state raw; ok (is_status s hot)

pub is_free : ℕ → Bool
is_free raw = raw == 0

-- `raw.compare_exchange_strong(expected, desired)` at a moment when the word is `raw`.
pub compare_exchange : ℕ → ℕ → ℕ → Option ℕ
compare_exchange raw expected desired = if raw == expected then some desired else none

-- One round of `lock`: `v1` is what it loaded, `raw` the word at the compare-exchange. `none` is a
-- `goto retry`; else the value that `lock` returns and the new word.
pub lock_round : ℕ → ℕ → Option (ℕ × ℕ)
lock_round v1 raw =
    if not (bit_and v1 latch_bit == 0)
    then none
    else elim (compare_exchange raw v1 (bit_or v1 latch_bit)) [
      | none ↦ none
      | some w ↦ some (v1, w)
    ]

-- What `getLocked` reads from the value that `lock` returned: an LSN or the address of the LSN
-- array, and the number of log records.
pub get_locked_fields : Bool → ℕ → ℕ × ℕ
get_locked_fields in_parent v1 =
    let nb_log_records = shr (bit_and v1 nb_log_records_mask) nb_log_records_shift % 2 ^ 8 in
    (
      if holds_lsn_array in_parent nb_log_records
          then decode_lsn_array v1
          else bit_and v1 full_lsn_mask,
      nb_log_records,
    )

-- The test of `tryDiscard` before its compare-exchange.
pub may_discard : ℕ → Bool
may_discard v1 =
    not (not (bit_and v1 latch_bit == 0) || not (bit_and v1 state_hot_mask == state_hot_mask))

-- The word of `tryDiscard` without its last field.
pub discarded_head : ℕ → ℕ → ℕ → ℕ
discarded_head pending_lsn_count log_id discard_count =
    bit_or
      (bit_or (bit_or state_discarded_mask (shl pending_lsn_count nb_log_records_shift))
        (shl log_id log_id_shift))
      (encode_discard_count discard_count)

-- The last field: the offset of the last LSN, or the address of the LSN array. The pending LSNs are
-- an array at the address `pending_lsn` that holds `lsns`.
pub discarded_location : Bool → ℕ → List ℕ → ℕ → ℕ → Result ℕ
discarded_location in_parent pending_lsn lsns pending_lsn_count log_id =
    if in_parent || (pending_lsn_count == 1)
    then elim (get_elem? lsns ((pending_lsn_count + u64_mod - 1) % u64_mod)) [
      | none ↦ fail undefined_behaviour
      | some last_lsn ↦
          ensure (lsn_log_id last_lsn == log_id)
          >> (ensure (fits_in_page_state last_lsn) >> ok (lsn_offset last_lsn))
    ]
    else encode_lsn_array pending_lsn

-- The word that `tryDiscard` stores.
pub discarded_word : Bool → ℕ → List ℕ → ℕ → ℕ → ℕ → Result ℕ
discarded_word in_parent pending_lsn lsns pending_lsn_count log_id discard_count = do
  ensure (ltb log_id max_log_id)
  ensure (leb discard_count max_discard_count)
  location ← discarded_location in_parent pending_lsn lsns pending_lsn_count log_id
  ok (bit_or (discarded_head pending_lsn_count log_id discard_count) location)

-- `tryDiscard`: `v1` is the word it loaded, `raw` the word at the compare-exchange. Nobody else
-- stores while it holds the latch. The result and the word afterwards.
pub try_discard : ℕ → ℕ → Bool → ℕ → List ℕ → ℕ → ℕ → ℕ → Result (Bool × ℕ)
try_discard v1 raw in_parent pending_lsn lsns pending_lsn_count log_id discard_count =
    if not (may_discard v1)
    then ok (false, raw)
    else elim (compare_exchange raw v1 (bit_or v1 latch_bit)) [
      | none ↦ ok (false, raw)
      | some locked ↦ is_hot locked >>= λ h.
          ensure h
          >> (discarded_word in_parent pending_lsn lsns pending_lsn_count log_id discard_count
              >>= λ new_value. ok (true, new_value))
    ]

-- The result is a u32.
pub get_log_id : ℕ → Result ℕ
get_log_id raw = do
  d ← is_discarded raw
  ensure d
  ok (shr (bit_and raw log_id_mask) log_id_shift % 2 ^ 32)

pub get_discard_count : ℕ → Result ℕ
get_discard_count raw =
    ensure (not (bit_and raw state_mask == state_hot_mask)) >> ok (decode_discard_count raw)

-- `skip` is FLAGS_skip_wal_recovery. The word stored does not depend on the word before.
pub unlock_clean : Bool → ℕ → ℕ → ℕ → Result ℕ
unlock_clean skip lsn log_id discard_count =
    (if lsn == non_persisted_lsn then (ensure skip >> ok 0) else ok lsn) >>= λ lsn'.
    ensure (is_regular_lsn lsn')
    >> (ensure (fits_in_page_state lsn')
        >> (ensure (ltb log_id max_log_id)
            >> (ensure (leb discard_count max_discard_count)
                >> ok
                    (bit_or (bit_or lsn' (encode_discard_count discard_count)) state_clean_mask))))

pub unlock_bf : ℕ → Result ℕ
unlock_bf bf = ensure (bit_and bf (bit_not bf_ptr_mask) == 0) >> ok (bit_or bf state_hot_mask)

pub unlock : ℕ → Result ℕ
unlock raw = ensure (is_locked raw) >> ok (bit_and raw latch_mask)

-- `none` is nullptr.
pub get_buffer_frame : ℕ → Option ℕ
get_buffer_frame v =
    if not (bit_and v state_mask == state_hot_mask) then none else some (bit_and v bf_ptr_mask)

pub as_lsn : ℕ → ℕ
as_lsn raw = bit_and raw full_lsn_mask
