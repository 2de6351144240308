-- ===== src/PageState/Word.antt =====
-- What the readings of a page state give on an unlatched word of five fields.
use epsilon_db.Base.{
  ℕ, ◌+◌, ◌*◌, ◌%◌, ◌^◌, ◌<◌, ◌≡◌, ◌≢◌, Bool, false, arith, ok, if◌then◌else◌, ◌==◌,
}
use Prim.Native.Nat.{bit_and}
use epsilon_db.Bits.{shr}
use epsilon_db.PageState.{
  status_of, decode_lsn_array, decode_discard_count, holds_lsn_array, is_locked, get_state,
  get_log_id, get_discard_count, get_locked_fields, as_lsn, may_discard, is_discarded, is_clean,
  is_hot, latch_bit, state_mask, nb_log_records_mask, nb_log_records_shift, log_id_mask,
  log_id_shift,
}
use epsilon_db.PageState.Fields.{
  bit_and-latch_bit, bit_and-state_mask, bit_and-nb_log_records_mask, bit_and-log_id_mask,
  bit_and-discard_count_mask, bit_and-page_lsn_mask, bit_and-full_lsn_mask,
}

-- State, number of log records, log id, discard count, offset.
abbrev pub word : ℕ → ℕ → ℕ → ℕ → ℕ → ℕ
word s n l d x = s * 2 ^ 61 + n * 2 ^ 58 + l * 2 ^ 48 + d * 2 ^ 45 + x

pub record InRange (s n l d x : ℕ) : Type 0 where
  pub state : s < 4
  pub records : n < 8
  pub log_id : l < 1024
  pub count : d < 8
  pub offset : x < 2 ^ 45

module _ (s n l d x : ℕ) (r : InRange s n l d x) where
  latch_field : bit_and (word s n l d x) latch_bit ≡ 0
  latch_field = omega (arith, bit_and-latch_bit (word s n l d x))

  state_field : bit_and (word s n l d x) state_mask ≡ s * 2 ^ 61
  state_field = omega (arith, bit_and-state_mask (word s n l d x))

  records_field :
      shr (bit_and (word s n l d x) nb_log_records_mask) nb_log_records_shift % 2 ^ 8 ≡ n
  records_field = omega (arith, bit_and-nb_log_records_mask (word s n l d x))

  log_id_field : shr (bit_and (word s n l d x) log_id_mask) log_id_shift % 2 ^ 32 ≡ l
  log_id_field = omega (arith, bit_and-log_id_mask (word s n l d x))

  pub is_locked-word : is_locked (word s n l d x) ≡ false
  unfolding is_locked
  is_locked-word = rw latch_field

  pub get_state-word : get_state (word s n l d x) ≡ ok (status_of s)
  unfolding get_state
  get_state-word = ground (arith, state_field)

  pub is_status-word :
      (is_discarded (word s n l d x) ≡ ok (s == 1))
      × (is_clean (word s n l d x) ≡ ok (s == 2))
      × (is_hot (word s n l d x) ≡ ok (s == 3))
  unfolding is_discarded is_clean is_hot status_of
  is_status-word = rw get_state-word (ground arith, ground arith, ground arith)

  pub decode_discard_count-word : decode_discard_count (word s n l d x) ≡ d
  unfolding decode_discard_count
  decode_discard_count-word = omega (arith, bit_and-discard_count_mask (word s n l d x))

  pub decode_lsn_array-word : decode_lsn_array (word s n l d x) ≡ x * 8
  unfolding decode_lsn_array
  decode_lsn_array-word = omega (arith, bit_and-page_lsn_mask (word s n l d x))

  pub as_lsn-word : as_lsn (word s n l d x) ≡ l * 2 ^ 48 + x
  unfolding as_lsn
  as_lsn-word = omega (arith, bit_and-full_lsn_mask (word s n l d x))

  pub get_locked_fields-word :
      (in_parent : Bool)
      → get_locked_fields in_parent (word s n l d x)
        ≡ ((if holds_lsn_array in_parent n then x * 8 else (l * 2 ^ 48 + x)), n)
  unfolding get_locked_fields as_lsn
  get_locked_fields-word in_parent = rw (records_field, decode_lsn_array-word, as_lsn-word)

  pub get_discard_count-word : s ≢ 3 → get_discard_count (word s n l d x) ≡ ok d
  unfolding get_discard_count
  get_discard_count-word h = ground (arith, state_field, decode_discard_count-word)

  pub get_log_id-word : s ≡ 1 → get_log_id (word s n l d x) ≡ ok l
  unfolding get_log_id
  get_log_id-word h = rw (is_status-word.0, log_id_field, h)

  pub may_discard-word : may_discard (word s n l d x) ≡ (s == 3)
  unfolding may_discard
  may_discard-word = ground (arith, latch_field, state_field)
