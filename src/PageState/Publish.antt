-- ===== src/PageState/Publish.antt =====
-- `lock`, `unlock`, `unlockClean` and `unlockBF` of PageState.hpp against the readings of the word.
use epsilon_db.Base.{
  ℕ, ◌+◌, ◌*◌, ◌/◌, ◌%◌, ◌^◌, ◌<◌, ◌≡◌, ◌≢◌, ◌⊎◌, Bool, true, false, arith, ok, some, none,
  if◌then◌else◌, ◌==◌, ap, sym, ◌∙◌,
}
use Prim.Native.Nat.{bit_and, bit_or}
use epsilon_db.Bits.{bit_or_fields'}
use epsilon_db.Units.{lsn_offset, lsn_offset_lem, is_regular_lsn_lem, non_persisted_lsn}
use epsilon_db.PageState.{
  clean, hot, fits_in_page_state, encode_discard_count, is_locked, get_state, get_discard_count,
  get_locked_fields, as_lsn, get_buffer_frame, may_discard, unlock_clean, unlock_bf, unlock,
  lock_round, compare_exchange, status_of, state_clean_mask, latch_bit, state_mask, bf_ptr_mask,
  holds_lsn_array,
}
use epsilon_db.PageState.Fields.{
  bit_or_clean, bit_and-not_page_lsn_mask, bit_and-not_bf_ptr_mask, bit_and-bf_ptr_mask,
  bit_and-state_mask, bit_and-latch_bit, bit_or-latch_bit, bit_and-latch_mask,
}
use epsilon_db.PageState.Word.{
  word, InRange, is_locked-word, get_state-word, get_discard_count-word, get_locked_fields-word,
  as_lsn-word,
}

-- The LSN that `unlockClean` stores.
abbrev pub clean_lsn : ℕ → ℕ
clean_lsn lsn = if lsn == non_persisted_lsn then 0 else lsn

unlock_clean-eq-ok :
    (skip : Bool) (lsn log_id dc w : ℕ)
    → lsn < 2 ^ 64
    → unlock_clean skip lsn log_id dc ≡ ok w
    → (clean_lsn lsn ≡ clean_lsn lsn / 2 ^ 48 * 2 ^ 48 + clean_lsn lsn % 2 ^ 45)
      × InRange 2 0 (clean_lsn lsn / 2 ^ 48) dc (clean_lsn lsn % 2 ^ 45)
      × (w ≡ bit_or (bit_or (clean_lsn lsn) (dc * 2 ^ 45)) state_clean_mask)
unfolding unlock_clean fits_in_page_state encode_discard_count
unlock_clean-eq-ok skip lsn log_id dc w h e = ground (
  arith,
  is_regular_lsn_lem (clean_lsn lsn),
  bit_and-not_page_lsn_mask (lsn_offset (clean_lsn lsn)),
  lsn_offset_lem (clean_lsn lsn),
)

-- What `unlockClean` stores is unlatched and CLEAN, and gives back the LSN, the discard count
-- and no pending log record; for NON_PERSISTED_LSN the LSN is 0.
pub unlock_clean_round_trip :
    (skip in_parent : Bool) (lsn log_id dc w : ℕ)
    → lsn < 2 ^ 64
    → unlock_clean skip lsn log_id dc ≡ ok w
    → (is_locked w ≡ false)
      × (get_state w ≡ ok clean)
      × (as_lsn w ≡ clean_lsn lsn)
      × (get_discard_count w ≡ ok dc)
      × (get_locked_fields in_parent w ≡ (clean_lsn lsn, 0))
unfolding status_of holds_lsn_array
unlock_clean_round_trip skip in_parent lsn log_id dc w h e =
    let (split, r, whole) = unlock_clean-eq-ok skip lsn log_id dc w h e in
    let l : ℕ = clean_lsn lsn / 2 ^ 48 in
    let x : ℕ = clean_lsn lsn % 2 ^ 45 in
    let v : w ≡ word 2 0 l dc x = ground (
      arith,
      whole,
      ap (λ (t : ℕ). bit_or (bit_or t (dc * 2 ^ 45)) state_clean_mask) split,
      bit_or_clean l dc x r.log_id r.count r.offset,
    ) in
    rw v (
      is_locked-word 2 0 l dc x r,
      get_state-word 2 0 l dc x r,
      as_lsn-word 2 0 l dc x r ∙ sym split,
      get_discard_count-word 2 0 l dc x r (omega arith),
      get_locked_fields-word 2 0 l dc x r in_parent ∙ ap (λ (t : ℕ). (t, 0)) (sym split),
    )

-- What `unlockBF` stores is unlatched and HOT, gives back the frame, and may be discarded.
pub unlock_bf_round_trip :
    (bf w : ℕ)
    → bf < 2 ^ 64
    → unlock_bf bf ≡ ok w
    → (is_locked w ≡ false)
      × (get_state w ≡ ok hot)
      × (get_buffer_frame w ≡ some bf)
      × (may_discard w ≡ true)
unfolding unlock_bf status_of get_buffer_frame is_locked get_state may_discard
unlock_bf_round_trip bf w h e =
    let small : bf < 2 ^ 48 = ground (arith, bit_and-not_bf_ptr_mask bf) in
    let v : w ≡ 3 * 2 ^ 61 + bf = ground (arith, bit_or_fields' 61 3 bf (omega arith)) in
    let u : ℕ = 3 * 2 ^ 61 + bf in
    let latch : bit_and u latch_bit ≡ 0 = omega (arith, bit_and-latch_bit u) in
    let state : bit_and u state_mask ≡ 3 * 2 ^ 61 = omega (arith, bit_and-state_mask u) in
    let frame : bit_and u bf_ptr_mask ≡ bf = omega (arith, bit_and-bf_ptr_mask u) in
    rw v (rw latch, rw state, ground (arith, state, frame), ground (arith, latch, state))

-- A round of `lock` succeeds exactly when it loaded an unlatched word that is still there at the
-- compare-exchange; it returns that word, and latches it without changing its state, and `unlock`
-- then brings the word back.
pub unlock-lock_round :
    (v1 raw : ℕ)
    → v1 < 2 ^ 64
    → raw < 2 ^ 64
    → ((lock_round v1 raw ≡ none) × ((is_locked v1 ≡ true) ⊎ (v1 ≢ raw)))
      ⊎ ((is_locked raw ≡ false)
          × (lock_round v1 raw ≡ some (raw, 2 ^ 63 + raw))
          × (is_locked (2 ^ 63 + raw) ≡ true)
          × (get_state (2 ^ 63 + raw) ≡ get_state raw)
          × (unlock (2 ^ 63 + raw) ≡ ok raw))
unfolding lock_round compare_exchange is_locked unlock get_state
unlock-lock_round v1 raw h k = ground (
  arith,
  bit_and-latch_bit v1,
  bit_and-latch_bit (2 ^ 63 + raw),
  bit_or-latch_bit v1,
  bit_and-latch_mask (2 ^ 63 + raw),
  bit_and-state_mask raw,
  bit_and-state_mask (2 ^ 63 + raw),
)

pub unlock_clean-lt :
    (skip : Bool) (lsn log_id dc w : ℕ)
    → lsn < 2 ^ 64
    → unlock_clean skip lsn log_id dc ≡ ok w
    → w < 2 ^ 63
unlock_clean-lt skip lsn log_id dc w h e =
    let (split, r, whole) = unlock_clean-eq-ok skip lsn log_id dc w h e in
    let l : ℕ = clean_lsn lsn / 2 ^ 48 in
    let x : ℕ = clean_lsn lsn % 2 ^ 45 in
    ground (
      arith,
      whole,
      ap (λ (t : ℕ). bit_or (bit_or t (dc * 2 ^ 45)) state_clean_mask) split,
      bit_or_clean l dc x r.log_id r.count r.offset,
    )

pub unlock_bf-lt : (bf w : ℕ) → bf < 2 ^ 64 → unlock_bf bf ≡ ok w → w < 2 ^ 63
unfolding unlock_bf
unlock_bf-lt bf w h e = ground (arith, bit_and-not_bf_ptr_mask bf, bit_or_fields' 61 3 bf)
