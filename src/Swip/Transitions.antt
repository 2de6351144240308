-- ===== src/Swip/Transitions.antt =====
-- What the transitions of a swip leave in its word.
use Prim.Native.Nat.{bit_and, bit_or}
use epsilon_db.Base.{
  ℕ, ◌+◌, ◌-◌, ◌*◌, ◌/◌, ◌%◌, ◌^◌, ◌<◌, ◌≤◌, ◌≡◌, true, false, ok, arith, ap, ◌∙◌,
}
use epsilon_db.Bits.{bit_and_low, bit_and_field, bit_and_fields, bit_or_fields'}
use epsilon_db.Swip.{
  evicted_bit, cool_bit, dirty_bit, pending_lsn_count_mask, is_hot, is_cool, is_evicted, is_dirty,
  as_page_id, as_buffer_frame_masked, ru_epoch, pending_lsn_count, warm, cool, evict,
  evict_and_mark_dirty,
}

-- The word of an evicted swip: status, count, RU epoch and page id.
abbrev evicted_word : ℕ → ℕ → ℕ → ℕ → ℕ
evicted_word status count epoch id = (status * 2 ^ 29 + count * 2 ^ 26 + epoch) * 2 ^ 32 + id

evicted_word-fields :
    (status count epoch id : ℕ)
    → status < 8
    → count < 8
    → epoch < 2 ^ 26
    → id < 2 ^ 32
    → (as_page_id (evicted_word status count epoch id) ≡ id)
      × (bit_and (evicted_word status count epoch id) evicted_bit ≡ status / 4 * 2 ^ 63)
      × (bit_and (evicted_word status count epoch id) cool_bit ≡ status / 2 % 2 * 2 ^ 62)
      × (bit_and (evicted_word status count epoch id) dirty_bit ≡ status % 2 * 2 ^ 61)
      × (ru_epoch (evicted_word status count epoch id) ≡ epoch)
      × (bit_and (evicted_word status count epoch id / 2 ^ 32) pending_lsn_count_mask
          ≡ count * 2 ^ 26)
unfolding ru_epoch
evicted_word-fields status count epoch id hs hc he hi =
    let w : ℕ = evicted_word status count epoch id in
    (
      omega arith,
      omega (arith, bit_and_field 63 1 w),
      omega (arith, bit_and_field 62 1 w),
      omega (arith, bit_and_field 61 1 w),
      omega (arith, bit_and_low 26 (w / 2 ^ 32)),
      omega (arith, bit_and_field 26 3 (w / 2 ^ 32)),
    )

-- The checks of `evictAndMarkDirty`, and the word that it stores.
evict_and_mark_dirty-eq-ok :
    (pid epoch count w : ℕ)
    → epoch < 2 ^ 64
    → evict_and_mark_dirty pid epoch count ≡ ok w
    → (epoch < 2 ^ 26) × (count ≤ 7) × (w ≡ evicted_word 5 count epoch (pid % 2 ^ 32))
unfolding evict_and_mark_dirty
evict_and_mark_dirty-eq-ok pid epoch count w small h =
    let fits : epoch < 2 ^ 26 = ground (arith, bit_and_field 26 38 epoch) in
    let few : count ≤ 7 = ground arith in
    let shifted : (count * 2 ^ 26) % 2 ^ 32 ≡ count * 2 ^ 26 = omega arith in
    let counted : bit_or epoch ((count * 2 ^ 26) % 2 ^ 32) ≡ count * 2 ^ 26 + epoch =
      ap (bit_or epoch) shifted ∙ bit_or_fields' 26 count epoch fits in
    let marked : bit_or (bit_or epoch ((count * 2 ^ 26) % 2 ^ 32)) 0xA0000000
        ≡ 5 * 2 ^ 29 + (count * 2 ^ 26 + epoch) =
      ap (λ (t : ℕ). bit_or t 0xA0000000) counted
      ∙ bit_or_fields' 29 5 (count * 2 ^ 26 + epoch) (omega arith) in
    (fits, few, ground (arith, marked))

-- When `evictAndMarkDirty` succeeds, the swip is evicted and dirty, not cooling, and gives back
-- the RU epoch, the number of LSNs and the PID's low 32 bits.
pub evict_and_mark_dirty_lem :
    (pid epoch count w : ℕ)
    → epoch < 2 ^ 64
    → evict_and_mark_dirty pid epoch count ≡ ok w
    → (is_evicted w ≡ true)
      × (is_dirty w ≡ true)
      × (is_cool w ≡ false)
      × (as_page_id w ≡ pid % 2 ^ 32)
      × (ru_epoch w ≡ epoch)
      × (pending_lsn_count w ≡ count)
unfolding evict_and_mark_dirty is_evicted is_dirty is_cool pending_lsn_count
evict_and_mark_dirty_lem pid epoch count w small h =
    let (fits, few, v) = evict_and_mark_dirty-eq-ok pid epoch count w small h in
    let (id, ev, co, di, ep, pe) =
      evicted_word-fields 5 count epoch (pid % 2 ^ 32) (omega arith) (omega arith) fits
        (omega arith) in
    rw v
      (ground (arith, ev), ground (arith, di), ground (arith, co), id, ep, ground (arith, ev, pe))

-- `evict` refuses no PID and leaves the swip evicted and clean, not cooling, with the RU epoch
-- 0, without pending LSNs, and with the PID's low 32 bits.
pub evict_lem :
    (pid : ℕ)
    → (w : ℕ) × (evict pid ≡ ok w)
      × (is_evicted w ≡ true)
      × (is_dirty w ≡ false)
      × (is_cool w ≡ false)
      × (as_page_id w ≡ pid % 2 ^ 32)
      × (ru_epoch w ≡ 0)
      × (pending_lsn_count w ≡ 0)
unfolding evict is_evicted is_dirty is_cool pending_lsn_count
evict_lem pid =
    let (id, ev, co, di, ep, pe) =
      evicted_word-fields 4 0 0 (pid % 2 ^ 32) (omega arith) (omega arith) (omega arith)
        (omega arith) in
    (
      evicted_word 4 0 0 (pid % 2 ^ 32),
      ground (arith, bit_and_low 0 pid),
      ground (arith, ev),
      ground (arith, di),
      ground (arith, co),
      id,
      ep,
      ground (arith, ev, pe),
    )

-- A hot swip of a frame below 2 ^ 62, cooled, is cooling and no longer hot, keeps the address of
-- the frame, and warming it brings the swip back.
pub warm-cool :
    (bf : ℕ)
    → bf < 2 ^ 62
    → (is_hot bf ≡ true)
      × (is_hot (cool bf) ≡ false)
      × (is_cool (cool bf) ≡ true)
      × (is_evicted (cool bf) ≡ false)
      × (as_buffer_frame_masked (cool bf) ≡ bf)
      × (warm (cool bf) ≡ bf)
unfolding is_hot cool is_cool is_evicted as_buffer_frame_masked warm
warm-cool bf h =
    let e : bit_or bf cool_bit ≡ 2 ^ 62 + bf = bit_or_fields' 62 1 bf h in
    let w : ℕ = 2 ^ 62 + bf in
    rw e (
      ground (arith, bit_and_field 62 2 bf),
      ground (arith, bit_and_field 62 2 w),
      ground (arith, bit_and_field 62 1 w),
      ground (arith, bit_and_field 63 1 w),
      ground (arith, bit_and_low 62 w),
      omega (arith, bit_and_fields 62 1 bf 2 (2 ^ 62 - 1) h (omega arith), bit_and_low 62 bf),
    )
