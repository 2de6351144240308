-- ===== src/Swip/Tests.antt =====
-- Runs of the transitions, and the theorems at concrete inputs.
use epsilon_db.Base.{ℕ, ◌+◌, ◌*◌, ◌^◌, ◌≡◌, refl, true, false, ok, fail, ensure_failed, arith}
use epsilon_db.Swip.{
  is_cool, is_evicted, is_dirty, as_page_id, ru_epoch, pending_lsn_count, evict_and_mark_dirty,
}
use epsilon_db.Swip.Transitions.{evict_and_mark_dirty_lem}

-- Page 77 in RU epoch 1000 with 3 pending LSNs.
abbrev dirty : ℕ
dirty = (5 * 2 ^ 29 + 3 * 2 ^ 26 + 1000) * 2 ^ 32 + 77

-- The low 32 bits of the PID are stored, the others are not looked at.
large_pid : evict_and_mark_dirty (2 ^ 32 + 77) 1000 3 ≡ ok dirty
unfolding evict_and_mark_dirty
large_pid = refl

too_many : evict_and_mark_dirty 77 1000 8 ≡ fail ensure_failed
unfolding evict_and_mark_dirty
too_many = refl

evict_and_mark_dirty_lem_example :
    (is_evicted dirty ≡ true)
    × (is_dirty dirty ≡ true)
    × (is_cool dirty ≡ false)
    × (as_page_id dirty ≡ 77)
    × (ru_epoch dirty ≡ 1000)
    × (pending_lsn_count dirty ≡ 3)
evict_and_mark_dirty_lem_example =
    evict_and_mark_dirty_lem (2 ^ 32 + 77) 1000 3 dirty (omega arith) large_pid
