-- ===== src/RuEpoch/Tests.antt =====
-- A ring of two sets, and the elements of a state with ten RU epochs.
use epsilon_db.Base.{
  ℕ, ◌+◌, ◌-◌, ◌^◌, ◌%◌, ◌≤◌, ◌<◌, ◌≡◌, ◌≢◌, ◌⊎◌, refl, arith, true, false, ok, fail, List, [], ◌∷◌,
  none, some, ensure_failed, waiting,
}
use epsilon_db.Align.{up_align, down_align}
use epsilon_db.RuEpoch.{
  DiscardSet, is_none, open_set, clear, clear_gc_state, reset, reset_without_gc, after_log_reclaim,
  reclaim_unit_usage, at, at_exact, put_at, is_epoch, chain_heads_offset, size_for,
  block_total_offset, total_offset, chain_head_offset, chain_head_block_offset,
}
use epsilon_db.RuEpoch.Persistent.{total_of, chain_head_of, offset_of, offset_of_lem}
use epsilon_db.RuEpoch.Ring.{open_set-at_exact}

abbrev closed_set : DiscardSet
closed_set = record {
  ruh = 0;
  log_segment_start = none;
  log_segment_size = none;
  log_reclaimed = false;
  lba_chain_entries = [];
  lba_chain_blocks = [];
  offset_batch = 0;
  inserted = 0;
  deleted = 0;
  is_currently_being_garbage_collected = false;
  total = 0;
  invalid = 0;
  block_inserted = 0;
  block_deleted = 0;
  block_total = 0;
  block_invalid = 0;
  done_gc = 2;
  cur_ru_epoch = none;
  active = false;
}

abbrev two : List DiscardSet
two = closed_set ∷ closed_set ∷ []

abbrev opened : DiscardSet
opened = record closed_set { cur_ru_epoch = some 5; active = true }

open_runs : (at two 5 ≡ ok closed_set) × (open_set true 5 closed_set ≡ ok opened)
unfolding at open_set is_none
open_runs = (refl, refl)

open_set-at_exact_example :
    (at_exact (put_at two 5 opened) 5 ≡ ok opened)
    × ((f : ℕ) → f % 2 ≡ 1 → f ≢ 5 → at_exact (put_at two 5 opened) f ≡ fail ensure_failed)
    × ((f : ℕ) → f % 2 ≢ 1 → at_exact (put_at two 5 opened) f ≡ at_exact two f)
    × ((s'' : DiscardSet)
        → reset true 2 opened ≡ ok s''
        → ((f : ℕ)
            → f % 2 ≡ 1
            → f < 2 ^ 64 - 1
            → at_exact (put_at two 5 s'') f ≡ fail ensure_failed)
          × (s''.active ≡ false)
          × (s''.total ≡ 0)
          × (open_set true 7 s'' ≡ ok (record s'' { cur_ru_epoch = some 7; active = true })))
open_set-at_exact_example =
    open_set-at_exact true 2 5 two closed_set opened (omega arith) open_runs.0 open_runs.1

-- A set whose RU epoch was garbage collected, and one whose log was reclaimed first.
abbrev collected : DiscardSet
collected = record opened { total = 40; invalid = 30; inserted = 12; deleted = 2; done_gc = 0 }

lifecycle_runs :
    (open_set true 7 opened ≡ fail waiting)
    × (reset true 2 collected ≡ ok closed_set)
    × (reset true 2 opened ≡ fail ensure_failed)
    × (reset_without_gc true 2 (record opened { ruh = 1 }) ≡ ok (record closed_set { ruh = 1 }))
    × (reset_without_gc true 2 opened ≡ fail ensure_failed)
    × (after_log_reclaim 2 (record collected { log_reclaimed = true })
        ≡ ok (record collected { log_reclaimed = true; done_gc = 2 }))
    × (reclaim_unit_usage collected ≡ 40)
unfolding open_set is_none reset reset_without_gc after_log_reclaim clear clear_gc_state
    reclaim_unit_usage
lifecycle_runs = (refl, refl, refl, refl, refl, refl, refl)

ring_runs :
    (at_exact (put_at two 5 opened) 5 ≡ ok opened)
    × (at_exact (put_at two 5 opened) 7 ≡ fail ensure_failed)
    × (at_exact two (2 ^ 64 - 1) ≡ ok closed_set)
unfolding at_exact at put_at is_epoch
ring_runs = (refl, refl, refl)

offset_of_lem_example :
    (x y : ℕ) × (offset_of 10 (total_of 1 3) ≡ ok x)
    × (offset_of 10 (chain_head_of 9) ≡ ok y)
    × (x + 4 ≤ size_for 10 true)
    × ((total_of 1 3 ≡ chain_head_of 9) ⊎ (x + 4 ≤ y) ⊎ (y + 8 ≤ x))
offset_of_lem_example =
    offset_of_lem 10 (total_of 1 3) (chain_head_of 9) (omega arith) (omega arith, omega arith)
      (omega arith)

offsets_run :
    (size_for 10 true ≡ 4416)
    × (block_total_offset 10 1 3 ≡ ok 132)
    × (total_offset 10 1 3 ≡ ok 252)
    × (total_offset 10 1 10 ≡ fail ensure_failed)
    × (chain_head_offset true 10 19 ≡ ok 4408)
    × (chain_head_block_offset 10 19 ≡ 4096)
    × (down_align 5000 4096 ≡ 4096)
unfolding size_for block_total_offset total_offset chain_head_offset chain_head_block_offset
    chain_heads_offset up_align down_align
offsets_run = (refl, refl, refl, refl, refl, refl, refl)
