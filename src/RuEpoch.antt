-- ===== src/RuEpoch.antt =====
-- storage/buffer-manager/RUEpochDiscardSet.{hpp,cpp}: the accounting of an RU epoch, the ring of
-- these sets of one RUH, and where the persistent RU state holds its counters. Counters of s32
-- are integers of that width in two's complement; -1 as an RU epoch is `none`, and as the
-- segment of a set too. FLAGS_enable_discarding and FLAGS_ru_gc_threads are arguments. The
-- statistics (total_fixed, total_clean_copied, the causes) and the mutex are left out.
pub mod Persistent
pub mod Ring
pub mod Tests
use epsilon_db.Base.{
  ℕ, ◌+◌, ◌-◌, ◌*◌, ◌/◌, ◌%◌, ◌^◌, ◌==◌, Bool, true, false, not, ◌&&◌, ◌||◌, Option, none, some,
  List, [], Result, ok, fail, ◌>>=◌, ◌>>◌, ensure, waiting, undefined_behaviour, if◌then◌else◌, ltb,
  get_elem?, set, length,
}
use epsilon_db.Align.{up_align}

abbrev pub default_ruh : ℕ
default_ruh = 0

-- RUEpochDiscardSet.
pub record DiscardSet : Type 0 where
  pub ruh : ℕ
  pub log_segment_start : Option ℕ
  pub log_segment_size : Option ℕ
  pub log_reclaimed : Bool
  pub lba_chain_entries : List ℕ
  pub lba_chain_blocks : List (ℕ × ℕ)
  pub offset_batch : ℕ
  pub inserted : ℕ
  pub deleted : ℕ
  pub is_currently_being_garbage_collected : Bool
  pub total : ℕ
  pub invalid : ℕ
  pub block_inserted : ℕ
  pub block_deleted : ℕ
  pub block_total : ℕ
  pub block_invalid : ℕ
  pub done_gc : ℕ
  pub cur_ru_epoch : Option ℕ
  pub active : Bool

unfoldable pub is_none : Option ℕ → Bool
is_none none = true
is_none (some x) = false

-- `open`: with discarding it waits for the set to become inactive.
unfoldable pub open_set : Bool → ℕ → DiscardSet → Result DiscardSet
open_set enable_discarding new_ru_epoch s =
    if enable_discarding && s.active
    then fail waiting
    else (ensure (not enable_discarding || is_none s.cur_ru_epoch)
        >> ok (record s { cur_ru_epoch = some new_ru_epoch; active = true }))

unfoldable pub clear_gc_state : ℕ → DiscardSet → DiscardSet
clear_gc_state gc_threads s = record s {
  offset_batch = 0;
  lba_chain_entries = [];
  lba_chain_blocks = [];
  is_currently_being_garbage_collected = false;
  log_segment_start = none;
  log_segment_size = none;
  done_gc = gc_threads;
}

unfoldable pub clear : ℕ → DiscardSet → DiscardSet
clear gc_threads s =
    record (clear_gc_state gc_threads (record s {
      inserted = 0;
      deleted = 0;
      total = 0;
      invalid = 0;
      block_inserted = 0;
      block_deleted = 0;
      block_total = 0;
      block_invalid = 0;
      log_reclaimed = false;
    })) { cur_ru_epoch = none; active = false }

unfoldable pub reset : Bool → ℕ → DiscardSet → Result DiscardSet
reset enable_discarding gc_threads s =
    ensure (enable_discarding || s.is_currently_being_garbage_collected)
    >> (ensure (s.done_gc == 0) >> ok (clear gc_threads s))

unfoldable pub reset_without_gc : Bool → ℕ → DiscardSet → Result DiscardSet
reset_without_gc enable_discarding gc_threads s =
    ensure enable_discarding
    >> (ensure (not (s.ruh == default_ruh))
        >> (ensure (s.done_gc == gc_threads) >> ok (clear gc_threads s)))

unfoldable pub after_log_reclaim : ℕ → DiscardSet → Result DiscardSet
after_log_reclaim gc_threads s =
    ensure s.log_reclaimed >> (ensure (s.done_gc == 0) >> ok (clear_gc_state gc_threads s))

-- ReclaimUnitUsage: sums of s32, returned as u32.
unfoldable pub reclaim_unit_usage : DiscardSet → ℕ
reclaim_unit_usage s = (s.invalid + (s.inserted + 2 ^ 32 - s.deleted % 2 ^ 32)) % 2 ^ 32

-- RUEpochsState: `size` sets. An index into no set is undefined.
unfoldable pub at : List DiscardSet → ℕ → Result DiscardSet
at sets index = elim (length sets == 0) [
  | true ↦ fail undefined_behaviour
  | false ↦ elim (get_elem? sets (index % length sets)) [
    | none ↦ fail undefined_behaviour
    | some s ↦ ok s
  ]
]

unfoldable pub is_epoch : Option ℕ → ℕ → Bool
is_epoch none index = index == 2 ^ 64 - 1
is_epoch (some e) index = e == index

-- operator[], exact.
unfoldable pub at_exact : List DiscardSet → ℕ → Result DiscardSet
at_exact sets index = do s ← at sets index; ensure (is_epoch s.cur_ru_epoch index) >> ok s

-- `at` on the left of an assignment.
unfoldable pub put_at : List DiscardSet → ℕ → DiscardSet → List DiscardSet
put_at sets index s = set sets (index % length sets) s

-- PersistantRUState: sizeof(PersistantRUState), MAX_RUHS, and the bytes in front of `totals`.
abbrev pub state_bytes : ℕ
state_bytes = 4096

abbrev pub max_ruhs : ℕ
max_ruhs = 3

abbrev pub totals_offset : ℕ
totals_offset = 8 + 3 * max_ruhs * 8

unfoldable pub chain_heads_offset : ℕ → ℕ
chain_heads_offset max_open_ru_epochs =
    up_align ((state_bytes + 2 * max_open_ru_epochs * max_ruhs * 4) % 2 ^ 64) 8

unfoldable pub size_for : ℕ → Bool → ℕ
size_for max_open_ru_epochs with_lba_chain_heads =
    let size = chain_heads_offset max_open_ru_epochs in
    if with_lba_chain_heads then (size + max_open_ru_epochs * 8) % 2 ^ 64 else size

-- The byte offset of the element that blockTotal, total and chainHead return.
unfoldable pub block_total_offset : ℕ → ℕ → ℕ → Result ℕ
block_total_offset max_open_ru_epochs ruh i =
    ensure (ltb i max_open_ru_epochs) >> ok (totals_offset + (ruh * max_open_ru_epochs + i) * 4)

unfoldable pub total_offset : ℕ → ℕ → ℕ → Result ℕ
total_offset max_open_ru_epochs ruh i =
    ensure (ltb i max_open_ru_epochs)
    >> ok (totals_offset + ((max_ruhs + ruh) * max_open_ru_epochs + i) * 4)

unfoldable pub chain_head_offset : Bool → ℕ → ℕ → Result ℕ
chain_head_offset with_lba_chain_heads max_open_ru_epochs ru_epoch =
    ensure with_lba_chain_heads
    >> ok (chain_heads_offset max_open_ru_epochs + ru_epoch % max_open_ru_epochs * 8)

unfoldable pub chain_head_block_offset : ℕ → ℕ → ℕ
chain_head_block_offset max_open_ru_epochs ru_epoch =
    let offset = chain_heads_offset max_open_ru_epochs + ru_epoch % max_open_ru_epochs * 8 in
    offset - offset % 4096
