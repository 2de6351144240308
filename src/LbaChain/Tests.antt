-- ===== src/LbaChain/Tests.antt =====
-- Runs of the chain, and the theorems at concrete inputs.
use epsilon_db.Base.{
  ℕ, ◌+◌, ◌*◌, ◌%◌, ◌^◌, ◌<◌, ◌≤◌, ◌≡◌, ◌≢◌, ◌⊎◌, refl, true, false, none, some, List, [], ◌∷◌,
  ◌++◌, ◌==◌, if◌then◌else◌, length, take, replicate, ok, fail, out_of_space, ensure_failed, Result,
  arith, ◌>>=◌, ℕ_discrete,
}
use epsilon_db.Units.{invalid_pid}
use epsilon_db.CompressedSpace.{Space, raw_block_location, init, free}
use epsilon_db.CompressedSpace as CompressedSpace
use epsilon_db.CompressedSpace.Invariant.{Inv}
use epsilon_db.CompressedSpace.Ledger.{Balanced}
use epsilon_db.CompressedSpace.Tests.{used, used-Inv, used-Balanced, first, second}
use epsilon_db.LbaChain.{
  ChainBlock, Control, Chain, Outcome, returns, retries, activates, waits, magic, capacity, closed,
  make_word, word_seq, word_count, control, block, record_round, record_pid, activate_next,
  count_block_write, sealed_block_of, written, write_block, recycle_slot, seal, close_round,
  close_active_block, open_epoch, seal_closed, seal_closed_blocks, filled_up, persist_head,
  persist_heads, persist_dirty_heads, read_chain, recycle_block, fill_entry, activated,
  marked_closed,
}
use epsilon_db.LbaChain as LbaChain
use epsilon_db.LbaChain.Disk.{Linked, Kept, listing, places, seal-read_chain}
use epsilon_db.LbaChain.Filling.{Filled, record_pids}
use epsilon_db.LbaChain.Closing.{record_rounds, Waited, record_rounds-marked_closed}
use epsilon_db.LbaChain.History.{read_chain-record_all}

abbrev blank : ChainBlock
blank = record {
  magic_number = 0;
  pid = 0;
  prev = 0;
  ru_epoch = 6;
  written_ru_epoch = 0;
  count = 0;
  pad = 0;
  entries = replicate capacity 0;
}

-- A ring of four blocks, no chain on the device, RU epoch 6 open.
abbrev fresh : Chain
fresh = record {
  n_blocks = 4;
  open_ru_epoch = 6;
  controls = λ slot. record { word = slot * 2 ^ 32; filled = 0; reserved = 0 };
  blocks = λ _. blank;
  active_seq = 0;
  sealed_seq = 0;
  dirty_heads = [];
  space = used;
  disk = λ _. blank;
  max_open_ru_epochs = 10;
  heads = λ _. invalid_pid;
  persisted_heads = λ _. invalid_pid;
  current_ru_epoch = 6;
  reclaimed_end = 2;
  sets_count = 10;
  set_ru_epochs = λ i. i;
  block_total = λ _. 0;
  block_invalid = λ _. 0;
}

-- Its first block has two entries and is closed.
abbrev two_recorded : Chain
two_recorded = record fresh {
  controls = λ slot.
      if slot == 0
      then record { word = closed + 2; filled = 2; reserved = 2 }
      else record { word = slot * 2 ^ 32; filled = 0; reserved = 0 };
  active_seq = 1;
}

fresh-Filled : Filled fresh 0
unfolding control block
fresh-Filled = record { reserved = refl; filled = refl; memory = refl }

-- A writer that reserves just past the end activates the next block, one past the mark of the
-- closer waits.
full_block :
    ((record_round
        (record fresh { controls = λ slot. record { word = 506; filled = 0; reserved = 0 } })
        7
        0).0
      ≡ activates)
    × ((record_round two_recorded 7 0).0 ≡ waits)
unfolding record_round word_count control block
full_block = (refl, refl)

read_chain-record_all_example :
    (t u : Chain) × (record_pids fresh (7 ∷ 9 ∷ []) ≡ ok (returns 6 ∷ returns 6 ∷ [], t))
    × (close_active_block t 7 ≡ ok (some u))
    × (filled_up u 0 ≡ true)
    × ((seal u 0 ≡ fail out_of_space)
        ⊎ ((pid : ℕ) × (w : Chain) × (seal u 0 ≡ ok (true, w))
            × ((n : ℕ)
                → 0 + 1 < n
                → read_chain n w.disk (w.heads (6 % 10)) 6
                  ≡ ok ((7 ∷ 9 ∷ []) ++ listing [], (pid, 6) ∷ places []))))
unfolding block control Linked Kept
read_chain-record_all_example =
    read_chain-record_all fresh (7 ∷ 9 ∷ []) 7 (first ∷ second ∷ []) [] fresh-Filled (omega arith)
      (omega arith) ((λ e. omega (arith, e)), ((λ e. omega (arith, e)), tt)) (omega arith) refl
      used-Inv used-Balanced refl tt refl

-- The invalid PID is refused.
record_invalid : record_pid fresh invalid_pid ≡ fail ensure_failed
unfolding record_pid
record_invalid = refl

seal-read_chain_example :
    ((used.blocks_count ≤ used.next_unused_block) × (seal two_recorded 0 ≡ fail out_of_space))
    ⊎ ((pid : ℕ) × (t : Chain) × (seal two_recorded 0 ≡ ok (true, t))
        × Inv t.space
        × Balanced t.space (raw_block_location pid ∷ first ∷ second ∷ [])
        × Kept t.space (sealed_block_of two_recorded 0 pid ∷ [])
        × ((n : ℕ)
            → 0 + 1 < n
            → read_chain n t.disk (t.heads (6 % 10)) 6
              ≡ ok (take 2 (replicate capacity 0) ++ listing [], (pid, 6) ∷ places []))
        × ((e : ℕ) (cs : List ChainBlock) (n : ℕ)
            → e % 10 ≢ 6 % 10
            → Linked two_recorded.disk e (two_recorded.heads (e % 10)) cs
            → Kept used cs
            → length cs < n
            → read_chain n t.disk (t.heads (e % 10)) e ≡ ok (listing cs, places cs)))
unfolding block control Linked Kept
seal-read_chain_example =
    seal-read_chain two_recorded 0 (first ∷ second ∷ []) [] used-Inv used-Balanced refl tt
      (omega arith) (omega arith) refl refl

-- What is read of RU epoch 6 by the heads on the device, and the counter of its blocks.
abbrev reads_after : Result (ℕ × Chain) → Result (ℕ × List ℕ × List (ℕ × ℕ) × ℕ)
reads_after r = r >>= λ x. read_chain 3 (x.1).disk ((x.1).persisted_heads 6) 6 >>= λ y.
    ok (x.0, y.0, y.1, (x.1).block_total 6)

sealed_two : reads_after (seal_closed_blocks 128 two_recorded) ≡ ok (1, 0 ∷ 0 ∷ [], (3, 6) ∷ [], 1)
unfolding seal_closed_blocks seal_closed filled_up seal write_block written sealed_block_of
    recycle_slot count_block_write persist_dirty_heads persist_heads persist_head block control
    read_chain CompressedSpace.init CompressedSpace.allocate_raw_block CompressedSpace.take_shared
    CompressedSpace.fresh_block CompressedSpace.open_up CompressedSpace.seal_block
    CompressedSpace.transition CompressedSpace.exchange_block_ru_epoch ℕ_discrete
sealed_two = refl

-- A ring of one block is refused, an RU epoch is opened only after the open one.
refused :
    (LbaChain.init fresh 1 6 (λ _. blank) ≡ fail ensure_failed)
    × (open_epoch fresh 6 ≡ fail ensure_failed)
    × ((close_round fresh >>= λ r. ok r.0) ≡ ok 0)
    × ((close_active_block (record fresh { n_blocks = 1 }) 7 >>= λ r.
          ok (elim r [ none ↦ true | some _ ↦ false ]))
        ≡ ok true)
unfolding LbaChain.init open_epoch close_round close_active_block word_count activate_next control
    marked_closed ℕ_discrete
refused = (refl, refl, refl, refl)

-- A writer that read an old sequence number leaves a tombstone in the block that has the slot now.
stale_writer :
    ((record_round fresh 7 4).0 ≡ retries)
    × (take 1 (block (record_round fresh 7 4).1 0).entries ≡ invalid_pid ∷ [])
unfolding record_round word_count control block fill_entry ℕ_discrete
stale_writer = (refl, refl)

recycled : recycle_block used none 3 ≡ CompressedSpace.free used none (raw_block_location 3)
unfolding recycle_block
recycled = refl

record_rounds-marked_closed_example :
    Waited
      (marked_closed fresh)
      0
      (7 ∷ 9 ∷ [])
      (record_rounds (marked_closed fresh) 0 (7 ∷ 9 ∷ [])).0
      (record_rounds (marked_closed fresh) 0 (7 ∷ 9 ∷ [])).1
record_rounds-marked_closed_example =
    record_rounds-marked_closed fresh 0 (7 ∷ 9 ∷ []) fresh-Filled (omega arith) (omega arith)
