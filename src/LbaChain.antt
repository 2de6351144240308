-- ===== src/LbaChain.antt =====
-- backend/leanstore/storage/buffer-manager/LBAChain.{hpp,cpp}: the blocks written to an RU epoch
-- are recorded in a ring of chain blocks, which are sealed to the device as a linked list per RU
-- epoch. This is the variant with compressed pages, where a chain block takes a raw block of the
-- space. The parts of the buffer manager that it changes stand in the same record. The counters
-- of stalled and waiting writers are left out.
pub mod Disk
pub mod Closing
pub mod Filling
pub mod History
mod Tests
use Prim.Native.Nat.{bit_and}
use epsilon_db.Base.{
  ℕ, zero, suc, ◌+◌, ◌-◌, ◌*◌, ◌/◌, ◌%◌, ◌^◌, Bool, true, false, not, ◌&&◌, Option, none, some,
  List, [], ◌∷◌, ◌++◌, ◌==◌, ltb, leb, if◌then◌else◌, take, replicate, set, Result, ok, fail, ◌>>=◌,
  ◌>>◌, ensure, undefined_behaviour,
}
use epsilon_db.Bits.{u64_mod, shl, shr}
use epsilon_db.Units.{invalid_pid}
use epsilon_db.CompressedSpace.{
  Space, allocate_raw_block, raw_block_location, exchange_block_ru_epoch, unmapped_ru_epoch,
}
use epsilon_db.CompressedSpace as CompressedSpace
use epsilon_db.CompressedSpace.Cpid.{page_size}
use epsilon_db.CompressedSpace.Lists.{update}

abbrev pub magic : ℕ
magic = 0x6E69616843414C42

abbrev pub header_bytes : ℕ
header_bytes = 48

-- CAPACITY.
abbrev pub capacity : ℕ
capacity = (page_size - header_bytes) / 8

pub record ChainBlock : Type 0 where
  pub magic_number : ℕ
  pub pid : ℕ
  pub prev : ℕ
  pub ru_epoch : ℕ
  pub written_ru_epoch : ℕ
  pub count : ℕ
  pub pad : ℕ
  pub entries : List ℕ

pub record Control : Type 0 where
  pub word : ℕ
  pub filled : ℕ
  pub reserved : ℕ

abbrev pub closed : ℕ
closed = shl 1 30

abbrev pub count_mask : ℕ
count_mask = shl 1 32 - 1

abbrev pub make_word : ℕ → ℕ
make_word seq = shl seq 32

abbrev pub word_seq : ℕ → ℕ
word_seq word = shr word 32 % 2 ^ 32

pub word_count : ℕ → ℕ
word_count word = bit_and word count_mask

-- The ring, then what it changes elsewhere: the free space, the blocks on the device, the heads
-- of the chains in memory and on the device, the open RU epoch, the newest reclaimed one plus
-- one, and the counters of the ring of RU epochs with the epoch that each belongs to.
pub record Chain : Type 0 where
  pub n_blocks : ℕ
  pub open_ru_epoch : ℕ
  pub controls : ℕ → Control
  pub blocks : ℕ → ChainBlock
  pub active_seq : ℕ
  pub sealed_seq : ℕ
  pub dirty_heads : List ℕ
  pub space : Space
  pub disk : ℕ → ChainBlock
  pub max_open_ru_epochs : ℕ
  pub heads : ℕ → ℕ
  pub persisted_heads : ℕ → ℕ
  pub current_ru_epoch : ℕ
  pub reclaimed_end : ℕ
  pub sets_count : ℕ
  pub set_ru_epochs : ℕ → ℕ
  pub block_total : ℕ → ℕ
  pub block_invalid : ℕ → ℕ

pub control : Chain → ℕ → Control
control s seq = s.controls (seq % s.n_blocks)

pub block : Chain → ℕ → ChainBlock
block s seq = s.blocks (seq % s.n_blocks)

abbrev pub set_control : Chain → ℕ → Control → Chain
set_control s seq c = record s { controls = update s.controls (seq % s.n_blocks) c }

abbrev pub set_block : Chain → ℕ → ChainBlock → Chain
set_block s seq b = record s { blocks = update s.blocks (seq % s.n_blocks) b }

-- What a round of the loop of `record` does after its fetch_add.
pub data Outcome : Type 0 where
  returns : ℕ → Outcome
  retries activates waits : Outcome

-- The entry of a slot is stored and counted, after the fetch_add.
pub fill_entry : Chain → ℕ → ℕ → ℕ → Chain
fill_entry s seq slot entry =
    let c = control s seq in
    let c' = record c { word = (c.word + 1) % u64_mod; filled = (c.filled + 1) % 2 ^ 32 } in
    set_block (set_control s seq c') seq
      (record (block s seq) { entries = set (block s seq).entries slot entry })

-- A round of `record` with the sequence number that it loaded.
pub record_round : Chain → ℕ → ℕ → Outcome × Chain
record_round s pid seq =
    let c = control s seq in
    let slot = word_count c.word in
    let fetched = set_control s seq (record c { word = (c.word + 1) % u64_mod }) in
    let same = word_seq c.word == seq % 2 ^ 32 in
    if ltb slot capacity
    then (if same
        then (returns (block s seq).ru_epoch, fill_entry s seq slot pid)
        else (retries, fill_entry s seq slot invalid_pid))
    else (if (slot == capacity) && same then activates else waits, fetched)

-- `record` up to its first round: it takes a PID that is one, and loads the sequence number of the
-- active block.
pub record_pid : Chain → ℕ → Result (Outcome × Chain)
record_pid s pid = ensure (not (pid == invalid_pid)) >> ok (record_round s pid s.active_seq)

-- What `activateNext` stores: the entries reserved in the block `seq`, and the next active block.
pub activated : Chain → ℕ → ℕ → ℕ → Chain
activated s seq reserved ru_epoch =
    let s' = set_control s seq (record (control s seq) { reserved = reserved }) in
    record (set_block s' (seq + 1) (record (block s (seq + 1)) { ru_epoch = ru_epoch })) {
      active_seq = seq + 1;
    }

-- `activateNext`; `none` while it waits for the slot of the next block.
pub activate_next : Chain → ℕ → ℕ → ℕ → Option Chain
activate_next s seq reserved ru_epoch =
    if word_seq (control s (seq + 1)).word == (seq + 1) % 2 ^ 32
    then some (activated s seq reserved ru_epoch)
    else none

-- `countBlockWrite` of the buffer manager.
pub count_block_write : Chain → ℕ → ℕ → Chain
count_block_write s b ru_epoch =
    let r = exchange_block_ru_epoch s.space b ru_epoch in
    let s' = record s { space = r.1 } in
    let i = r.0 % s.sets_count in
    if not (r.0 == unmapped_ru_epoch) && leb s.reclaimed_end r.0
    then record s' { block_invalid = update s.block_invalid i (s.block_invalid i + 1) }
    else s'

-- Whether the last dirty head is another one.
abbrev pub is_last : List ℕ → ℕ → Bool
is_last [] e = false
is_last (x ∷ []) e = x == e
is_last (x ∷ y ∷ ys) e = is_last (y ∷ ys) e

-- The block of a slot as `seal` writes it.
pub sealed_block_of : Chain → ℕ → ℕ → ChainBlock
sealed_block_of s seq pid =
    let b = block s seq in
    let reserved = (control s seq).reserved in
    record b {
      magic_number = magic;
      pid = pid;
      prev = s.heads (b.ru_epoch % s.max_open_ru_epochs);
      written_ru_epoch = s.current_ru_epoch;
      count = reserved;
      pad = 0;
      entries = take reserved b.entries ++ replicate (capacity - reserved) invalid_pid;
    }

-- The part of `seal` for a block with entries: `pid` is the raw block it got. Everything it
-- changes:
pub written : Chain → ℕ → ℕ → Chain
written s seq pid =
    let b = sealed_block_of s seq pid in
    let i = b.written_ru_epoch % s.sets_count in
    record (count_block_write (set_block s seq b) pid b.written_ru_epoch) {
      disk = update s.disk pid b;
      block_total = update s.block_total i (s.block_total i + 1);
      heads = update s.heads (b.ru_epoch % s.max_open_ru_epochs) pid;
      dirty_heads =
          if is_last s.dirty_heads b.ru_epoch
          then s.dirty_heads
          else s.dirty_heads ++ (b.ru_epoch ∷ []);
    }

-- And the check that the counters are those of the open RU epoch.
pub write_block : Chain → ℕ → ℕ → Result Chain
write_block s seq pid =
    ensure (s.set_ru_epochs (s.current_ru_epoch % s.sets_count) == s.current_ru_epoch)
    >> ok (written s seq pid)

-- The slot is free for the block one round of the ring later.
pub recycle_slot : Chain → ℕ → Chain
recycle_slot s seq =
    set_control s seq (record { word = make_word (seq + s.n_blocks); filled = 0; reserved = 0 })

-- `seal`, once the writers have filled their entries: whether the block was written.
pub seal : Chain → ℕ → Result (Bool × Chain)
seal s seq =
    if ltb 0 (control s seq).reserved
    then (allocate_raw_block s.space >>= λ r.
        write_block (record s { space = r.1 }) seq r.0 >>= λ t. ok (true, recycle_slot t seq))
    else ok (false, recycle_slot s seq)

-- The constructor: the memory of the blocks is not initialised.
pub init : Chain → ℕ → ℕ → (ℕ → ChainBlock) → Result Chain
init s n_blocks open_ru_epoch memory =
    ensure (leb 2 n_blocks)
    >> ok (record s {
      n_blocks = n_blocks;
      open_ru_epoch = open_ru_epoch;
      controls = λ slot. record { word = make_word slot; filled = 0; reserved = 0 };
      blocks = update memory 0 (record (memory 0) { ru_epoch = open_ru_epoch });
      active_seq = 0;
      sealed_seq = 0;
      dirty_heads = [];
    })

-- The word of the active block after the fetch_add of `closeActiveBlock`.
pub marked_closed : Chain → Chain
marked_closed s =
    let c = control s s.active_seq in
    set_control s s.active_seq (record c { word = (c.word + closed) % u64_mod })

-- A round of `closeActiveBlock`, up to where it waits: the entries reserved before, and whether
-- a writer filled the block and activates the next one.
pub close_round : Chain → Result (ℕ × Bool × Chain)
close_round s =
    let word = (control s s.active_seq).word in
    let reserved = word_count word in
    ensure (word_seq word == s.active_seq % 2 ^ 32)
    >> ok (reserved, ltb capacity reserved, marked_closed s)

-- `closeActiveBlock` where it need not wait; `none` where it does.
pub close_active_block : Chain → ℕ → Result (Option Chain)
close_active_block s next_ru_epoch = close_round s >>= λ r.
    ok (if r.1 then none else activate_next r.2 s.active_seq r.0 next_ru_epoch)

-- `openRUEpoch` but for the closing of the active block.
pub open_epoch : Chain → ℕ → Result Chain
open_epoch s new_ru_epoch =
    ensure (ltb s.open_ru_epoch new_ru_epoch) >> ok (record s { open_ru_epoch = new_ru_epoch })

-- The test that the loop of `seal` waits for.
pub filled_up : Chain → ℕ → Bool
filled_up s seq = (control s seq).filled == (control s seq).reserved

-- The head of an RU epoch is written with all the heads in the same 4 KiB of the RU state, whose
-- heads start at `offset`, a multiple of 8.
pub persist_head : ℕ → Chain → ℕ → Chain
persist_head offset s ru_epoch =
    let at = λ (i : ℕ). (offset + i * 8) / 4096 in
    record s {
      persisted_heads = λ i.
          if at i == at (ru_epoch % s.max_open_ru_epochs) then s.heads i else s.persisted_heads i;
    }

pub persist_heads : ℕ → Chain → List ℕ → Chain
persist_heads offset s [] = s
persist_heads offset s (e ∷ es) = persist_heads offset (persist_head offset s e) es

pub persist_dirty_heads : ℕ → Chain → Chain
persist_dirty_heads offset s = record (persist_heads offset s s.dirty_heads) { dirty_heads = [] }

-- The loop of `sealClosedBlocks` for `n` closed blocks; the model stops where the code waits for
-- the writers of a block. The number of blocks written.
pub seal_closed : ℕ → Chain → Result (ℕ × Chain)
seal_closed zero s = ok (0, s)
seal_closed (suc n) s =
    if filled_up s s.sealed_seq
    then (seal s s.sealed_seq >>= λ r.
        seal_closed n (record (r.1) { sealed_seq = r.1.sealed_seq + 1 }) >>= λ rest.
        ok ((if r.0 then 1 else 0) + rest.0, rest.1))
    else ok (0, s)

pub seal_closed_blocks : ℕ → Chain → Result (ℕ × Chain)
seal_closed_blocks offset s =
    seal_closed (s.active_seq - s.sealed_seq) s >>= λ r. ok (r.0, persist_dirty_heads offset r.1)

-- `readChain` in at most `n` rounds, without which it fails: the entries and the blocks.
pub read_chain : ℕ → (ℕ → ChainBlock) → ℕ → ℕ → Result (List ℕ × List (ℕ × ℕ))
read_chain zero disk pid ru_epoch = fail undefined_behaviour
read_chain (suc n) disk pid ru_epoch =
    let b = disk pid in
    let rest = read_chain n disk b.prev ru_epoch in
    if pid == invalid_pid
    then ok ([], [])
    else (ensure (b.magic_number == magic)
        >> (ensure (b.pid == pid)
            >> (ensure (b.ru_epoch == ru_epoch)
                >> (ensure (leb b.count capacity)
                    >> (rest >>= λ r.
                        ok (take b.count b.entries ++ r.0, (pid, b.written_ru_epoch) ∷ r.1))))))

-- `recycleBlock`.
pub recycle_block : Space → Option ℕ → ℕ → Result Space
recycle_block space tid pid = CompressedSpace.free space tid (raw_block_location pid)
