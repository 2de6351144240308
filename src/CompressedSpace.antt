-- ===== src/CompressedSpace.antt =====
-- backend/leanstore/storage/buffer-manager/CompressedSpace.{hpp,cpp}, class CompressedSpace: the
-- page map, the free lists and the life cycle of the 4 KiB blocks that compressed pages are
-- packed into. A call is one step: its locks and atomic operations are taken together.
pub mod Cpid
pub mod Lists
pub mod Invariant
pub mod Allocate
pub mod Ledger
pub mod Reserve
pub mod Raw
pub mod Recovery
pub mod Tests
use epsilon_db.Base.{
  ℕ, zero, suc, ◌+◌, ◌-◌, ◌*◌, ◌%◌, ◌^◌, ◌≤◌, ◌<◌, min, Bool, true, false, ◌&&◌, Option, none, some,
  List, [], ◌∷◌, ◌++◌, ◌==◌, ltb, leb, if◌then◌else◌, length, take, drop, Result, ok, fail, ◌>>=◌,
  ◌>>◌, ensure, out_of_space,
}
use epsilon_db.Bits.{u64_mod}
use Cpid.{page_size}
use Cpid
use Lists.{update}

-- `enum BlockState`.
pub data BlockState : Type 0 where
  free_block open_block sealed_block : BlockState

abbrev pub state_code : BlockState → ℕ
state_code free_block = 0
state_code open_block = 1
state_code sealed_block = 2

-- UNMAPPED_RU_EPOCH, -1 as a word of 64 bits.
abbrev pub unmapped_ru_epoch : ℕ
unmapped_ru_epoch = 2 ^ 64 - 1

-- The arrays are functions of the index. The free list of a writer is at its thread id.
pub record Space : Type 0 where
  pub blocks_count : ℕ
  pub logical_pages : ℕ
  pub writers_count : ℕ
  pub page_map : ℕ → ℕ
  pub live_bytes : ℕ → ℕ
  pub block_states : ℕ → BlockState
  pub block_ru_epochs : ℕ → ℕ
  pub next_unused_block : ℕ
  pub free_blocks : ℕ
  pub writer_free_lists : ℕ → List ℕ
  pub shared_free_list : List ℕ

-- The constructor.
unfoldable pub init : ℕ → ℕ → ℕ → Space
init blocks_count logical_pages writers_count = record {
  blocks_count = blocks_count;
  logical_pages = logical_pages;
  writers_count = writers_count;
  page_map = λ _. 0;
  live_bytes = λ _. 0;
  block_states = λ _. free_block;
  block_ru_epochs = λ _. unmapped_ru_epoch;
  next_unused_block = 0;
  free_blocks = 0;
  writer_free_lists = λ _. [];
  shared_free_list = [];
}

pub location : Space → ℕ → Result ℕ
location s pid = ensure (ltb pid s.logical_pages) >> ok (s.page_map pid)

-- The previous location, and the space with the new one.
pub exchange_location : Space → ℕ → ℕ → Result (ℕ × Space)
exchange_location s pid loc =
    ensure (ltb pid s.logical_pages)
    >> ok (s.page_map pid, record s { page_map = update s.page_map pid loc })

abbrev pub is_state : BlockState → BlockState → Bool
is_state a b = state_code a == state_code b

unfoldable pub transition : Space → ℕ → BlockState → BlockState → Result Space
transition s b from to =
    ensure (is_state (s.block_states b) from)
    >> ok (record s { block_states = update s.block_states b to })

-- The writer's thread id, `none` for tls_writer_thread_id == -1.
pub writer_id : Space → Option ℕ → Result ℕ
writer_id s none = ensure false >> ok 0
writer_id s (some id) = ensure (ltb id s.writers_count) >> ok id

-- The last part of both ways to allocate: the block is checked to be free and taken.
unfoldable pub open_up : Space → ℕ → Result (ℕ × Space)
open_up s b = do ensure (s.live_bytes b == 0); s' ← transition s b free_block open_block; ok (b, s')

-- A free list that is empty is refilled with up to 64 blocks of the shared one, taken from its end.
pub refill : Space → ℕ → Space
refill s id = elim (s.writer_free_lists id) [
  | [] ↦
      let n = min (length s.shared_free_list) 64 in
      record s {
        writer_free_lists =
            update s.writer_free_lists id (drop (length s.shared_free_list - n) s.shared_free_list);
        shared_free_list = take (length s.shared_free_list - n) s.shared_free_list;
      }
  | _ ∷ _ ↦ s
]

-- A block that was never used.
unfoldable pub fresh_block : Space → Result (ℕ × Space)
fresh_block s =
    let b = s.next_unused_block in
    let s' = record s { next_unused_block = (b + 1) % u64_mod } in
    if leb s.blocks_count b then fail out_of_space else ok (b, s')

pub allocate_from : Space → ℕ → Result (ℕ × Space)
allocate_from s id = elim (s.writer_free_lists id) [
  | b ∷ rest ↦
      open_up
        (record s {
          writer_free_lists = update s.writer_free_lists id rest;
          free_blocks = (s.free_blocks + u64_mod - 1) % u64_mod;
        })
        b
  | [] ↦ (fresh_block s >>= λ r. open_up r.1 r.0)
]

pub allocate_block : Space → Option ℕ → Result (ℕ × Space)
allocate_block s tid = do id ← writer_id s tid; allocate_from (refill s id) id

-- The loop of `reserveBlocks`, for `n` blocks still wanted.
pub reserve_fresh : ℕ → Space → ℕ → Space
reserve_fresh zero s id = s
reserve_fresh (suc n) s id =
    let b = s.next_unused_block in
    let s' = record s { next_unused_block = (b + 1) % u64_mod } in
    let rest =
      reserve_fresh n
        (record s' {
          writer_free_lists = update s.writer_free_lists id (b ∷ s.writer_free_lists id);
          free_blocks = (s.free_blocks + 1) % u64_mod;
        })
        id in
    if leb s.blocks_count b then s' else rest

-- The part of `reserveBlocks` that takes blocks of the shared list.
pub reserve_shared : Space → ℕ → ℕ → Space
reserve_shared s id wanted =
    let taken = min (length s.shared_free_list) wanted in
    record s {
      writer_free_lists =
          update s.writer_free_lists id
            (drop (length s.shared_free_list - taken) s.shared_free_list ++ s.writer_free_lists id);
      shared_free_list = take (length s.shared_free_list - taken) s.shared_free_list;
    }

pub reserve_blocks : Space → Option ℕ → ℕ → Result Space
reserve_blocks s tid n = do
  id ← writer_id s tid
  let size = length (s.writer_free_lists id)
  let s' = reserve_shared s id (n - size)
  ok (if leb n size then s else reserve_fresh (n - length (s'.writer_free_lists id)) s' id)

unfoldable pub seal_block : Space → ℕ → ℕ → Result Space
seal_block s b packed_bytes = do
  ensure (ltb b s.blocks_count)
  ensure (ltb 0 packed_bytes && leb packed_bytes page_size)
  ensure (s.live_bytes b == 0)
  s' ← transition s b open_block sealed_block
  ok (record s' { live_bytes = update s'.live_bytes b packed_bytes })

-- The last block of the shared list, or a fresh one.
unfoldable pub take_shared : Space → Result (ℕ × Space)
take_shared s = elim (Lists.split_last s.shared_free_list) [
  | some (rest, b) ↦ ok (
    b,
    record s { shared_free_list = rest; free_blocks = (s.free_blocks + u64_mod - 1) % u64_mod },
  )
  | none ↦ fresh_block s
]

unfoldable pub allocate_raw_block : Space → Result (ℕ × Space)
allocate_raw_block s = do
  r ← take_shared s
  o ← open_up r.1 r.0
  s' ← seal_block o.1 o.0 page_size
  ok (o.0, s')

unfoldable pub raw_block_location : ℕ → ℕ
raw_block_location b = Cpid.make ((b * page_size) % u64_mod) page_size

pub is_raw_block : Space → ℕ → Bool
is_raw_block s b = is_state (s.block_states b) sealed_block && (s.live_bytes b == page_size)

pub is_free_block : Space → ℕ → Bool
is_free_block s b = is_state (s.block_states b) free_block

unfoldable pub exchange_block_ru_epoch : Space → ℕ → ℕ → ℕ × Space
exchange_block_ru_epoch s b ru_epoch =
    (s.block_ru_epochs b, record s { block_ru_epochs = update s.block_ru_epochs b ru_epoch })

-- The freed block goes to the free list of the writer that freed it, or to the shared one.
pub release_block : Space → Option ℕ → ℕ → Result Space
release_block s tid b = do
  s' ← transition s b sealed_block free_block
  let s'' = record s' { free_blocks = (s'.free_blocks + 1) % u64_mod }
  ok (elim tid [
    | some id ↦ record s'' {
      writer_free_lists = update s''.writer_free_lists id (s''.writer_free_lists id ++ (b ∷ []));
    }
    | none ↦ record s'' { shared_free_list = s''.shared_free_list ++ (b ∷ []) }
  ])

-- `free` of a location that is on the SSD.
pub free_location : Space → Option ℕ → ℕ → Result Space
free_location s tid pid = do
  let b = Cpid.block pid
  let len = Cpid.page_length pid
  ensure (ltb b s.blocks_count)
  ensure (leb (Cpid.offset_in_block pid + len) page_size)
  ensure (is_state (s.block_states b) sealed_block)
  ensure (leb len (s.live_bytes b))
  let s' = record s { live_bytes = update s.live_bytes b (s.live_bytes b - len) }
  let released = release_block s' tid b
  if s.live_bytes b - len == 0 then released else ok s'

pub free : Space → Option ℕ → ℕ → Result Space
free s tid pid = if Cpid.on_ssd pid then free_location s tid pid else ok s

pub trim_free_list : Space → Option ℕ → ℕ → Result Space
trim_free_list s tid max_blocks = do
  id ← writer_id s tid
  let mine = s.writer_free_lists id
  ok (
      if leb (length mine) max_blocks then s else record s {
        shared_free_list = s.shared_free_list ++ drop max_blocks mine;
        writer_free_lists = update s.writer_free_lists id (take max_blocks mine);
      })

pub used_blocks : Space → ℕ
used_blocks s = (min s.next_unused_block s.blocks_count + u64_mod - s.free_blocks) % u64_mod
