-- ===== src/CompressedSpace/Recovery.antt =====
-- `persist` and `recover` of the space. The file is the list of its words of 64 bits.
pub mod Restored
mod Tests
use epsilon_db.Base.{
  ℕ, zero, suc, ◌+◌, ◌-◌, ◌%◌, ◌^◌, Bool, true, false, ◌&&◌, Option, none, some, List, [], ◌∷◌,
  ◌++◌, ◌==◌, ltb, leb, min, if◌then◌else◌, length, take, drop, get_or, Result, ok, fail, ◌>>=◌,
  ◌>>◌, ensure, setup_failed,
}
use epsilon_db.CompressedSpace.Cpid.{page_size}
use epsilon_db.CompressedSpace.Cpid
use epsilon_db.CompressedSpace.Lists.{update}
use epsilon_db.CompressedSpace.{Space, BlockState, free_block, sealed_block}

abbrev pub space_map_magic : ℕ
space_map_magic = 13897757561343049732

-- The first n values of an array.
pub values : (ℕ → ℕ) → ℕ → List ℕ
values f zero = []
values f (suc n) = values f n ++ (f n ∷ [])

pub persist : Space → ℕ → Result (List ℕ)
persist s pids_end =
    let next = min s.next_unused_block s.blocks_count in
    ensure (leb pids_end s.logical_pages)
    >> ok (
        (space_map_magic ∷ s.blocks_count ∷ s.logical_pages ∷ next ∷ pids_end ∷ [])
        ++ (values s.page_map pids_end ++ values s.block_ru_epochs next))

-- The loop over the pages: the live bytes of the blocks are the lengths of the pages they hold.
pub add_pages : ℕ → List ℕ → (ℕ → ℕ) → Result (ℕ → ℕ)
add_pages next [] live = ok live
add_pages next (loc ∷ locs) live =
    let b = Cpid.block loc in
    let bytes = live b + Cpid.page_length loc in
    let rest = add_pages next locs live in
    let added =
      ensure (ltb b next)
      >> (ensure (leb (Cpid.offset_in_block loc + Cpid.page_length loc) page_size)
          >> (ensure (leb bytes page_size) >> add_pages next locs (update live b bytes))) in
    if Cpid.on_ssd loc then added else rest

-- The loop over the blocks of the LBA chain.
pub add_raw_blocks : ℕ → List ℕ → (ℕ → ℕ) → Result (ℕ → ℕ)
add_raw_blocks next [] live = ok live
add_raw_blocks next (b ∷ bs) live =
    ensure (ltb b next)
    >> (ensure (live b == 0) >> add_raw_blocks next bs (update live b page_size))

-- The blocks below a bound without live bytes, in order.
pub free_below : ℕ → (ℕ → ℕ) → List ℕ
free_below zero live = []
free_below (suc n) live = free_below n live ++ (if live n == 0 then n ∷ [] else [])

-- The space with the maps and the live bytes that were read.
pub restored : Space → ℕ → ℕ → List ℕ → List ℕ → (ℕ → ℕ) → Space
restored s next pids_end pages epochs live =
    let free = s.shared_free_list ++ free_below next live in
    record s {
      page_map = λ pid. if ltb pid pids_end then get_or pages pid 0 else s.page_map pid;
      block_ru_epochs = λ b. if ltb b next then get_or epochs b 0 else s.block_ru_epochs b;
      live_bytes = live;
      block_states = λ b.
          if ltb b next
          then (if live b == 0 then free_block else sealed_block)
          else s.block_states b;
      shared_free_list = free;
      free_blocks = length free % 2 ^ 64;
      next_unused_block = next;
    }

-- What follows the header.
pub recover_maps : Space → ℕ → ℕ → List ℕ → List ℕ → Result Space
recover_maps s next pids_end words raw_blocks = do
  ensure (leb next s.blocks_count && leb pids_end s.logical_pages)
  ensure (leb (pids_end + next) (length words))
  live ← add_pages next (take pids_end words) s.live_bytes
  all ← add_raw_blocks next raw_blocks live
  ok (restored s next pids_end (take pids_end words) (take next (drop pids_end words)) all)

pub recover : Space → Option (List ℕ) → List ℕ → Result Space
recover s none raw_blocks = fail setup_failed
recover s (some (magic ∷ blocks ∷ pages ∷ next ∷ pids_end ∷ words)) raw_blocks =
    if magic == space_map_magic
    then (if (blocks == s.blocks_count) && (pages == s.logical_pages)
        then recover_maps s next pids_end words raw_blocks
        else fail setup_failed)
    else fail setup_failed
recover s (some _) raw_blocks = ensure false >> ok s
