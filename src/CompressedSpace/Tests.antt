-- ===== src/CompressedSpace/Tests.antt =====
-- Runs of the compressed space, and the theorems at concrete inputs.
use epsilon_db.Base.{
  ℕ, ◌*◌, ◌≤◌, ◌<◌, ◌≡◌, ◌≢◌, ◌⊎◌, refl, true, arith, ok, fail, some, none, [], ◌∷◌, ◌++◌,
  ensure_failed, out_of_space, if◌then◌else◌, ◌==◌,
}
use epsilon_db.CompressedSpace.Cpid
use epsilon_db.CompressedSpace.Cpid.{page_size, make_fields}
use epsilon_db.CompressedSpace.{
  free_block, open_block, sealed_block, state_code, Space, init, location, exchange_location,
  allocate_block, seal_block, allocate_raw_block, raw_block_location, is_raw_block, is_free_block,
  exchange_block_ru_epoch, free_location, free, used_blocks,
}
use epsilon_db.CompressedSpace.Lists.{update, occurrences, total}
use epsilon_db.CompressedSpace.Invariant.{Inv, listed, entries, expected}
use epsilon_db.CompressedSpace.Allocate.{Taken, allocate_block_lem}
use epsilon_db.CompressedSpace.Ledger.{
  bytes_in, Located, Balanced, free_live, free_dead, seal_block_live,
}
use epsilon_db.CompressedSpace.Raw.{allocate_raw_block_lem}

-- Four blocks and two writers: block 0 is sealed with two pages, block 1 is free in the list of
-- writer 0, block 2 is being packed, and block 3 was never used.
abbrev pub used : Space
used = record (init 4 16 2) {
  live_bytes = λ b. if b == 0 then 300 else 0;
  block_states = λ b. if b == 0 then sealed_block else if b == 2 then open_block else free_block;
  next_unused_block = 3;
  free_blocks = 1;
  writer_free_lists = λ id. if id == 0 then 1 ∷ [] else [];
}

abbrev pub first : ℕ
first = Cpid.make 0 100

abbrev pub second : ℕ
second = Cpid.make 100 200

abbrev packed : ℕ
packed = Cpid.make (2 * 4096) 500

pub used-Inv : Inv used
unfolding init listed entries expected occurrences total
used-Inv = record {
  small = omega arith;
  sound = λ c. ground arith;
  once = λ c. ground arith;
  counted = omega arith;
}

pub used-Balanced : Balanced used (first ∷ second ∷ [])
unfolding init bytes_in Cpid.make Cpid.block Cpid.address Cpid.page_length
used-Balanced c = ground arith

second-Located : Located used second
unfolding init Cpid.make Cpid.block Cpid.address Cpid.page_length Cpid.offset_in_block
second-Located = omega arith

allocate_block_lem_example :
    ((used.writer_free_lists 1 ≡ [])
      × (used.shared_free_list ≡ [])
      × (used.blocks_count ≤ used.next_unused_block)
      × (allocate_block used (some 1) ≡ fail out_of_space))
    ⊎ ((b : ℕ) × (t : Space) × (allocate_block used (some 1) ≡ ok (b, t)) × Taken used b t)
unfolding init
allocate_block_lem_example = allocate_block_lem used 1 used-Inv (omega arith)

free_live_example :
    (t : Space) × (free used (some 1) second ≡ ok t)
    × Inv t
    × Balanced t (first ∷ [])
    × (t.block_states ≡ (
        if bytes_in (Cpid.block second) (first ∷ []) == 0
        then update used.block_states (Cpid.block second) free_block
        else used.block_states))
unfolding init
free_live_example =
    free_live used (some 1) (first ∷ []) [] second used-Inv (omega arith) used-Balanced
      second-Located

-- The block that is being packed has no live page yet.
free_dead_example : free used none packed ≡ fail ensure_failed
unfolding bytes_in Cpid.make Cpid.block Cpid.address Cpid.page_length
free_dead_example =
    free_dead used none (first ∷ second ∷ []) packed used-Inv used-Balanced (omega arith)
      (omega arith)

seal_block_live_example :
    (t : Space) × (seal_block used 2 (bytes_in 2 (packed ∷ [])) ≡ ok t)
    × Inv t
    × Balanced t ((packed ∷ []) ++ (first ∷ second ∷ []))
    × (t.block_states ≡ update used.block_states 2 sealed_block)
unfolding init bytes_in Cpid.make Cpid.block Cpid.address Cpid.page_length
seal_block_live_example =
    seal_block_live used 2 (packed ∷ []) (first ∷ second ∷ []) used-Inv (omega arith) refl
      used-Balanced (omega arith) (omega arith) (λ c ne. ground (arith, ne))

allocate_raw_block_lem_example :
    ((used.blocks_count ≤ used.next_unused_block) × (allocate_raw_block used ≡ fail out_of_space))
    ⊎ ((b : ℕ) × (t : Space) × (allocate_raw_block used ≡ ok (b, t))
        × (state_code (used.block_states b) ≡ 0)
        × (b < used.blocks_count)
        × Inv t
        × (is_raw_block t b ≡ true)
        × Balanced t (raw_block_location b ∷ first ∷ second ∷ [])
        × ((c : ℕ) → c ≢ b → t.block_states c ≡ used.block_states c))
unfolding init
allocate_raw_block_lem_example =
    allocate_raw_block_lem used (first ∷ second ∷ []) used-Inv used-Balanced

-- Freeing one of two pages leaves the block sealed with the bytes of the other.
freed_once :
    (free used (some 0) first ≡ ok (record used { live_bytes = update used.live_bytes 0 200 }))
    × (used_blocks used ≡ 2)
    × (is_free_block used 1 ≡ true)
    × (location used 3 ≡ ok 0)
unfolding init free free_location Cpid.on_ssd Cpid.make Cpid.block Cpid.address Cpid.page_length
    Cpid.offset_in_block used_blocks is_free_block location
freed_once = (refl, refl, refl, refl)

-- The page map and the RU epochs of the blocks give back what was exchanged into them.
exchange_lem :
    (s : Space) (b e : ℕ)
    → ((exchange_block_ru_epoch s b e).0 ≡ s.block_ru_epochs b)
      × ((exchange_block_ru_epoch s b e).1.block_ru_epochs b ≡ e)
unfolding exchange_block_ru_epoch
exchange_lem s b e = (refl, ground arith)

exchange_location_test : exchange_location used 16 first ≡ fail ensure_failed
unfolding exchange_location init
exchange_location_test = refl
