-- ===== src/CompressedSpace/Reserve.antt =====
-- reserveBlocks and trimFreeList move free blocks between the lists and never lose or copy one.
use epsilon_db.Base.{
  ℕ, zero, suc, ◌+◌, ◌-◌, ◌%◌, ◌^◌, ◌≤◌, ◌<◌, ◌≡◌, inl, inr, refl, true, false, some, ◌∷◌, ◌++◌,
  leb, length, take, drop, min, ok, arith, length-append, dec_lt, lt→ltb, length-take, Bool-cases,
}
use epsilon_db.Bits.{u64_mod}
use epsilon_db.CompressedSpace.{
  Space, writer_id, reserve_shared, reserve_fresh, reserve_blocks, trim_free_list,
}
use epsilon_db.CompressedSpace.Lists.{
  update, occurrences, occurrences-append, occurrences-split, length-split,
}
use epsilon_db.CompressedSpace.Invariant.{
  listed, expected, entries, Inv, InTransit, push-Inv, move-Inv,
}

-- In a space with its invariant, `trimFreeList` succeeds for a writer, keeps the invariant,
-- changes no block, and leaves the writer at most `max_blocks` blocks.
pub trim_free_list_lem :
    (s : Space) (id max_blocks : ℕ)
    → Inv s
    → id < s.writers_count
    → (t : Space) × (trim_free_list s (some id) max_blocks ≡ ok t)
      × Inv t
      × (t.block_states ≡ s.block_states)
      × (t.live_bytes ≡ s.live_bytes)
      × (length (t.writer_free_lists id) ≤ max_blocks)
unfolding trim_free_list writer_id
trim_free_list_lem s id n v lt =
    let mine = s.writer_free_lists id in
    elim (dec_lt n (length mine)) [
      | yes more ↦ (
        record s {
          shared_free_list = s.shared_free_list ++ drop n mine;
          writer_free_lists = update s.writer_free_lists id (take n mine);
        },
        ground arith,
        move-Inv id (take n mine) (s.shared_free_list ++ drop n mine) v lt
            (λ c. omega (
              arith,
              occurrences-append c s.shared_free_list (drop n mine),
              occurrences-split c n mine,
            ))
            (omega (arith, length-append s.shared_free_list (drop n mine), length-split n mine)),
        refl,
        refl,
        ground (arith, length-take n mine),
      )
      | no few ↦ (s, ground arith, v, refl, refl, omega arith)
    ]

reserve_shared-Inv :
    (s : Space) (id wanted : ℕ) → Inv s → id < s.writers_count → Inv (reserve_shared s id wanted)
unfolding reserve_shared
reserve_shared-Inv s id wanted v lt =
    let k : ℕ = length s.shared_free_list - min (length s.shared_free_list) wanted in
    move-Inv id (drop k s.shared_free_list ++ s.writer_free_lists id) (take k s.shared_free_list) v
      lt
      (λ c. omega (
        arith,
        occurrences-append c (drop k s.shared_free_list) (s.writer_free_lists id),
        occurrences-split c k s.shared_free_list,
      ))
      (omega (
        arith,
        length-append (drop k s.shared_free_list) (s.writer_free_lists id),
        length-split k s.shared_free_list,
      ))

-- A failed fetch moves the counter past the end.
past_end-Inv :
    (s : Space)
    → Inv s
    → s.blocks_count ≤ s.next_unused_block
    → s.next_unused_block + 1 < 2 ^ 64
    → Inv (record s { next_unused_block = (s.next_unused_block + 1) % u64_mod })
unfolding listed expected entries
past_end-Inv s v full h = record {
  small = v.small;
  sound = λ c. ground (arith, v.sound c);
  once = λ c. ground (arith, v.once c);
  counted = v.counted;
}

abbrev Kept : Space → Space → Type 0
Kept s t = (t.block_states ≡ s.block_states) × (t.live_bytes ≡ s.live_bytes)

fetch-InTransit :
    (s : Space)
    → Inv s
    → s.next_unused_block < s.blocks_count
    → InTransit
        (record s { next_unused_block = (s.next_unused_block + 1) % u64_mod })
        s.next_unused_block
unfolding listed expected entries
fetch-InTransit s v lt = record {
  small = v.small;
  sound = λ c. ground (arith, v.sound c, v.small);
  once = λ c. ground (arith, v.once c, (v.sound s.next_unused_block).unused, v.small);
  counted = v.counted;
}

reserve_fresh-Inv :
    (n : ℕ) (s : Space) (id : ℕ)
    → Inv s
    → id < s.writers_count
    → s.next_unused_block + 1 < 2 ^ 64
    → Inv (reserve_fresh n s id) × Kept s (reserve_fresh n s id)
unfolding reserve_fresh occurrences
reserve_fresh-Inv zero s id v lt h = (v, (refl, refl))
reserve_fresh-Inv (suc n) s id v lt h = elim (dec_lt s.next_unused_block s.blocks_count) [
  | yes p ↦
      let b : ℕ = s.next_unused_block in
      let t : Space = record s {
        next_unused_block = (b + 1) % u64_mod;
        writer_free_lists = update s.writer_free_lists id (b ∷ s.writer_free_lists id);
        free_blocks = (s.free_blocks + 1) % u64_mod;
      } in
      let e : leb s.blocks_count b ≡ false = ground arith in
      let v' : Inv t =
        push-Inv id b (b ∷ s.writer_free_lists id) (fetch-InTransit s v p) lt (λ c. omega arith)
          (omega arith) in
      let (iv, kept) = reserve_fresh-Inv n t id v' lt (omega (arith, v.small)) in rw e (iv, kept)
  | no p ↦
      let e : leb s.blocks_count s.next_unused_block ≡ true = ground arith in
      rw e (past_end-Inv s v (omega arith) h, (refl, refl))
]

-- In a space with its invariant whose counter of used blocks is not about to wrap around,
-- `reserveBlocks` succeeds for a writer, keeps the invariant, and changes no block.
pub reserve_blocks_lem :
    (s : Space) (id n : ℕ)
    → Inv s
    → id < s.writers_count
    → s.next_unused_block + 1 < 2 ^ 64
    → (t : Space) × (reserve_blocks s (some id) n ≡ ok t)
      × Inv t
      × (t.block_states ≡ s.block_states)
      × (t.live_bytes ≡ s.live_bytes)
unfolding reserve_blocks writer_id reserve_shared
reserve_blocks_lem s id n v lt h =
    let size = length (s.writer_free_lists id) in
    let u : Space = reserve_shared s id (n - size) in
    let k : ℕ = n - length (u.writer_free_lists id) in
    let (v', kept) = reserve_fresh-Inv k u id (reserve_shared-Inv s id (n - size) v lt) lt h in
    elim (Bool-cases (leb n size)) [
      | inl e ↦ (s, rw (lt→ltb _ _ lt, e), v, refl, refl)
      | inr e ↦ (reserve_fresh k u id, rw (lt→ltb _ _ lt, e), v', kept.0, kept.1)
    ]
