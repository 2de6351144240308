-- ===== src/CompressedSpace/Raw.antt =====
-- allocateRawBlock: a whole block for an LBA chain block.
use epsilon_db.Base.{
  ℕ, ◌+◌, ◌-◌, ◌*◌, ◌%◌, ◌^◌, ◌≤◌, ◌<◌, ◌≡◌, ◌≢◌, ◌⊎◌, inl, inr, refl, true, List, [], ◌∷◌, ◌++◌,
  ◌==◌, if◌then◌else◌, length, ok, fail, out_of_space, arith, ap, ◌∙◌, length-append, Option-cases,
}
use epsilon_db.Bits.{u64_mod}
use epsilon_db.CompressedSpace.Cpid.{page_size, make_fields}
use epsilon_db.CompressedSpace.{
  Space, BlockState, state_code, take_shared, allocate_raw_block, raw_block_location, is_raw_block,
}
use epsilon_db.CompressedSpace.Lists.{
  occurrences, occurrences-append, split_last, split_last-append,
}
use epsilon_db.CompressedSpace.Invariant.{
  listed, expected, entries, Inv, InTransit, fresh_block-InTransit,
}
use epsilon_db.CompressedSpace.Allocate.{open_up-Taken}
use epsilon_db.CompressedSpace.Ledger.{bytes_in, bytes_in-append, Balanced, seal_block_live}

-- The raw location of a block is all of that block and nothing of another.
raw_block_location-bytes_in :
    (b c : ℕ)
    → b < 2 ^ 36
    → bytes_in c (raw_block_location b ∷ []) ≡ (if b == c then page_size else 0)
unfolding bytes_in raw_block_location
raw_block_location-bytes_in b c h =
    let (eb, eo, el, on, lt) =
      make_fields b 0 page_size h (omega arith) (omega arith) (omega arith) in
    let e : (b * page_size) % u64_mod ≡ b * page_size + 0 = omega arith in
    rw (e, eb, el) (ground arith)

pop_shared-InTransit :
    {s : Space} (rest : List ℕ) (b : ℕ)
    → Inv s
    → s.shared_free_list ≡ rest ++ (b ∷ [])
    → InTransit
        (record s {
          shared_free_list = rest;
          free_blocks = (s.free_blocks + u64_mod - 1) % u64_mod;
        })
        b
unfolding listed expected entries occurrences
pop_shared-InTransit {s} rest b v e = record {
  small = v.small;
  sound = λ c. ground (arith, v.sound c);
  once = λ c. ground (arith, v.once c, ap (occurrences c) e, occurrences-append c rest (b ∷ []));
  counted = ground (arith, v.counted, ap (length {A = ℕ}) e, length-append rest (b ∷ []));
}

take_shared-InTransit :
    (s : Space)
    → Inv s
    → ((s.blocks_count ≤ s.next_unused_block) × (take_shared s ≡ fail out_of_space))
      ⊎ ((b : ℕ) × (s' : Space) × (take_shared s ≡ ok (b, s'))
          × InTransit s' b
          × (s'.blocks_count ≡ s.blocks_count)
          × (s'.block_states ≡ s.block_states)
          × (s'.live_bytes ≡ s.live_bytes))
unfolding take_shared
take_shared-InTransit s v = elim (Option-cases (split_last s.shared_free_list)) [
  | inl e ↦ rw (e, take_shared) (fresh_block-InTransit v)
  | inr ((rest, b), e) ↦ inr (
    b,
    record s { shared_free_list = rest; free_blocks = (s.free_blocks + u64_mod - 1) % u64_mod },
    rw (e, take_shared),
    pop_shared-InTransit rest b v (split_last-append s.shared_free_list rest b e),
    refl,
    refl,
    refl,
  )
]

-- In a space with its invariant, `allocateRawBlock` runs out of space only when every block was
-- used before. Otherwise it hands out a block of the database that was free, now a raw block
-- whose location is on the ledger, and changes the state of no other block.
pub allocate_raw_block_lem :
    (s : Space) (ps : List ℕ)
    → Inv s
    → Balanced s ps
    → ((s.blocks_count ≤ s.next_unused_block) × (allocate_raw_block s ≡ fail out_of_space))
      ⊎ ((b : ℕ) × (t : Space) × (allocate_raw_block s ≡ ok (b, t))
          × (state_code (s.block_states b) ≡ 0)
          × (b < s.blocks_count)
          × Inv t
          × (is_raw_block t b ≡ true)
          × Balanced t (raw_block_location b ∷ ps)
          × ((c : ℕ) → c ≢ b → t.block_states c ≡ s.block_states c))
unfolding allocate_raw_block is_raw_block
allocate_raw_block_lem s ps v bal = elim (take_shared-InTransit s v) [
  | inl (full, run) ↦ inl (full, rw run)
  | inr (b, s', run, tr, eb, es, el) ↦
      let (u, opened, k) = open_up-Taken {s = s} tr eb es el in
      let raw = λ (c : ℕ). raw_block_location-bytes_in b c (omega (arith, k.inside, v.small)) in
      let st : state_code (u.block_states b) ≡ 1 =
        ap (λ (g : ℕ → BlockState). state_code (g b)) k.states ∙ ground arith in
      let (t, sealed, inv, bal', states) =
        seal_block_live u b (raw_block_location b ∷ []) ps k.inv (omega (arith, k.inside, k.blocks))
          st (λ c. ap (λ (g : ℕ → ℕ). g c) k.live ∙ bal c) (ground (arith, raw b))
          (ground (arith, raw b)) (λ c ne. ground (arith, raw c)) in
      inr (
        b,
        t,
        rw (run, opened) (ground (arith, sealed, raw b)),
        k.was_free,
        k.inside,
        inv,
        ground (
          arith,
          ap (λ (g : ℕ → BlockState). state_code (g b)) states,
          bal' b,
          bal b,
          raw b,
          bytes_in-append b (raw_block_location b ∷ []) ps,
          (v.sound b).idle,
          k.was_free,
        ),
        bal',
        λ c ne. ground (
          arith,
          ap (λ (g : ℕ → BlockState). g c) states,
          ap (λ (g : ℕ → BlockState). g c) k.states,
          ne,
        ),
      )
]

-- A raw block is sealed.
pub is_raw_block-sealed :
    (s : Space) (b : ℕ) → is_raw_block s b ≡ true → state_code (s.block_states b) ≡ 2
unfolding is_raw_block
is_raw_block-sealed s b h = ground arith
