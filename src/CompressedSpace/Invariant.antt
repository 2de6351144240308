-- ===== src/CompressedSpace/Invariant.antt =====
-- Every block is free and in one free list, being packed, sealed with live bytes, or never used.
use epsilon_db.Base.{
  ℕ, zero, suc, ◌+◌, ◌-◌, ◌%◌, ◌^◌, ◌≤◌, ◌<◌, ◌≡◌, ◌⊎◌, inl, inr, refl, ◌&&◌, List, [], ◌∷◌, ◌++◌,
  ◌==◌, ltb, if◌then◌else◌, length, ok, fail, out_of_space, arith, ap, length-append, dec_lt,
}
use epsilon_db.Bits.{u64_mod}
use epsilon_db.CompressedSpace.Cpid.{page_size}
use epsilon_db.CompressedSpace.{
  free_block, open_block, state_code, is_state, Space, transition, open_up, fresh_block, init,
  exchange_block_ru_epoch,
}
use epsilon_db.CompressedSpace.Lists.{update, occurrences, occurrences-append, total, total-update}

-- How often a block stands in the free lists, and how many entries they have.
unfoldable pub listed : Space → ℕ → ℕ
listed s b =
    occurrences b s.shared_free_list + total (occurrences b) s.writers_count s.writer_free_lists

unfoldable pub entries : Space → ℕ
entries s = length s.shared_free_list + total length s.writers_count s.writer_free_lists

-- The blocks that must stand in a free list: the free ones that were used before.
unfoldable pub expected : Space → ℕ → ℕ
expected s b =
    if is_state (s.block_states b) free_block && (ltb b s.next_unused_block && ltb b s.blocks_count)
    then 1
    else 0

-- What holds of one block, whatever the lists hold.
pub record Sound (s : Space) (b : ℕ) : Type 0 where
  pub idle : state_code (s.block_states b) < 2 → s.live_bytes b ≡ 0
  pub live : state_code (s.block_states b) ≡ 2 → (0 < s.live_bytes b) × (s.live_bytes b ≤ page_size)
  pub unused : s.next_unused_block ≤ b → state_code (s.block_states b) ≡ 0
  pub outside : s.blocks_count ≤ b → state_code (s.block_states b) ≡ 0

pub record Inv (s : Space) : Type 0 where
  pub small : s.blocks_count ≤ 2 ^ 36
  pub sound : (b : ℕ) → Sound s b
  pub once : (b : ℕ) → listed s b ≡ expected s b
  pub counted : s.free_blocks ≡ entries s % 2 ^ 64

-- The same while a free block is on its way into or out of the lists.
pub record InTransit (s : Space) (block : ℕ) : Type 0 where
  pub small : s.blocks_count ≤ 2 ^ 36
  pub sound : (b : ℕ) → Sound s b
  pub once : (b : ℕ) → listed s b + (if block == b then 1 else 0) ≡ expected s b
  pub counted : s.free_blocks ≡ entries s % 2 ^ 64

-- A block in transit is free, was used before and is a block of the database.
pub InTransit-free :
    {s : Space} {b : ℕ}
    → InTransit s b
    → (state_code (s.block_states b) ≡ 0)
      × (b < s.next_unused_block)
      × (b < s.blocks_count)
      × (s.live_bytes b ≡ 0)
      × (listed s b ≡ 0)
unfolding expected
InTransit-free {s} {b} t = ground (arith, t.once b, (t.sound b).idle)

pub open_up-Inv :
    {s : Space} {b : ℕ}
    → InTransit s b
    → (s' : Space) × (open_up s b ≡ ok (b, s'))
      × Inv s'
      × (s'.block_states ≡ update s.block_states b open_block)
      × (s'.live_bytes ≡ s.live_bytes)
      × (s'.blocks_count ≡ s.blocks_count)
unfolding open_up transition listed entries expected
open_up-Inv {s} {b} t =
    let f = InTransit-free t in
    (
      record s { block_states = update s.block_states b open_block },
      ground (arith, f),
      record {
        small = t.small;
        sound = λ c. ground (arith, t.sound c, f);
        once = λ c. ground (arith, t.once c, f);
        counted = t.counted;
      },
      refl,
      refl,
      refl,
    )

total-nil : (m : List ℕ → ℕ) (n : ℕ) → m [] ≡ 0 → total m n (λ _. []) ≡ 0
unfolding total
total-nil m zero h = refl
total-nil m (suc n) h = omega (arith, total-nil m n h, h)

pub init-Inv : (blocks pages writers : ℕ) → blocks ≤ 2 ^ 36 → Inv (init blocks pages writers)
unfolding init listed entries expected occurrences
init-Inv blocks pages writers h = record {
  small = h;
  sound = λ c. ground arith;
  once = λ c. ground (arith, total-nil (occurrences c) writers refl);
  counted = ground (arith, total-nil length writers refl);
}

-- A block that was never used comes into transit; otherwise the space is out of blocks.
pub fresh_block-InTransit :
    {s : Space}
    → Inv s
    → ((s.blocks_count ≤ s.next_unused_block) × (fresh_block s ≡ fail out_of_space))
      ⊎ ((b : ℕ) × (s' : Space) × (fresh_block s ≡ ok (b, s'))
          × InTransit s' b
          × (s'.blocks_count ≡ s.blocks_count)
          × (s'.block_states ≡ s.block_states)
          × (s'.live_bytes ≡ s.live_bytes))
unfolding fresh_block listed entries expected
fresh_block-InTransit {s} v = elim (dec_lt s.next_unused_block s.blocks_count) [
  | yes p ↦ inr (
    s.next_unused_block,
    record s { next_unused_block = s.next_unused_block + 1 },
    ground (arith, v.small),
    record {
      small = v.small;
      sound = λ c. ground (arith, v.sound c);
      once =
          λ c. ground (arith, v.once c, (v.sound c).unused, (v.sound s.next_unused_block).unused);
      counted = v.counted;
    },
    refl,
    refl,
    refl,
  )
  | no p ↦ inl (omega arith, ground arith)
]

-- Popping a block from a writer's list, wherever the rest goes in that list.
pub pop-InTransit :
    {s : Space} (id b : ℕ) (rest : List ℕ)
    → Inv s
    → id < s.writers_count
    → s.writer_free_lists id ≡ b ∷ rest
    → InTransit
        (record s {
          writer_free_lists = update s.writer_free_lists id rest;
          free_blocks = (s.free_blocks + u64_mod - 1) % u64_mod;
        })
        b
unfolding listed entries expected occurrences
pop-InTransit {s} id b rest v lt e = record {
  small = v.small;
  sound = λ c. ground (arith, v.sound c);
  once = λ c. ground (
    arith,
    v.once c,
    total-update (occurrences c) s.writers_count s.writer_free_lists id rest lt,
    ap (occurrences c) e,
  );
  counted = ground (
    arith,
    v.counted,
    total-update length s.writers_count s.writer_free_lists id rest lt,
    ap (length {A = ℕ}) e,
  );
}

-- Putting a block in transit at either end of a writer's list, or at the end of the shared one.
pub push-Inv :
    {s : Space} (id b : ℕ) (xs : List ℕ)
    → InTransit s b
    → id < s.writers_count
    → ((c : ℕ)
        → occurrences c xs ≡ occurrences c (s.writer_free_lists id) + (if b == c then 1 else 0))
    → length xs ≡ length (s.writer_free_lists id) + 1
    → Inv (record s {
      writer_free_lists = update s.writer_free_lists id xs;
      free_blocks = (s.free_blocks + 1) % u64_mod;
    })
unfolding listed entries expected
push-Inv {s} id b xs t lt occ len = record {
  small = t.small;
  sound = λ c. ground (arith, t.sound c);
  once = λ c. ground (
    arith,
    t.once c,
    total-update (occurrences c) s.writers_count s.writer_free_lists id xs lt,
    occ c,
  );
  counted =
      ground
        (arith, t.counted, total-update length s.writers_count s.writer_free_lists id xs lt, len);
}

pub push_shared-Inv :
    {s : Space} (b : ℕ)
    → InTransit s b
    → Inv (record s {
      shared_free_list = s.shared_free_list ++ (b ∷ []);
      free_blocks = (s.free_blocks + 1) % u64_mod;
    })
unfolding listed entries expected occurrences
push_shared-Inv {s} b t = record {
  small = t.small;
  sound = λ c. ground (arith, t.sound c);
  once = λ c. ground (arith, t.once c, occurrences-append c s.shared_free_list (b ∷ []));
  counted = ground (arith, t.counted, length-append s.shared_free_list (b ∷ []));
}

-- Moving entries between the shared list and a writer's list.
pub move-Inv :
    {s : Space} (id : ℕ) (mine shared : List ℕ)
    → Inv s
    → id < s.writers_count
    → ((c : ℕ)
        → occurrences c mine + occurrences c shared
          ≡ occurrences c (s.writer_free_lists id) + occurrences c s.shared_free_list)
    → length mine + length shared ≡ length (s.writer_free_lists id) + length s.shared_free_list
    → Inv (record s {
      writer_free_lists = update s.writer_free_lists id mine;
      shared_free_list = shared;
    })
unfolding listed entries expected
move-Inv {s} id mine shared v lt occ len = record {
  small = v.small;
  sound = λ c. ground (arith, v.sound c);
  once = λ c. ground (
    arith,
    v.once c,
    total-update (occurrences c) s.writers_count s.writer_free_lists id mine lt,
    occ c,
  );
  counted =
      ground
        (arith, v.counted, total-update length s.writers_count s.writer_free_lists id mine lt, len);
}

-- The RU epoch of a block is no part of the invariant.
pub exchange_block_ru_epoch-Inv :
    {s : Space} (b e : ℕ)
    → Inv s
    → Inv (exchange_block_ru_epoch s b e).1
      × ((exchange_block_ru_epoch s b e).1.block_states ≡ s.block_states)
      × ((exchange_block_ru_epoch s b e).1.live_bytes ≡ s.live_bytes)
unfolding exchange_block_ru_epoch listed entries expected
exchange_block_ru_epoch-Inv {s} b e v = (
  record {
    small = v.small;
    sound = λ c.
        let k = v.sound c in
        record { idle = k.idle; live = k.live; unused = k.unused; outside = k.outside };
    once = v.once;
    counted = v.counted;
  },
  refl,
  refl,
)
