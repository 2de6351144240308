-- ===== src/CompressedSpace/Allocate.antt =====
-- allocateBlock, allocateRawBlock, sealBlock: a block is handed out once, and only when it is free.
use epsilon_db.Base.{
  ℕ, ◌-◌, ◌≤◌, ◌<◌, ◌≡◌, ◌⊎◌, inl, inr, refl, some, List, [], ◌∷◌, length, take, drop, min, ok,
  fail, out_of_space, arith, ap, ◌∙◌, lt→ltb, length-drop,
}
use epsilon_db.CompressedSpace.{
  BlockState, open_block, state_code, Space, open_up, refill, writer_id, allocate_from,
  allocate_block,
}
use epsilon_db.CompressedSpace.Lists.{update, occurrences, occurrences-split, length-split}
use epsilon_db.CompressedSpace.Invariant.{
  listed, expected, Inv, InTransit, InTransit-free, open_up-Inv, fresh_block-InTransit,
  pop-InTransit, move-Inv,
}

-- What a call leaves alone.
pub record Same (s t : Space) : Type 0 where
  pub writers : t.writers_count ≡ s.writers_count
  pub blocks : t.blocks_count ≡ s.blocks_count
  pub next : t.next_unused_block ≡ s.next_unused_block
  pub states : t.block_states ≡ s.block_states
  pub live : t.live_bytes ≡ s.live_bytes

refill_cases :
    (s : Space) (id : ℕ) (xs : List ℕ)
    → s.writer_free_lists id ≡ xs
    → Inv s
    → id < s.writers_count
    → Inv (refill s id) × Same s (refill s id)
unfolding refill occurrences
refill_cases s id [] e v lt =
    let k : ℕ = length s.shared_free_list - min (length s.shared_free_list) 64 in
    rw (e, refill)
      (
        move-Inv id (drop k s.shared_free_list) (take k s.shared_free_list) v lt
            (λ c. omega (arith, occurrences-split c k s.shared_free_list, ap (occurrences c) e))
            (omega (arith, length-split k s.shared_free_list, ap (length {A = ℕ}) e)),
        record { writers = refl; blocks = refl; next = refl; states = refl; live = refl },
      )
refill_cases s id (x ∷ xs) e v lt =
    rw (e, refill)
      (v, record { writers = refl; blocks = refl; next = refl; states = refl; live = refl })

-- What a successful allocation does: it hands out a block of the database that was free, opens it,
-- and changes no other block.
pub record Taken (s : Space) (b : ℕ) (t : Space) : Type 0 where
  pub inv : Inv t
  pub was_free : state_code (s.block_states b) ≡ 0
  pub inside : b < s.blocks_count
  pub states : t.block_states ≡ update s.block_states b open_block
  pub live : t.live_bytes ≡ s.live_bytes
  pub unlisted : listed t b ≡ 0
  pub blocks : t.blocks_count ≡ s.blocks_count

pub open_up-Taken :
    {s u : Space} {b : ℕ}
    → InTransit u b
    → u.blocks_count ≡ s.blocks_count
    → u.block_states ≡ s.block_states
    → u.live_bytes ≡ s.live_bytes
    → (t : Space) × (open_up u b ≡ ok (b, t)) × Taken s b t
unfolding expected
open_up-Taken {s} {u} {b} tr eb es el =
    let (t, run, inv, states, live, blocks) = open_up-Inv tr in
    let f = InTransit-free tr in
    (
      t,
      run,
      record {
        inv = inv;
        was_free = ground (arith, f, ap (λ (g : ℕ → BlockState). state_code (g b)) es);
        inside = omega (arith, f, eb);
        states = states ∙ ap (λ (g : ℕ → BlockState). update g b open_block) es;
        live = live ∙ el;
        blocks = blocks ∙ eb;
        unlisted = ground (arith, inv.once b, ap (λ (g : ℕ → BlockState). state_code (g b)) states);
      },
    )

-- `s` is the space before the refill, which leaves blocks and states alone.
allocate_from_cases :
    (s u : Space) (id : ℕ) (xs : List ℕ)
    → u.writer_free_lists id ≡ xs
    → Inv u
    → Same s u
    → id < s.writers_count
    → ((xs ≡ [])
        × (s.blocks_count ≤ s.next_unused_block)
        × (allocate_from u id ≡ fail out_of_space))
      ⊎ ((b : ℕ) × (t : Space) × (allocate_from u id ≡ ok (b, t)) × Taken s b t)
unfolding allocate_from
allocate_from_cases s u id [] e v same lt = elim (fresh_block-InTransit v) [
  | inl (full, run) ↦ inl (refl, omega (arith, same.blocks, same.next), rw (e, run, allocate_from))
  | inr (b, u', run, tr, eb, es, el) ↦
      let (t, run', taken) =
        open_up-Taken {s = s} tr (eb ∙ same.blocks) (es ∙ same.states) (el ∙ same.live) in
      inr (b, t, rw (e, allocate_from, run) run', taken)
]
allocate_from_cases s u id (x ∷ rest) e v same lt =
    let tr = pop-InTransit id x rest v (omega (arith, same.writers)) e in
    let (t, run, taken) = open_up-Taken {s = s} tr same.blocks same.states same.live in
    inr (x, t, rw (e, allocate_from) run, taken)

nil_of_length : (xs : List ℕ) → length xs ≡ 0 → xs ≡ []
nil_of_length [] h = refl
nil_of_length (x ∷ xs) h = absurd (omega arith)

refill-nil :
    (s : Space) (id : ℕ) (xs : List ℕ)
    → s.writer_free_lists id ≡ xs
    → (refill s id).writer_free_lists id ≡ []
    → (s.writer_free_lists id ≡ []) × (s.shared_free_list ≡ [])
unfolding refill
refill-nil s id [] e r =
    let k : ℕ = length s.shared_free_list - min (length s.shared_free_list) 64 in
    let d : drop k s.shared_free_list ≡ [] = ground (arith, e, r) in
    (
      e,
      nil_of_length s.shared_free_list
          (omega (arith, ap (length {A = ℕ}) d, length-drop k s.shared_free_list)),
    )
refill-nil s id (x ∷ xs) e r = ground (arith, e, r)

-- In a space with its invariant and for a valid thread id, `allocateBlock` either fails, when
-- the writer's list and the shared list are empty and every block was used before, or hands out
-- a block of the database that was free and is now open, keeps the invariant and changes no
-- other block.
pub allocate_block_lem :
    (s : Space) (id : ℕ)
    → Inv s
    → id < s.writers_count
    → ((s.writer_free_lists id ≡ [])
        × (s.shared_free_list ≡ [])
        × (s.blocks_count ≤ s.next_unused_block)
        × (allocate_block s (some id) ≡ fail out_of_space))
      ⊎ ((b : ℕ) × (t : Space) × (allocate_block s (some id) ≡ ok (b, t)) × Taken s b t)
unfolding allocate_block writer_id
allocate_block_lem s id v lt =
    let (v', same) = refill_cases s id (s.writer_free_lists id) refl v lt in
    elim (allocate_from_cases s (refill s id) id ((refill s id).writer_free_lists id) refl v' same
      lt) [
        | inl (e, full, run) ↦
            let (mine, shared) = refill-nil s id (s.writer_free_lists id) refl e in
            inl (mine, shared, full, rw (lt→ltb _ _ lt) run)
        | inr (b, t, run, taken) ↦ inr (b, t, rw (lt→ltb _ _ lt) run, taken)
      ]
