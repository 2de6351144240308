-- ===== src/CompressedSpace/Ledger.antt =====
-- sealBlock and free against a ledger: the list of the locations of the live pages. A block stays
-- sealed while the ledger has a page in it, and is free again with its last page.
use epsilon_db.Base.{
  ℕ, ◌+◌, ◌-◌, ◌%◌, ◌≤◌, ◌<◌, ◌≡◌, ◌≢◌, refl, Option, none, some, List, [], ◌∷◌, ◌++◌, ◌==◌,
  if◌then◌else◌, ok, fail, ensure_failed, arith, ◌∙◌, length-append, ℕ_discrete,
}
use epsilon_db.Bits.{u64_mod}
use epsilon_db.CompressedSpace.Cpid
use epsilon_db.CompressedSpace.Cpid.{page_size}
use epsilon_db.CompressedSpace.{
  free_block, sealed_block, state_code, Space, transition, release_block, free_location, free,
  seal_block,
}
use epsilon_db.CompressedSpace.Lists.{update, occurrences, occurrences-append}
use epsilon_db.CompressedSpace.Invariant.{
  listed, expected, entries, Inv, InTransit, push-Inv, push_shared-Inv,
}

-- The bytes that the locations of a list take in a block.
unfoldable pub bytes_in : ℕ → List ℕ → ℕ
bytes_in b [] = 0
bytes_in b (p ∷ ps) = (if Cpid.block p == b then Cpid.page_length p else 0) + bytes_in b ps

pub bytes_in-append :
    (b : ℕ) (ps qs : List ℕ) → bytes_in b (ps ++ qs) ≡ bytes_in b ps + bytes_in b qs
unfolding bytes_in
bytes_in-append b [] qs = omega arith
bytes_in-append b (p ∷ ps) qs = omega (arith, bytes_in-append b ps qs)

-- A location that `free` accepts: a page of the database that lies within one block.
pub record Located (s : Space) (pid : ℕ) : Type 0 where
  pub written : 0 < Cpid.page_length pid
  pub inside : Cpid.block pid < s.blocks_count
  pub whole : Cpid.offset_in_block pid + Cpid.page_length pid ≤ page_size

abbrev pub Balanced : Space → List ℕ → Type 0
Balanced s ps = (b : ℕ) → s.live_bytes b ≡ bytes_in b ps

-- The thread id of a writer, or no writer.
abbrev pub IsWriter : Space → Option ℕ → Type 0
IsWriter s none = Unit {0}
IsWriter s (some id) = id < s.writers_count

-- The space when the block's last page is gone, before it is put in a list.
abbrev emptied : Space → ℕ → Space
emptied s b = record s {
  live_bytes = update s.live_bytes b 0;
  block_states = update s.block_states b free_block;
}

emptied-InTransit :
    {s : Space} (b : ℕ)
    → Inv s
    → b < s.blocks_count
    → state_code (s.block_states b) ≡ 2
    → InTransit (emptied s b) b
unfolding listed expected entries
emptied-InTransit {s} b v lt e = record {
  small = v.small;
  sound = λ c. ground (arith, v.sound c);
  once = λ c. ground (arith, v.once c, v.sound c);
  counted = v.counted;
}

release_block-Inv :
    (s : Space) (tid : Option ℕ) (b : ℕ)
    → Inv s
    → IsWriter s tid
    → b < s.blocks_count
    → state_code (s.block_states b) ≡ 2
    → (t : Space) × (release_block (record s { live_bytes = update s.live_bytes b 0 }) tid b ≡ ok t)
      × Inv t
      × (t.live_bytes ≡ update s.live_bytes b 0)
      × (t.block_states ≡ update s.block_states b free_block)
unfolding release_block transition occurrences
release_block-Inv s none b v w lt e = (
  record (emptied s b) {
    shared_free_list = s.shared_free_list ++ (b ∷ []);
    free_blocks = (s.free_blocks + 1) % u64_mod;
  },
  ground (arith, e),
  push_shared-Inv b (emptied-InTransit b v lt e),
  refl,
  refl,
)
release_block-Inv s (some id) b v w lt e =
    let xs : List ℕ = s.writer_free_lists id ++ (b ∷ []) in
    (
      record (emptied s b) {
        writer_free_lists = update s.writer_free_lists id xs;
        free_blocks = (s.free_blocks + 1) % u64_mod;
      },
      ground (arith, e),
      push-Inv id b xs (emptied-InTransit b v lt e) w
          (λ c. omega (arith, occurrences-append c (s.writer_free_lists id) (b ∷ [])))
          (omega (arith, length-append (s.writer_free_lists id) (b ∷ []))),
      refl,
      refl,
    )

-- The live bytes of the block of a page of the ledger cover that page, and the block is sealed.
page_covered :
    (s : Space) (ps qs : List ℕ) (pid : ℕ)
    → Inv s
    → Balanced s (ps ++ (pid ∷ qs))
    → Located s pid
    → (s.live_bytes (Cpid.block pid) ≡ bytes_in (Cpid.block pid) (ps ++ qs) + Cpid.page_length pid)
      × (state_code (s.block_states (Cpid.block pid)) ≡ 2)
unfolding bytes_in
page_covered s ps qs pid v bal l =
    let b : ℕ = Cpid.block pid in
    let e : s.live_bytes b ≡ bytes_in b (ps ++ qs) + Cpid.page_length pid =
      ground (arith, bal b, bytes_in-append b ps (pid ∷ qs), bytes_in-append b ps qs) in
    (e, ground (arith, e, v.sound b, l.written))

-- Past its checks `free` subtracts the length, and releases a block that it leaves at 0.
free_past_checks :
    (s : Space) (tid : Option ℕ) (pid left : ℕ)
    → Located s pid
    → state_code (s.block_states (Cpid.block pid)) ≡ 2
    → s.live_bytes (Cpid.block pid) ≡ left + Cpid.page_length pid
    → free s tid pid ≡ (
        if left == 0
        then release_block
            (record s { live_bytes = update s.live_bytes (Cpid.block pid) left })
            tid
            (Cpid.block pid)
        else ok (record s { live_bytes = update s.live_bytes (Cpid.block pid) left }))
unfolding free free_location Cpid.on_ssd
free_past_checks s tid pid left l st e =
    let d : s.live_bytes (Cpid.block pid) - Cpid.page_length pid ≡ left = omega (arith, e) in
    rw (d) (ground (arith, l, st, e))

-- In a space with its invariant, freeing a live page of the ledger, by a writer or another
-- thread, never fails and takes the page off the ledger; its block becomes free when the ledger
-- has no page left in it, stays sealed otherwise, and no other block changes.
pub free_live :
    (s : Space) (tid : Option ℕ) (ps qs : List ℕ) (pid : ℕ)
    → Inv s
    → IsWriter s tid
    → Balanced s (ps ++ (pid ∷ qs))
    → Located s pid
    → (t : Space) × (free s tid pid ≡ ok t)
      × Inv t
      × Balanced t (ps ++ qs)
      × (t.block_states ≡ (
          if bytes_in (Cpid.block pid) (ps ++ qs) == 0
          then update s.block_states (Cpid.block pid) free_block
          else s.block_states))
unfolding bytes_in listed expected entries
free_live s tid ps qs pid v w bal l =
    let b : ℕ = Cpid.block pid in
    let left : ℕ = bytes_in b (ps ++ qs) in
    let (e, st) = page_covered s ps qs pid v bal l in
    let split = λ (c : ℕ). bytes_in-append c ps (pid ∷ qs) in
    let join = λ (c : ℕ). bytes_in-append c ps qs in
    let run = free_past_checks s tid pid left l st e in
    elim (ℕ_discrete left 0) [
      | yes z ↦
          let (t, freed, inv, live, states) = release_block-Inv s tid b v w l.inside st in
          (
            t,
            run ∙ rw z freed,
            inv,
            (λ c. rw live (ground (arith, z, bal c, split c, join c))),
            rw z states,
          )
      | no nz ↦ (
        record s { live_bytes = update s.live_bytes b left },
        ground (arith, run),
        record {
          small = v.small;
          sound = λ c. ground (arith, v.sound c, e);
          once = v.once;
          counted = v.counted;
        },
        (λ c. ground (arith, bal c, split c, join c)),
        ground arith,
      )
    ]

-- In a space with its invariant, freeing a page whose block has fewer live bytes on the ledger
-- than the page's length, which is not 0, is caught, whoever frees it: a second free of the last
-- page of a block among these.
pub free_dead :
    (s : Space) (tid : Option ℕ) (ps : List ℕ) (pid : ℕ)
    → Inv s
    → Balanced s ps
    → 0 < Cpid.page_length pid
    → bytes_in (Cpid.block pid) ps < Cpid.page_length pid
    → free s tid pid ≡ fail ensure_failed
unfolding free free_location Cpid.on_ssd
free_dead s tid ps pid v bal n h = ground (arith, bal (Cpid.block pid))

-- `free` of a location that was never written does nothing.
pub free_unwritten :
    (s : Space) (tid : Option ℕ) (pid : ℕ) → Cpid.page_length pid ≡ 0 → free s tid pid ≡ ok s
unfolding free Cpid.on_ssd
free_unwritten s tid pid h = ground arith

-- In a space with its invariant, sealing an open block with the bytes of the pages packed into
-- it, all of them in that block, at least one byte and at most a block, puts those pages on the
-- ledger; the block is then sealed, and no other block changes.
pub seal_block_live :
    (s : Space) (b : ℕ) (packed ps : List ℕ)
    → Inv s
    → b < s.blocks_count
    → state_code (s.block_states b) ≡ 1
    → Balanced s ps
    → 0 < bytes_in b packed
    → bytes_in b packed ≤ page_size
    → ((c : ℕ) → c ≢ b → bytes_in c packed ≡ 0)
    → (t : Space) × (seal_block s b (bytes_in b packed) ≡ ok t)
      × Inv t
      × Balanced t (packed ++ ps)
      × (t.block_states ≡ update s.block_states b sealed_block)
unfolding seal_block transition listed expected entries
seal_block_live s b packed ps v lt st bal pos small others = (
  record s {
    block_states = update s.block_states b sealed_block;
    live_bytes = update s.live_bytes b (bytes_in b packed);
  },
  ground (arith, st, v.sound b),
  record {
    small = v.small;
    sound = λ c. ground (arith, v.sound c);
    once = λ c. ground (arith, v.once c, st);
    counted = v.counted;
  },
  (λ c. ground (arith, bal c, bal b, v.sound b, bytes_in-append c packed ps, others c)),
  refl,
)
