-- ===== src/LbaChain/Disk.antt =====
-- The linked list of chain blocks of an RU epoch: what `readChain` reads, and what sealing a
-- block adds.
use mathlib.Core.Path.{subst}
use epsilon_db.Base.{
  ℕ, zero, suc, ◌+◌, ◌%◌, ◌^◌, ◌≤◌, ◌<◌, ◌≡◌, ◌≢◌, ◌⊎◌, inl, inr, refl, true, List, [], ◌∷◌, ◌++◌,
  length, take, ok, fail, out_of_space, arith, ap, sym, ◌∙◌,
}
use epsilon_db.Units.{invalid_pid}
use epsilon_db.CompressedSpace.{Space, state_code, raw_block_location, exchange_block_ru_epoch}
use epsilon_db.CompressedSpace.Lists.{update, update_self}
use epsilon_db.CompressedSpace.Invariant.{Inv, exchange_block_ru_epoch-Inv}
use epsilon_db.CompressedSpace.Ledger.{Balanced}
use epsilon_db.CompressedSpace.Raw.{allocate_raw_block_lem, is_raw_block-sealed}
use epsilon_db.LbaChain.{
  ChainBlock, Chain, magic, capacity, block, control, read_chain, seal, write_block,
  sealed_block_of, count_block_write, recycle_slot, written,
}

-- The blocks of a list stand on the device, each at its PID, linked from the first.
unfoldable pub Linked : (ℕ → ChainBlock) → ℕ → ℕ → List ChainBlock → Type 0
Linked disk e pid [] = pid ≡ invalid_pid
Linked disk e pid (b ∷ bs) =
    (pid ≢ invalid_pid)
    × (disk pid ≡ b)
    × (b.magic_number ≡ magic)
    × (b.pid ≡ pid)
    × (b.ru_epoch ≡ e)
    × (b.count ≤ capacity)
    × Linked disk e b.prev bs

-- They are sealed blocks of the space.
unfoldable pub Kept : Space → List ChainBlock → Type 0
Kept space [] = Unit {0}
Kept space (b ∷ bs) = (state_code (space.block_states b.pid) ≡ 2) × Kept space bs

-- What a reader of the list gets.
unfoldable pub listing : List ChainBlock → List ℕ
listing [] = []
listing (b ∷ bs) = take b.count b.entries ++ listing bs

unfoldable pub places : List ChainBlock → List (ℕ × ℕ)
places [] = []
places (b ∷ bs) = (b.pid, b.written_ru_epoch) ∷ places bs

-- `readChain` of a linked list ends, after a round for each block and one more, with the listing.
read_chain-Linked :
    (n : ℕ) (disk : ℕ → ChainBlock) (e pid : ℕ) (bs : List ChainBlock)
    → Linked disk e pid bs
    → length bs < n
    → read_chain n disk pid e ≡ ok (listing bs, places bs)
unfolding read_chain Linked listing places
read_chain-Linked zero disk e pid bs l h = absurd (omega arith)
read_chain-Linked (suc n) disk e pid [] l h = ground (arith, l)
read_chain-Linked (suc n) disk e pid (b ∷ bs) l h =
    let (valid, at, m, p, u, c, rest) = l in
    rw (at, read_chain-Linked n disk e b.prev bs rest (omega arith))
      (ground (arith, valid, m, p, u, c))

Linked-update :
    (disk : ℕ → ChainBlock) (e pid new : ℕ) (x : ChainBlock) (space : Space) (bs : List ChainBlock)
    → Linked disk e pid bs
    → Kept space bs
    → state_code (space.block_states new) ≡ 0
    → Linked (update disk new x) e pid bs
unfolding Linked Kept
Linked-update disk e pid new x space [] l k f = l
Linked-update disk e pid new x space (b ∷ bs) l k f =
    let (valid, at, m, p, u, c, rest) = l in
    let ne : pid ≢ new = λ q. ground (arith, k.0, f, p, q) in
    (
      valid,
      ground (arith, ne, at),
      m,
      p,
      u,
      c,
      Linked-update disk e b.prev new x space bs rest k.1 f,
    )

Kept-frame :
    (space space' : Space) (new : ℕ) (bs : List ChainBlock)
    → Kept space bs
    → state_code (space.block_states new) ≡ 0
    → ((c : ℕ) → c ≢ new → space'.block_states c ≡ space.block_states c)
    → Kept space' bs
unfolding Kept
Kept-frame space space' new [] k f same = tt
Kept-frame space space' new (b ∷ bs) k f same = (
  ap state_code (same b.pid (λ q. ground (arith, k.0, f, q))) ∙ k.0,
  Kept-frame space space' new bs k.1 f same,
)

count_block_write-space :
    (s : Chain) (b e : ℕ)
    → (count_block_write s b e).space ≡ (exchange_block_ru_epoch s.space b e).1
unfolding count_block_write
count_block_write-space s b e = ground arith

-- The chain after `seal` wrote the block `seq` to `pid`, over the space with the new raw block.
abbrev after_seal : Chain → ℕ → ℕ → Space → Chain
after_seal s seq pid space = recycle_slot (written (record s { space = space }) seq pid) seq

-- What that leaves of the space, the device and the heads.
after_seal-parts :
    (s : Chain) (seq pid : ℕ) (space : Space)
    → ((after_seal s seq pid space).space
        ≡ (exchange_block_ru_epoch space pid s.current_ru_epoch).1)
      × ((after_seal s seq pid space).disk ≡ update s.disk pid (sealed_block_of s seq pid))
      × ((after_seal s seq pid space).heads
          ≡ update s.heads ((block s seq).ru_epoch % s.max_open_ru_epochs) pid)
unfolding recycle_slot written sealed_block_of block control
after_seal-parts s seq pid space = (count_block_write-space _ pid s.current_ru_epoch, refl, refl)

take-append : (n : ℕ) (xs ys : List ℕ) → n ≤ length xs → take n (take n xs ++ ys) ≡ take n xs
take-append zero xs ys h = refl
take-append (suc n) [] ys h = absurd (omega arith)
take-append (suc n) (x ∷ xs) ys h = ap (λ (t : List ℕ). x ∷ t) (take-append n xs ys (omega arith))

-- The new block on the device is the head of the list.
Linked-seal :
    (s : Chain) (seq pid : ℕ) (bs : List ChainBlock)
    → Linked s.disk
        (block s seq).ru_epoch
        (s.heads ((block s seq).ru_epoch % s.max_open_ru_epochs))
        bs
    → Kept s.space bs
    → state_code (s.space.block_states pid) ≡ 0
    → pid < 2 ^ 36
    → (control s seq).reserved ≤ capacity
    → Linked
        (update s.disk pid (sealed_block_of s seq pid))
        (block s seq).ru_epoch
        pid
        (sealed_block_of s seq pid ∷ bs)
unfolding Linked sealed_block_of
Linked-seal s seq pid bs l k f small fits =
    let b = block s seq in
    let x = sealed_block_of s seq pid in
    (
      (λ q. omega arith),
      ground arith,
      refl,
      refl,
      refl,
      fits,
      Linked-update s.disk b.ru_epoch (s.heads (b.ru_epoch % s.max_open_ru_epochs)) pid x s.space bs
          l k f,
    )

listing-seal :
    (s : Chain) (seq pid : ℕ) (bs : List ChainBlock)
    → (control s seq).reserved ≤ capacity
    → length (block s seq).entries ≡ capacity
    → listing (sealed_block_of s seq pid ∷ bs)
      ≡ take (control s seq).reserved (block s seq).entries ++ listing bs
unfolding listing sealed_block_of
listing-seal s seq pid bs fits full =
    ap (λ (t : List ℕ). t ++ listing bs) (take-append _ (block s seq).entries _ (omega arith))

read_chain-seal :
    (s : Chain) (seq pid : ℕ) (bs : List ChainBlock) (n : ℕ)
    → Linked s.disk
        (block s seq).ru_epoch
        (s.heads ((block s seq).ru_epoch % s.max_open_ru_epochs))
        bs
    → Kept s.space bs
    → state_code (s.space.block_states pid) ≡ 0
    → pid < 2 ^ 36
    → (control s seq).reserved ≤ capacity
    → length (block s seq).entries ≡ capacity
    → length bs + 1 < n
    → read_chain n (update s.disk pid (sealed_block_of s seq pid)) pid (block s seq).ru_epoch
      ≡ ok (
        take (control s seq).reserved (block s seq).entries ++ listing bs,
        (pid, s.current_ru_epoch) ∷ places bs,
      )
unfolding places sealed_block_of
read_chain-seal s seq pid bs n l k f small fits full more =
    read_chain-Linked n _ (block s seq).ru_epoch pid (sealed_block_of s seq pid ∷ bs)
      (Linked-seal s seq pid bs l k f small fits) (omega arith)
    ∙ ap (λ (t : List ℕ). ok (t, (pid, s.current_ru_epoch) ∷ places bs))
        (listing-seal s seq pid bs fits full)

-- Sealing a filled block with entries, in a space with its invariant where the RU epoch's chain
-- is linked on the device in sealed blocks and the counters belong to the open RU epoch, runs
-- out of blocks only when every block was used before. Otherwise its RU epoch's chain reads as
-- the entries of the block, in the order they were recorded, followed by what it read before,
-- and no chain under another head changes; the raw block it was written to is on the ledger, and
-- the chain stands in sealed blocks again.
pub seal-read_chain :
    (s : Chain) (seq : ℕ) (ps : List ℕ) (bs : List ChainBlock)
    → Inv s.space
    → Balanced s.space ps
    → Linked s.disk
        (block s seq).ru_epoch
        (s.heads ((block s seq).ru_epoch % s.max_open_ru_epochs))
        bs
    → Kept s.space bs
    → 0 < (control s seq).reserved
    → (control s seq).reserved ≤ capacity
    → length (block s seq).entries ≡ capacity
    → s.set_ru_epochs (s.current_ru_epoch % s.sets_count) ≡ s.current_ru_epoch
    → ((s.space.blocks_count ≤ s.space.next_unused_block) × (seal s seq ≡ fail out_of_space))
      ⊎ ((pid : ℕ) × (t : Chain) × (seal s seq ≡ ok (true, t))
          × Inv t.space
          × Balanced t.space (raw_block_location pid ∷ ps)
          × Kept t.space (sealed_block_of s seq pid ∷ bs)
          × ((n : ℕ)
              → length bs + 1 < n
              → read_chain n t.disk
                  (t.heads ((block s seq).ru_epoch % s.max_open_ru_epochs))
                  (block s seq).ru_epoch
                ≡ ok (
                  take (control s seq).reserved (block s seq).entries ++ listing bs,
                  (pid, s.current_ru_epoch) ∷ places bs,
                ))
          × ((e : ℕ) (cs : List ChainBlock) (n : ℕ)
              → e % s.max_open_ru_epochs ≢ (block s seq).ru_epoch % s.max_open_ru_epochs
              → Linked s.disk e (s.heads (e % s.max_open_ru_epochs)) cs
              → Kept s.space cs
              → length cs < n
              → read_chain n t.disk (t.heads (e % s.max_open_ru_epochs)) e
                ≡ ok (listing cs, places cs)))
unfolding seal write_block Kept sealed_block_of
seal-read_chain s seq ps bs v bal l k some_entries fits full h =
    let b = block s seq in
    let j : ℕ = b.ru_epoch % s.max_open_ru_epochs in
    elim (allocate_raw_block_lem s.space ps v bal) [
      | inl (all_used, run) ↦ inl (all_used, rw run (ground (arith, some_entries)))
      | inr (pid, space, run, was_free, inside, inv, raw, bal', same) ↦
          let (es, ed, eh) = after_seal-parts s seq pid space in
          let (inv', states, live) = exchange_block_ru_epoch-Inv pid s.current_ru_epoch inv in
          let stays = λ (c : ℕ) (ne : c ≢ pid).
            ap (λ (x : Space). x.block_states c) es ∙ (ap (λ g. g c) states ∙ same c ne) in
          inr (
            pid,
            after_seal s seq pid space,
            rw (run, h) (ground (arith, some_entries)),
            subst Inv (sym es) inv',
            (λ c. ap (λ (x : Space). x.live_bytes c) es ∙ (ap (λ g. g c) live ∙ bal' c)),
            (
              ap (λ (x : Space). state_code (x.block_states pid)) es
                  ∙ (ap (λ g. state_code (g pid)) states ∙ is_raw_block-sealed space pid raw),
              Kept-frame s.space (after_seal s seq pid space).space pid bs k was_free stays,
            ),
            (λ n more.
                rw (ed, eh, update_self s.heads j pid)
                  (read_chain-seal s seq pid bs n l k was_free (omega (arith, inside, v.small)) fits
                    full more)),
            (λ e cs n ne l' k' more.
                let old : update s.heads j pid (e % s.max_open_ru_epochs)
                    ≡ s.heads (e % s.max_open_ru_epochs) =
                  ground (arith, ne) in
                rw (ed, eh, old)
                  (read_chain-Linked n _ e _ cs
                    (Linked-update s.disk e _ pid _ s.space cs l' k' was_free) more)),
          )
    ]
