-- ===== src/LbaChain/History.antt =====
-- From `record` to `readChain`: what the writers recorded is what a reader finds.
use mathlib.Core.Path.{subst}
use native.Mathlib.Nat.{zero-add, suc-mod, mod-lt, mod_self, mod-eq_of_lt}
use epsilon_db.Base.{
  ℕ, suc, ◌+◌, ◌%◌, ◌^◌, ◌≤◌, ◌<◌, ◌≡◌, ◌≢◌, ◌⊎◌, inl, inr, refl, true, some, List, [], ◌∷◌, ◌++◌,
  map, length, take, ok, fail, out_of_space, arith, ap, sym, ◌∙◌, dec_lt,
}
use epsilon_db.CompressedSpace.Invariant.{Inv}
use epsilon_db.CompressedSpace.Ledger.{Balanced}
use epsilon_db.LbaChain.{
  ChainBlock, Chain, Outcome, returns, capacity, word_seq, word_count, block, control, activated,
  activate_next, marked_closed, close_round, close_active_block, fill_entry, filled_up, seal,
  read_chain,
}
use epsilon_db.LbaChain.Filling.{
  Filled, word_count_lem, record_round-fill_entry, fill_entry-Filled, record_all, record_all_lem,
  Valid, record_pids, record_pids-record_all,
}
use epsilon_db.LbaChain.Disk.{Linked, Kept, listing, places, seal-read_chain}

-- The next block stands in another slot of the ring.
next_slot : (n seq : ℕ) → 2 ≤ n → (seq + 1) % n ≢ seq % n
next_slot n seq h q =
    let r : ℕ = seq % n in
    let e : (seq + 1) % n ≡ suc r % n = ap (λ (k : ℕ). k % n) (omega arith) ∙ suc-mod seq n in
    elim (dec_lt (suc r) n) [
      | yes p ↦ omega (arith, e, q, mod-eq_of_lt p)
      | no p ↦
          let full : suc r ≡ n = omega (arith, mod-lt seq {m = n} (omega arith)) in
          omega (arith, e, q, ap (λ (k : ℕ). k % n) full, mod_self n)
    ]

-- Closing a block that no writer filled up, when the next slot is free.
close_active_block-Filled :
    (s : Chain) (c e : ℕ)
    → Filled s c
    → c ≤ capacity
    → 2 ≤ s.n_blocks
    → word_seq (control s (s.active_seq + 1)).word ≡ (s.active_seq + 1) % 2 ^ 32
    → close_active_block s e ≡ ok (some (activated (marked_closed s) s.active_seq c e))
unfolding close_active_block close_round activate_next marked_closed control
close_active_block-Filled s c e f h two free =
    let cnt : word_count (control s s.active_seq).word ≡ c =
      ap word_count f.reserved ∙ word_count_lem (s.active_seq % 2 ^ 32) c (omega arith) in
    rw cnt (ground (arith, f.reserved, next_slot s.n_blocks s.active_seq two, free))

closed-parts :
    (s : Chain) (c e : ℕ)
    → Filled s c
    → 2 ≤ s.n_blocks
    → ((control (activated (marked_closed s) s.active_seq c e) s.active_seq).reserved ≡ c)
      × ((control (activated (marked_closed s) s.active_seq c e) s.active_seq).filled ≡ c)
      × (block (activated (marked_closed s) s.active_seq c e) s.active_seq ≡ block s s.active_seq)
unfolding activated marked_closed control block
closed-parts s c e f two =
    let ne = next_slot s.n_blocks s.active_seq two in
    (ground arith, ground (arith, f.filled), ground (arith, ne))

abbrev nothing : ChainBlock
nothing = record {
  magic_number = 0;
  pid = 0;
  prev = 0;
  ru_epoch = 0;
  written_ru_epoch = 0;
  count = 0;
  pad = 0;
  entries = [];
}

-- All of the chain but the ring.
abbrev elsewhere : Chain → Chain
elsewhere s = record s {
  controls = λ _. record { word = 0; filled = 0; reserved = 0 };
  blocks = λ _. nothing;
  active_seq = 0;
}

fill_entry-control :
    (s : Chain) (c pid : ℕ)
    → 2 ≤ s.n_blocks
    → control (fill_entry s s.active_seq c pid) (s.active_seq + 1) ≡ control s (s.active_seq + 1)
unfolding fill_entry control
fill_entry-control s c pid two = ground (arith, next_slot s.n_blocks s.active_seq two)

-- Recording changes no other slot and nothing elsewhere.
record_all-elsewhere :
    (pids : List ℕ) (s : Chain) (c : ℕ)
    → Filled s c
    → c + length pids ≤ capacity
    → 2 ≤ s.n_blocks
    → (elsewhere (record_all s pids).1 ≡ elsewhere s)
      × (control (record_all s pids).1 (s.active_seq + 1) ≡ control s (s.active_seq + 1))
unfolding fill_entry
record_all-elsewhere [] s c f h two = (refl, refl)
record_all-elsewhere (pid ∷ pids) s c f h two =
    let small : c < capacity = omega arith in
    let q = record_round-fill_entry s c pid f small in
    let t = fill_entry s s.active_seq c pid in
    let k =
      record_all-elsewhere pids t (c + 1) (fill_entry-Filled s c pid f small) (omega arith) two in
    rw q (k.0, k.1 ∙ fill_entry-control s c pid two)

-- Closing and sealing a block with entries, all of them filled.
seal-close_active_block :
    (t : Chain) (c next_ru_epoch : ℕ) (ps : List ℕ) (bs : List ChainBlock)
    → Filled t c
    → 0 < c
    → c ≤ capacity
    → 2 ≤ t.n_blocks
    → word_seq (control t (t.active_seq + 1)).word ≡ (t.active_seq + 1) % 2 ^ 32
    → Inv t.space
    → Balanced t.space ps
    → Linked t.disk
        (block t t.active_seq).ru_epoch
        (t.heads ((block t t.active_seq).ru_epoch % t.max_open_ru_epochs))
        bs
    → Kept t.space bs
    → t.set_ru_epochs (t.current_ru_epoch % t.sets_count) ≡ t.current_ru_epoch
    → (u : Chain) × (close_active_block t next_ru_epoch ≡ ok (some u))
      × (filled_up u t.active_seq ≡ true)
      × ((seal u t.active_seq ≡ fail out_of_space)
          ⊎ ((pid : ℕ) × (w : Chain) × (seal u t.active_seq ≡ ok (true, w))
              × ((n : ℕ)
                  → length bs + 1 < n
                  → read_chain n w.disk
                      (w.heads ((block t t.active_seq).ru_epoch % t.max_open_ru_epochs))
                      (block t t.active_seq).ru_epoch
                    ≡ ok (
                      take c (block t t.active_seq).entries ++ listing bs,
                      (pid, t.current_ru_epoch) ∷ places bs,
                    ))))
unfolding filled_up activated marked_closed
seal-close_active_block t c next ps bs f some_entries fits two free v bal l k h =
    let u = activated (marked_closed t) t.active_seq c next in
    let (er, ef, eb) = closed-parts t c next f two in
    (
      u,
      close_active_block-Filled t c next f fits two free,
      ground (arith, er, ef),
      elim (seal-read_chain u t.active_seq ps bs v bal (rw eb l) k (omega (arith, er, some_entries))
          (omega (arith, er, fits)) (rw eb f.memory) h) [
            | inl (all_used, run) ↦ inl run
            | inr (pid, w, run, inv, bal', kept, reads, others) ↦
                inr (pid, w, run, (rw (eb, er) at reads))
          ],
    )

-- PIDs, one to CAPACITY of them and none the invalid one, recorded one after the other in an
-- empty active block all get the RU epoch of the block. When it is then closed and sealed, they
-- are what a reader of the RU epoch finds, in that order and before what it found earlier:
-- closing need not wait when the next slot is free, the block is then filled, and sealing it
-- writes it unless it runs out of blocks. The space has its invariant, the chain is linked on
-- the device in sealed blocks, and the counters belong to the open RU epoch.
pub read_chain-record_all :
    (s : Chain) (pids : List ℕ) (next_ru_epoch : ℕ) (ps : List ℕ) (bs : List ChainBlock)
    → Filled s 0
    → 0 < length pids
    → length pids ≤ capacity
    → Valid pids
    → 2 ≤ s.n_blocks
    → word_seq (control s (s.active_seq + 1)).word ≡ (s.active_seq + 1) % 2 ^ 32
    → Inv s.space
    → Balanced s.space ps
    → Linked s.disk
        (block s s.active_seq).ru_epoch
        (s.heads ((block s s.active_seq).ru_epoch % s.max_open_ru_epochs))
        bs
    → Kept s.space bs
    → s.set_ru_epochs (s.current_ru_epoch % s.sets_count) ≡ s.current_ru_epoch
    → (t u : Chain) × (record_pids s pids
        ≡ ok (map (λ _. returns (block s s.active_seq).ru_epoch) pids, t))
      × (close_active_block t next_ru_epoch ≡ ok (some u))
      × (filled_up u s.active_seq ≡ true)
      × ((seal u s.active_seq ≡ fail out_of_space)
          ⊎ ((pid : ℕ) × (w : Chain) × (seal u s.active_seq ≡ ok (true, w))
              × ((n : ℕ)
                  → length bs + 1 < n
                  → read_chain n w.disk
                      (w.heads ((block s s.active_seq).ru_epoch % s.max_open_ru_epochs))
                      (block s s.active_seq).ru_epoch
                    ≡ ok (pids ++ listing bs, (pid, s.current_ru_epoch) ∷ places bs))))
read_chain-record_all s pids next ps bs f some_pids fits valid two free v bal l k h =
    let t = (record_all s pids).1 in
    let got = record_all_lem pids s 0 f (omega arith) in
    let (el, nx) = record_all-elsewhere pids s 0 f (omega arith) two in
    let space : t.space ≡ s.space = ap (λ (x : Chain). x.space) el in
    let disk : t.disk ≡ s.disk = ap (λ (x : Chain). x.disk) el in
    let heads : t.heads ≡ s.heads = ap (λ (x : Chain). x.heads) el in
    let epochs : t.set_ru_epochs ≡ s.set_ru_epochs = ap (λ (x : Chain). x.set_ru_epochs) el in
    let current : t.current_ru_epoch ≡ s.current_ru_epoch =
      ap (λ (x : Chain). x.current_ru_epoch) el in
    let max : t.max_open_ru_epochs ≡ s.max_open_ru_epochs =
      ap (λ (x : Chain). x.max_open_ru_epochs) el in
    let sets : t.sets_count ≡ s.sets_count = ap (λ (x : Chain). x.sets_count) el in
    let ring : t.n_blocks ≡ s.n_blocks = ap (λ (x : Chain). x.n_blocks) el in
    let g : Filled t (length pids) = subst (Filled t) (zero-add (length pids)) got.filled in
    let all : take (length pids) (block t s.active_seq).entries ≡ pids =
      ap (λ (n : ℕ). take n (block t s.active_seq).entries) (sym (zero-add (length pids)))
      ∙ got.recorded in
    let r =
      seal-close_active_block t (length pids) next ps bs g some_pids fits (omega (arith, ring, two))
        (rw (got.same, nx) free) (subst Inv (sym space) v) (rw space bal)
        (rw (got.same, got.ru_epoch, disk, heads, max) l) (rw space k)
        (rw (epochs, current, sets) h) in
    let (u, c, w, d) = rw (got.same, got.ru_epoch, max, current, all) at r in
    (
      t,
      u,
      record_pids-record_all pids s valid ∙ ap (λ (xs : List Outcome). ok (xs, t)) got.outcomes,
      c,
      w,
      d,
    )
