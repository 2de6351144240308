-- ===== src/LbaChain/Filling.antt =====
-- Filling the active block.
use mathlib.Core.Path.{subst}
use mathlib.Core.List.{append_assoc, append-nil}
use native.Mathlib.Nat.{add-zero}
use epsilon_db.Base.{
  ℕ, zero, suc, ◌+◌, ◌*◌, ◌%◌, ◌^◌, ◌≤◌, ◌<◌, ◌≡◌, ◌≢◌, refl, Result, ok, ◌>>=◌, ==-false, List, [],
  ◌∷◌, ◌++◌, length, take, set, length-set, map, arith, ap, sym, ◌∙◌,
}
use epsilon_db.Bits.{bit_and_low}
use epsilon_db.CompressedSpace.Lists.{update_self}
use epsilon_db.Units.{invalid_pid}
use epsilon_db.LbaChain.{
  ChainBlock, Chain, Outcome, returns, capacity, word_count, block, control, record_round,
  record_pid, fill_entry,
}

-- The calls of `record` of PIDs one after the other, each done in its first round.
abbrev pub record_pids : Chain → List ℕ → Result (List Outcome × Chain)
record_pids s [] = ok ([], s)
record_pids s (pid ∷ pids) =
    record_pid s pid >>= λ r. record_pids (r.1) pids >>= λ rest. ok (r.0 ∷ rest.0, rest.1)

-- None of the PIDs is the invalid one.
abbrev pub Valid : List ℕ → Type 0
Valid [] = Unit
Valid (pid ∷ pids) = (pid ≢ invalid_pid) × Valid pids

-- Their rounds in the loop of `record`, behind the check of the PID.
abbrev pub record_all : Chain → List ℕ → List Outcome × Chain
record_all s [] = ([], s)
record_all s (pid ∷ pids) =
    let r = record_round s pid s.active_seq in
    let rest = record_all (r.1) pids in (r.0 ∷ rest.0, rest.1)

pub record_pids-record_all :
    (pids : List ℕ) (s : Chain) → Valid pids → record_pids s pids ≡ ok (record_all s pids)
unfolding record_pid
record_pids-record_all [] s v = refl
record_pids-record_all (pid ∷ pids) s v =
    rw
      (
        ==-false pid invalid_pid v.0,
        record_pids-record_all pids (record_round s pid s.active_seq).1 v.1,
      )
      refl

-- The active block has `c` entries reserved and filled.
pub record Filled (s : Chain) (c : ℕ) : Type 0 where
  pub reserved : (control s s.active_seq).word ≡ (s.active_seq % 2 ^ 32) * 2 ^ 32 + c
  pub filled : (control s s.active_seq).filled ≡ c
  pub memory : length (block s s.active_seq).entries ≡ capacity

pub word_count_lem : (q c : ℕ) → c < 2 ^ 32 → word_count (q * 2 ^ 32 + c) ≡ c
unfolding word_count
word_count_lem q c h = omega (arith, bit_and_low 32 (q * 2 ^ 32 + c))

-- A writer gets the next entry of the active block, which has room.
pub record_round-fill_entry :
    (s : Chain) (c pid : ℕ)
    → Filled s c
    → c < capacity
    → record_round s pid s.active_seq
      ≡ (returns (block s s.active_seq).ru_epoch, fill_entry s s.active_seq c pid)
unfolding record_round
record_round-fill_entry s c pid f h =
    let e : word_count (control s s.active_seq).word ≡ c =
      ap word_count f.reserved ∙ word_count_lem (s.active_seq % 2 ^ 32) c (omega arith) in
    rw e (ground (arith, f.reserved))

fill_entry-block :
    (s : Chain) (seq c pid : ℕ)
    → block (fill_entry s seq c pid) seq
      ≡ record (block s seq) { entries = set (block s seq).entries c pid }
unfolding fill_entry block control
fill_entry-block s seq c pid = update_self s.blocks (seq % s.n_blocks) _

pub fill_entry-Filled :
    (s : Chain) (c pid : ℕ)
    → Filled s c
    → c < capacity
    → Filled (fill_entry s s.active_seq c pid) (c + 1)
unfolding fill_entry block control
fill_entry-Filled s c pid f h = record {
  reserved = ground (arith, f.reserved);
  filled = ground (arith, f.filled);
  memory =
      ap (λ (b : ChainBlock). length b.entries) (fill_entry-block s s.active_seq c pid)
      ∙ (length-set (block s s.active_seq).entries c pid ∙ f.memory);
}

take-set :
    (c : ℕ) (xs : List ℕ) (v : ℕ)
    → c < length xs
    → take (suc c) (set xs c v) ≡ take c xs ++ (v ∷ [])
take-set c [] v h = absurd (omega arith)
take-set zero (x ∷ xs) v h = refl
take-set (suc c) (x ∷ xs) v h = ap (λ (t : List ℕ). x ∷ t) (take-set c xs v (omega arith))

-- What the writers did: each got the RU epoch of the block, and the block has their PIDs in order.
pub record Recorded (s : Chain) (c : ℕ) (pids : List ℕ) (got : List Outcome) (t : Chain)
    : Type 0 where
  pub filled : Filled t (c + length pids)
  pub same : t.active_seq ≡ s.active_seq
  pub ru_epoch : (block t s.active_seq).ru_epoch ≡ (block s s.active_seq).ru_epoch
  pub outcomes : got ≡ map (λ _. returns (block s s.active_seq).ru_epoch) pids
  pub recorded :
      take (c + length pids) (block t s.active_seq).entries
      ≡ take c (block s s.active_seq).entries ++ pids

-- PIDs recorded one after the other in an active block with room for them all stand in it in that
-- order behind the entries it had, and every writer gets the RU epoch of the block.
pub record_all_lem :
    (pids : List ℕ) (s : Chain) (c : ℕ)
    → Filled s c
    → c + length pids ≤ capacity
    → Recorded s c pids (record_all s pids).0 (record_all s pids).1
unfolding fill_entry
record_all_lem [] s c f h = record {
  filled = subst (Filled s) (sym (add-zero c)) f;
  same = refl;
  ru_epoch = refl;
  outcomes = refl;
  recorded =
      ap (λ (n : ℕ). take n (block s s.active_seq).entries) (add-zero c) ∙ sym (append-nil _);
}
record_all_lem (pid ∷ pids) s c f h =
    let q = record_round-fill_entry s c pid f (omega arith) in
    let t = fill_entry s s.active_seq c pid in
    let more : c + 1 + length pids ≡ c + suc (length pids) = omega arith in
    let k =
      record_all_lem pids t (c + 1) (fill_entry-Filled s c pid f (omega arith)) (omega arith) in
    let one : c + 1 ≡ suc c = omega arith in
    let b = fill_entry-block s s.active_seq c pid in
    let e : (block t s.active_seq).ru_epoch ≡ (block s s.active_seq).ru_epoch =
      ap (λ (x : ChainBlock). x.ru_epoch) b in
    rw q (record {
      filled = subst (Filled (record_all t pids).1) more k.filled;
      same = k.same;
      ru_epoch = k.ru_epoch ∙ e;
      outcomes =
          ap (λ (xs : List Outcome). returns (block s s.active_seq).ru_epoch ∷ xs)
            (k.outcomes ∙ ap (λ (x : ℕ). map (λ (_ : ℕ). returns x) pids) e);
      recorded =
          ap (λ (n : ℕ). take n (block (record_all t pids).1 s.active_seq).entries) (sym more)
          ∙ (k.recorded
              ∙ (ap (λ (x : ChainBlock). take (c + 1) x.entries ++ pids) b
                  ∙ (ap (λ (n : ℕ). take n (set (block s s.active_seq).entries c pid) ++ pids) one
                      ∙ (ap (λ (xs : List ℕ). xs ++ pids)
                            (take-set c (block s s.active_seq).entries pid
                              (omega (arith, f.memory)))
                          ∙ append_assoc (take c (block s s.active_seq).entries) (pid ∷ [])
                              pids))));
    })
