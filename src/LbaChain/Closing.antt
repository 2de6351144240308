-- ===== src/LbaChain/Closing.antt =====
-- Writers that come to a closed block.
use epsilon_db.Base.{
  ℕ, ◌+◌, ◌*◌, ◌%◌, ◌^◌, ◌≤◌, ◌<◌, ◌≡◌, refl, List, [], ◌∷◌, length, map, arith, ap, ◌∙◌,
}
use epsilon_db.Bits.{u64_mod}
use epsilon_db.LbaChain.{
  Chain, Outcome, waits, capacity, word_count, control, set_control, record_round, marked_closed,
}
use epsilon_db.LbaChain.Filling.{Filled, word_count_lem}

-- Rounds of writers that loaded the same sequence number.
abbrev pub record_rounds : Chain → ℕ → List ℕ → List Outcome × Chain
record_rounds s seq [] = ([], s)
record_rounds s seq (pid ∷ pids) =
    let r = record_round s pid seq in
    let rest = record_rounds (r.1) seq pids in (r.0 ∷ rest.0, rest.1)

-- The block `seq` is closed, and `d` rounds were made on it since or before.
record Closed (s : Chain) (seq d : ℕ) : Type 0 where
  mark : (control s seq).word ≡ seq % 2 ^ 32 * 2 ^ 32 + (2 ^ 30 + d)

abbrev bumped : Chain → ℕ → Chain
bumped s seq =
    set_control s seq (record (control s seq) { word = ((control s seq).word + 1) % u64_mod })

record_round-Closed :
    (s : Chain) (seq d pid : ℕ)
    → Closed s seq d
    → d < 2 ^ 31 + 2 ^ 30
    → record_round s pid seq ≡ (waits, bumped s seq)
unfolding record_round
record_round-Closed s seq d pid k h =
    let e : word_count (control s seq).word ≡ 2 ^ 30 + d =
      ap word_count k.mark ∙ word_count_lem (seq % 2 ^ 32) (2 ^ 30 + d) (omega arith) in
    rw e (ground arith)

bumped-Closed :
    (s : Chain) (seq d : ℕ)
    → Closed s seq d
    → d + 1 < 2 ^ 31 + 2 ^ 30
    → Closed (bumped s seq) seq (d + 1)
unfolding control
bumped-Closed s seq d k h = record { mark = ground (arith, k.mark) }

-- What is left when they waited.
pub record Waited (s : Chain) (seq : ℕ) (pids : List ℕ) (got : List Outcome) (t : Chain)
    : Type 0 where
  pub outcomes : got ≡ map (λ _. waits) pids
  pub blocks : t.blocks ≡ s.blocks
  pub filled : (control t seq).filled ≡ (control s seq).filled
  pub active : t.active_seq ≡ s.active_seq

record_rounds-Closed :
    (pids : List ℕ) (s : Chain) (seq d : ℕ)
    → Closed s seq d
    → d + length pids < 2 ^ 31 + 2 ^ 30
    → Waited s seq pids (record_rounds s seq pids).0 (record_rounds s seq pids).1
unfolding control
record_rounds-Closed [] s seq d k h = record {
  outcomes = refl;
  blocks = refl;
  filled = refl;
  active = refl;
}
record_rounds-Closed (pid ∷ pids) s seq d k h =
    let w =
      record_rounds-Closed pids (bumped s seq) seq (d + 1) (bumped-Closed s seq d k (omega arith))
        (omega arith) in
    rw (record_round-Closed s seq d pid k (omega arith)) (record {
      outcomes = ap (λ (xs : List Outcome). waits ∷ xs) w.outcomes;
      blocks = w.blocks;
      filled = w.filled ∙ ground arith;
      active = w.active;
    })

-- Once the closer has marked an active block whose reserved entries are all filled, fewer than 2
-- ^ 31 writers that still come to it all wait: none gets an entry, none activates the next
-- block, and the entries and their count stay.
pub record_rounds-marked_closed :
    (s : Chain) (c : ℕ) (pids : List ℕ)
    → Filled s c
    → c ≤ capacity
    → length pids < 2 ^ 31
    → Waited
        (marked_closed s)
        s.active_seq
        pids
        (record_rounds (marked_closed s) s.active_seq pids).0
        (record_rounds (marked_closed s) s.active_seq pids).1
unfolding marked_closed control
record_rounds-marked_closed s c pids f h few =
    record_rounds-Closed pids (marked_closed s) s.active_seq c
      (record { mark = ground (arith, f.reserved) }) (omega arith)
