-- ===== src/Concurrency/Snapshots/Invariant.antt =====
-- What holds of the workers and the owner's tree after every step.
use mathlib.Core.Path.{subst}
use mathlib.Core.List.{Memᴰ}
use epsilon_db.Base.{
  ℕ, suc, ◌^◌, ◌≤◌, ◌<◌, ◌≡◌, ◌≢◌, ◌⊎◌, inl, inr, sym, ◌∙◌, ap, Bool, true, false, List, length,
  arith, ℕ_discrete,
}
use epsilon_db.Bits.{bit_or_fields'}
use epsilon_db.Concurrency.CommitTree.{Commit, CommitTree, lcb, is_latched, clean_bits}
use epsilon_db.Concurrency.CommitTree.Search.{Ascending}
use epsilon_db.Concurrency.CommitTree.Clean.{Within}
use epsilon_db.Concurrency.Snapshots.{
  Phase, idle, latched, drawn, published, running, System, latched_word, snapshot_word,
  InTransaction,
}

pub latched_word_lem : (ts : ℕ) → ts < 2 ^ 61 → is_latched (latched_word ts) ≡ true
unfolding latched_word is_latched
latched_word_lem ts h = rw (bit_or_fields' 63 1 ts (omega arith)) (ground arith)

pub snapshot_word_lem :
    (is_olap : Bool) (ts : ℕ) → ts < 2 ^ 61 → clean_bits (snapshot_word is_olap ts) ≡ ts
unfolding snapshot_word clean_bits
snapshot_word_lem true ts h = rw (bit_or_fields' 61 1 ts h) (omega arith)
snapshot_word_lem false ts h = omega arith

-- The published word and the start timestamp of a worker in each phase.
abbrev pub WordOk : Phase → ℕ → ℕ → Type 0
WordOk idle word ts = Unit {0}
WordOk latched word ts = is_latched word ≡ true
WordOk drawn word ts = is_latched word ≡ true
WordOk published word ts = clean_bits word ≡ ts
WordOk running word ts = clean_bits word ≡ ts

pub record WorkerOk (s : System) (j : ℕ) : Type 0 where
  pub drawn_before : s.start_ts j < s.global_clock
  pub word : WordOk (s.phase j) (s.snapshot j) (s.start_ts j)
  pub positive : InTransaction (s.phase j) → 0 < s.start_ts j

-- The tree is a part of the history, in order, and every commit of the history is in the past.
pub record TreeOk (workers_count : ℕ) (t : CommitTree) (history : List Commit) (clock : ℕ)
    : Type 0 where
  pub capacity : t.capacity ≡ suc workers_count
  pub fits : length t.entries ≤ t.capacity
  pub ascending : Ascending t.entries
  pub within : Within t.entries history
  pub history_ascending : Ascending history
  pub past : (c : Commit) → Memᴰ c history → c.commit_ts < clock
  pub started : (c : Commit) → Memᴰ c history → c.start_ts < c.commit_ts
  pub positive : (c : Commit) → Memᴰ c history → 0 < c.start_ts
  pub starts :
      (c d : Commit)
      → Memᴰ c history
      → Memᴰ d history
      → c.commit_ts < d.commit_ts
      → c.start_ts < d.start_ts

-- The other workers read from the tree what the whole history says.
pub record SystemOk (workers_count owner : ℕ) (s : System) : Type 0 where
  pub clock_positive : 0 < s.global_clock
  pub clock_bound : s.global_clock < 2 ^ 61
  pub worker : (j : ℕ) → WorkerOk s j
  pub tree : TreeOk workers_count s.tree s.history s.global_clock
  pub later :
      (j ts : ℕ)
      → j < workers_count
      → j ≢ owner
      → ((c : Commit) → Memᴰ c s.history → c.commit_ts < ts)
      → lcb s.tree.entries ts ≡ lcb s.history ts
  pub answers :
      (j : ℕ)
      → j < workers_count
      → j ≢ owner
      → InTransaction (s.phase j)
      → lcb s.tree.entries (s.start_ts j) ≡ lcb s.history (s.start_ts j)
  pub owner_drew :
      InTransaction (s.phase owner)
      → (c : Commit) → Memᴰ c s.history
      → c.commit_ts < s.start_ts owner
  pub owner_room : s.phase owner ≡ running → length s.tree.entries < s.tree.capacity

-- A worker that a step leaves alone.
pub record Same (s t : System) (j : ℕ) : Type 0 where
  pub phase : t.phase j ≡ s.phase j
  pub snapshot : t.snapshot j ≡ s.snapshot j
  pub start_ts : t.start_ts j ≡ s.start_ts j

pub Same-WorkerOk :
    (s t : System) (j : ℕ)
    → s.global_clock ≤ t.global_clock
    → Same s t j
    → WorkerOk s j
    → WorkerOk t j
Same-WorkerOk s t j h e w = record {
  drawn_before = omega (arith, w.drawn_before, h, e.start_ts);
  word = rw (e.phase, e.snapshot, e.start_ts) w.word;
  positive = rw (e.phase, e.start_ts) w.positive;
}

-- A step of worker `i` that leaves the owner's tree alone.
pub record Moves (owner : ℕ) (s t : System) (i : ℕ) : Type 0 where
  pub tree : t.tree ≡ s.tree
  pub history : t.history ≡ s.history
  pub clock : s.global_clock ≤ t.global_clock
  pub clock_bound : t.global_clock < 2 ^ 61
  pub others : (j : ℕ) → i ≢ j → Same s t j
  pub worker : WorkerOk t i
  pub transaction :
      InTransaction (t.phase i)
      → (InTransaction (s.phase i) × (t.start_ts i ≡ s.start_ts i))
        ⊎ (t.start_ts i ≡ s.global_clock)
  pub room : i ≡ owner → t.phase i ≡ running → s.phase i ≡ running

pub Moves-SystemOk :
    (n owner : ℕ) (s t : System) (i : ℕ)
    → SystemOk n owner s
    → Moves owner s t i
    → SystemOk n owner t
Moves-SystemOk n owner s t i v m = record {
  clock_positive = omega (arith, v.clock_positive, m.clock);
  clock_bound = m.clock_bound;
  worker = λ j. elim (ℕ_discrete i j) [
    | yes e ↦ subst (WorkerOk t) e m.worker
    | no ne ↦ Same-WorkerOk s t j m.clock (m.others j ne) (v.worker j)
  ];
  tree =
      rw (m.tree, m.history)
        (record {
          capacity = v.tree.capacity;
          fits = v.tree.fits;
          ascending = v.tree.ascending;
          within = v.tree.within;
          history_ascending = v.tree.history_ascending;
          past = λ c h. omega (arith, v.tree.past c h, m.clock);
          started = v.tree.started;
          positive = v.tree.positive;
          starts = v.tree.starts;
        });
  later = rw (m.tree, m.history) v.later;
  answers = λ j b ne.
      rw (m.tree, m.history)
        (λ k. elim (ℕ_discrete i j) [
          | no d ↦
              let q = m.others j d in
              rw q.start_ts (v.answers j b ne (subst InTransaction q.phase k))
          | yes e ↦ elim (m.transaction (subst (λ x. InTransaction (t.phase x)) (sym e) k)) [
            | inl p ↦
                subst (λ x. lcb s.tree.entries (t.start_ts x) ≡ lcb s.history (t.start_ts x)) e
                  (rw p.1 (v.answers i (rw e b) (rw e ne) p.0))
            | inr p ↦
                subst (λ x. lcb s.tree.entries (t.start_ts x) ≡ lcb s.history (t.start_ts x)) e
                  (rw p (v.later i s.global_clock (rw e b) (rw e ne) v.tree.past))
          ]
        ]);
  owner_drew = rw m.history (λ k c h. elim (ℕ_discrete i owner) [
    | no d ↦
        let q = m.others owner d in rw q.start_ts (v.owner_drew (subst InTransaction q.phase k) c h)
    | yes e ↦ elim (m.transaction (subst (λ x. InTransaction (t.phase x)) (sym e) k)) [
      | inl p ↦ omega (
        arith,
        v.owner_drew (subst (λ x. InTransaction (s.phase x)) e p.0) c h,
        p.1,
        ap t.start_ts e,
        ap s.start_ts e,
      )
      | inr p ↦ omega (arith, v.tree.past c h, p, ap t.start_ts e)
    ]
  ]);
  owner_room = rw m.tree (λ k. elim (ℕ_discrete i owner) [
    | no d ↦ v.owner_room (sym (m.others owner d).phase ∙ k)
    | yes e ↦ v.owner_room (sym (ap s.phase e) ∙ m.room e (ap t.phase e ∙ k))
  ]);
}
