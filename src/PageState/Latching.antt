-- ===== src/PageState/Latching.antt =====
-- Threads that latch one page state word: `lock` and `getLocked` of PageState.cpp, `tryDiscard`
-- and the calls of PageState.hpp by which the holder lets go, one shared access to a step.
-- `free()`, and an `unlockBF` by a thread that does not hold the latch (a fresh page), store
-- without the latch: the buffer manager makes them while no other thread knows the page, and
-- they are no steps.
mod Kinds
pub mod Safety
use mathlib.Core.Logic.{ite}
use epsilon_db.Base.{
  ℕ, ◌+◌, ◌^◌, ◌≤◌, ◌<◌, ◌≡◌, ◌⊎◌, Bool, true, false, ok, some, none, List, get_elem?, ℕ_discrete,
}
use Prim.Native.Nat.{bit_or, ◌-◌}
use epsilon_db.PageState.{
  lock_round, may_discard, compare_exchange, latch_bit, unlock, unlock_clean, unlock_bf,
  discarded_word,
}

-- Where a thread stands, with the word that it loaded or that it latched.
pub data Pc : Type 0 where
  idle : Pc
  loaded : ℕ → Pc  -- in `lock`, before the test and the compare-exchange
  try_loaded : ℕ → Pc  -- in `tryDiscard`, before the test and the compare-exchange
  holding : ℕ → Pc  -- after the return of `lock`, or past the compare-exchange of `tryDiscard`

-- One step of one thread, from the word and its place to the new ones.
pub data Move (raw : ℕ) : Pc → ℕ → Pc → Type 0 where
  load : Move raw idle raw (loaded raw)
  retry : {v : ℕ} → lock_round v raw ≡ none → Move raw (loaded v) raw idle
  latch : {v r w : ℕ} → lock_round v raw ≡ some (r, w) → Move raw (loaded v) w (holding r)
  try_load : Move raw idle raw (try_loaded raw)
  refuse : {v : ℕ} → may_discard v ≡ false → Move raw (try_loaded v) raw idle
  lose :
      {v : ℕ}
      → compare_exchange raw v (bit_or v latch_bit) ≡ none
      → Move raw (try_loaded v) raw idle
  try_latch :
      {v w : ℕ}
      → may_discard v ≡ true
      → compare_exchange raw v (bit_or v latch_bit) ≡ some w
      → Move raw (try_loaded v) w (holding v)
  release : {v w : ℕ} → unlock raw ≡ ok w → Move raw (holding v) w idle
  release_clean :
      {v w : ℕ} (skip : Bool) (lsn log_id dc : ℕ)
      → lsn < 2 ^ 64
      → unlock_clean skip lsn log_id dc ≡ ok w
      → Move raw (holding v) w idle
  release_bf : {v w : ℕ} (bf : ℕ) → bf < 2 ^ 64 → unlock_bf bf ≡ ok w → Move raw (holding v) w idle
  release_discarded :
      {v w : ℕ} (in_parent : Bool) (ptr : ℕ) (lsns : List ℕ) (count log_id dc last : ℕ)
      → 0 < count
      → count < 8
      → ptr < 2 ^ 64
      → last < 2 ^ 64
      → get_elem? lsns (count - 1) ≡ some last
      → discarded_word in_parent ptr lsns count log_id dc ≡ ok w
      → Move raw (holding v) w idle

abbrev pub update {ℓ} : {A : Type ℓ} → (ℕ → A) → ℕ → A → ℕ → A
update f i a j = ite (ℕ_discrete i j) a (f j)

-- The word, and where each thread stands.
pub record System : Type 0 where
  pub raw : ℕ
  pub pc : ℕ → Pc

pub data Step (s : System) : System → Type 0 where
  pick :
      (i : ℕ) {w : ℕ} {p : Pc}
      → Move s.raw (s.pc i) w p
      → Step s (record { raw = w; pc = update s.pc i p })

-- From an unlatched word that no thread works on.
pub data Reach (raw : ℕ) : System → Type 0 where
  start : Reach raw (record { raw = raw; pc = λ _. idle })
  later : {s t : System} → Reach raw s → Step s t → Reach raw t
