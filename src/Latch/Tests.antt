-- ===== src/Latch/Tests.antt =====
-- Two guards at a latch: one takes it exclusively and releases it, the other reads optimistically.
use epsilon_db.Base.{ℕ, ◌≡◌, ◌≢◌, inl, refl, true, false, none, arith}
use epsilon_db.Latch.{
  Guard, uninitialized, shared, exclusive, Phase, at_rest, checks_exclusive, System, Steps, put,
  to_optimistic, lock, check_exclusive, or_spin, or_jump, recheck, is_exclusively_latched,
  is_optimistic, optimistic_load, ask_exclusive, lock_exclusive, checked_exclusive, rest, after,
}
use epsilon_db.Latch.Invariant.{SystemOk}
use epsilon_db.Latch.Exclusion.{exclusion}
use epsilon_db.Latch.Validation.{recheck_lem, all_stores}

abbrev fresh_guard : Guard
fresh_guard = record {
  state = uninitialized;
  version = 0;
  faced_contention = false;
  phase = at_rest;
}

abbrev start : System
start = record {
  latch = record { version = 4; owner = none; sharers = λ _. false };
  guard = λ _. fresh_guard;
}

start-SystemOk : SystemOk start
start-SystemOk = record {
  latch = record { even = λ h. refl; alone = λ i j h. cc };
  guards = λ i. tt;
}

abbrev loaded : System
loaded = put start 0 (start.latch, to_optimistic or_spin start.latch (start.guard 0))

abbrev asked : System
asked = put loaded 0 (loaded.latch, record (loaded.guard 0) { phase = Phase.wants_exclusive })

abbrev locked : System
locked = put asked 0 (lock 0 asked.latch, record (asked.guard 0) { phase = checks_exclusive })

abbrev held : System
held = put locked 0 (check_exclusive locked.latch (locked.guard 0))

run : Steps start held
unfolding put to_optimistic is_exclusively_latched lock check_exclusive is_optimistic
run =
    after
      (after
        (after (after (rest start) (optimistic_load start 0 or_spin refl refl))
          (ask_exclusive loaded 0 refl (inl refl)))
        (lock_exclusive asked 0 refl refl (λ j. refl)))
      (checked_exclusive locked 0 refl)

exclusion_example :
    ((held.guard 1).state ≡ exclusive → ◌≡◌ {A = ℕ} 1 0)
    × ((held.guard 1).state ≢ shared)
    × (is_exclusively_latched held.latch ≡ true)
unfolding put to_optimistic is_exclusively_latched lock check_exclusive is_optimistic
exclusion_example = exclusion 0 1 start-SystemOk run refl refl refl

-- A guard that has loaded the version 4.
abbrev reader : Guard
reader = to_optimistic or_jump start.latch fresh_guard

recheck_lem_example :
    all_stores (after (rest start) (optimistic_load start 0 or_spin refl refl)) ≡ 0
unfolding put to_optimistic is_exclusively_latched recheck is_optimistic
recheck_lem_example =
    recheck_lem (after (rest start) (optimistic_load start 0 or_spin refl refl)) reader
      start-SystemOk (omega arith) (omega arith) refl refl refl

refused : recheck held.latch reader ≡ false
unfolding put to_optimistic is_exclusively_latched lock check_exclusive is_optimistic recheck
refused = refl
