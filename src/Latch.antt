-- ===== src/Latch.antt =====
-- sync-primitives/Latch.hpp: the hybrid latch and its guards. A latch is the version, whose
-- lowest bit says that it is held exclusively, and a shared mutex. An operation of a guard is
-- the sequence of its accesses to the latch; `phase` says which access comes next, and those of
-- different guards interleave.
pub mod Invariant
pub mod Exclusion
pub mod Validation
pub mod Tests
use epsilon_db.Base.{
  ◌⊎◌, ℕ, zero, suc, ◌+◌, ◌%◌, ◌^◌, ◌≡◌, Bool, true, false, Option, none, some, ◌==◌, if◌then◌else◌,
}

abbrev pub word : ℕ
word = 2 ^ 64

-- HybridLatch: the mutex is the guard that holds it alone, and the guards that share it.
pub record Latch : Type 0 where
  pub version : ℕ
  pub owner : Option ℕ
  pub sharers : ℕ → Bool

-- GUARD_STATE.
pub data GuardState : Type 0 where
  uninitialized optimistic shared exclusive moved : GuardState

-- The access that comes next. After a jump the guard is not used any more.
pub data Phase : Type 0 where
  at_rest wants_shared wants_exclusive checks_shared checks_exclusive stores_exclusive releases
        jumped :
      Phase

pub record Guard : Type 0 where
  pub state : GuardState
  pub version : ℕ
  pub faced_contention : Bool
  pub phase : Phase

-- What an optimistic guard does when the latch is held exclusively.
pub data Fallback : Type 0 where
  or_spin or_jump or_shared or_exclusive : Fallback

pub is_optimistic : GuardState → Bool
is_optimistic optimistic = true
is_optimistic uninitialized = false
is_optimistic shared = false
is_optimistic exclusive = false
is_optimistic moved = false

pub is_exclusively_latched : Latch → Bool
is_exclusively_latched l = l.version % 2 == 1

-- The load of toOptimisticSpin, toOptimisticOrJump, toOptimisticOrShared and
-- toOptimisticOrExclusive.
pub to_optimistic : Fallback → Latch → Guard → Guard
to_optimistic fallback l g =
    let seen = record g { version = l.version } in
    if is_exclusively_latched l
    then elim fallback [
      | or_spin ↦ record seen { faced_contention = true }
      | or_jump ↦ record seen { phase = jumped }
      | or_shared ↦ record seen { phase = wants_shared; faced_contention = true }
      | or_exclusive ↦ record seen { phase = wants_exclusive; faced_contention = true }
    ]
    else record seen { state = optimistic }

-- mutex.lock() returned.
pub lock : ℕ → Latch → Latch
lock i l = record l { owner = some i }

pub unlock_mutex : Latch → Latch
unlock_mutex l = record l { owner = none }

-- mutex.lock_shared() and mutex.unlock_shared() of a guard.
pub set_shared : ℕ → Bool → Latch → Latch
set_shared i b l = record l { sharers = λ j. if j == i then b else l.sharers j }

-- toExclusive and tryToExclusive with the mutex: the exchange of an optimistic guard, the load
-- of another.
pub check_exclusive : Latch → Guard → Latch × Guard
check_exclusive l g =
    let next = (g.version + 1) % word in
    if is_optimistic g.state
    then (if l.version == g.version
        then (
          record l { version = next },
          record g { version = next; state = exclusive; phase = at_rest },
        )
        else (unlock_mutex l, record g { phase = jumped }))
    else (l, record g { version = (l.version + 1) % word; phase = stores_exclusive })

pub store_exclusive : Latch → Guard → Latch × Guard
store_exclusive l g =
    (record l { version = g.version }, record g { state = exclusive; phase = at_rest })

-- toShared, tryToShared and the fallback of toOptimisticOrShared, with the mutex shared.
pub check_shared : ℕ → Latch → Guard → Latch × Guard
check_shared i l g =
    if is_optimistic g.state
    then (if l.version == g.version
        then (l, record g { state = shared; phase = at_rest })
        else (set_shared i false l, record g { phase = jumped }))
    else (l, record g { version = l.version; state = shared; phase = at_rest })

-- The store of `unlock`.
pub release : Latch → Guard → Latch × Guard
release l g =
    let next = (g.version + 1) % word in
    (record l { version = next }, record g { version = next; phase = releases })

-- `recheck`: false jumps.
pub recheck : Latch → Guard → Bool
recheck l g = if is_optimistic g.state then l.version == g.version else true

-- A latch and its guards.
pub record System : Type 0 where
  pub latch : Latch
  pub guard : ℕ → Guard

pub put : System → ℕ → Latch × Guard → System
put s i r = record { latch = r.0; guard = λ j. if j == i then r.1 else s.guard j }

-- An access of one guard.
pub data Step : System → System → Type 0 where
  optimistic_load :
      (s : System) (i : ℕ) (fallback : Fallback)
      → (s.guard i).phase ≡ at_rest
      → (s.guard i).state ≡ uninitialized
      → Step s (put s i (s.latch, to_optimistic fallback s.latch (s.guard i)))
  ask_exclusive :
      (s : System) (i : ℕ)
      → (s.guard i).phase ≡ at_rest
      → ((s.guard i).state ≡ optimistic) ⊎ ((s.guard i).state ≡ uninitialized)
      → Step s (put s i (s.latch, record (s.guard i) { phase = wants_exclusive }))
  ask_shared :
      (s : System) (i : ℕ)
      → (s.guard i).phase ≡ at_rest
      → (s.guard i).state ≡ optimistic
      → Step s (put s i (s.latch, record (s.guard i) { phase = wants_shared }))
  give_up :
      (s : System) (i : ℕ)
      → ((s.guard i).phase ≡ wants_exclusive) ⊎ ((s.guard i).phase ≡ wants_shared)
      → Step s (put s i (s.latch, record (s.guard i) { phase = jumped }))
  lock_exclusive :
      (s : System) (i : ℕ)
      → (s.guard i).phase ≡ wants_exclusive
      → s.latch.owner ≡ none
      → ((j : ℕ) → s.latch.sharers j ≡ false)
      → Step s (put s i (lock i s.latch, record (s.guard i) { phase = checks_exclusive }))
  lock_shared :
      (s : System) (i : ℕ)
      → (s.guard i).phase ≡ wants_shared
      → s.latch.owner ≡ none
      → Step s (put s i (set_shared i true s.latch, record (s.guard i) { phase = checks_shared }))
  checked_exclusive :
      (s : System) (i : ℕ)
      → (s.guard i).phase ≡ checks_exclusive
      → Step s (put s i (check_exclusive s.latch (s.guard i)))
  stored_exclusive :
      (s : System) (i : ℕ)
      → (s.guard i).phase ≡ stores_exclusive
      → Step s (put s i (store_exclusive s.latch (s.guard i)))
  checked_shared :
      (s : System) (i : ℕ)
      → (s.guard i).phase ≡ checks_shared
      → Step s (put s i (check_shared i s.latch (s.guard i)))
  released :
      (s : System) (i : ℕ)
      → (s.guard i).phase ≡ at_rest
      → (s.guard i).state ≡ exclusive
      → Step s (put s i (release s.latch (s.guard i)))
  unlocked :
      (s : System) (i : ℕ)
      → (s.guard i).phase ≡ releases
      → Step s (
          put s i
            (unlock_mutex s.latch, record (s.guard i) { state = optimistic; phase = at_rest }))
  unlocked_shared :
      (s : System) (i : ℕ)
      → (s.guard i).phase ≡ at_rest
      → (s.guard i).state ≡ shared
      → Step s (put s i (set_shared i false s.latch, record (s.guard i) { state = optimistic }))

-- Any number of accesses.
pub data Steps : System → System → Type 0 where
  rest : (s : System) → Steps s s
  after : {s t u : System} → Steps s t → Step t u → Steps s u
