-- ===== src/Latch/Validation.antt =====
-- The version counts the exclusive sections, so an optimistic guard that passes `recheck` saw none.
use epsilon_db.Base.{
  ℕ, ◌+◌, ◌%◌, ◌<◌, ◌≡◌, refl, Bool, true, ◌==◌, ◌&&◌, if◌then◌else◌, arith, ap, sym, ◌∙◌, inl, inr,
  Bool-cases, ==-eq,
}
use epsilon_db.Latch.{
  Latch, Guard, optimistic, exclusive, stores_exclusive, System, Step, Steps, put, check_exclusive,
  check_shared, store_exclusive, release, recheck, lock, set_shared, unlock_mutex, is_optimistic,
  word, optimistic_load, ask_exclusive, ask_shared, give_up, lock_exclusive, lock_shared,
  checked_exclusive, stored_exclusive, checked_shared, released, unlocked, unlocked_shared, rest,
  after,
}
use epsilon_db.Latch.Invariant.{SystemOk}
use epsilon_db.Latch.Exclusion.{phase_of, rest_of, Steps-SystemOk}

-- The stores to the version: an exclusive section has one where it begins and one where it ends.
abbrev pub stores : {s t : System} → Step s t → ℕ
stores (checked_exclusive s i p) =
    if is_optimistic (s.guard i).state && (s.latch.version == (s.guard i).version) then 1 else 0
stores (stored_exclusive s i p) = 1
stores (released s i p q) = 1
stores (optimistic_load s i f p q) = 0
stores (ask_exclusive s i p q) = 0
stores (ask_shared s i p q) = 0
stores (give_up s i p) = 0
stores (lock_exclusive s i p o f) = 0
stores (lock_shared s i p o) = 0
stores (checked_shared s i p) = 0
stores (unlocked s i p) = 0
stores (unlocked_shared s i p q) = 0

abbrev pub all_stores : {s t : System} → Steps s t → ℕ
all_stores (rest s) = 0
all_stores (after r k) = all_stores r + stores k

same : (v : ℕ) → v < word → v ≡ (v + 0) % word
same v h = omega arith

checked_version :
    (l : Latch) (g : Guard)
    → l.version < word
    → (check_exclusive l g).0.version
      ≡ (l.version + (if is_optimistic g.state && (l.version == g.version) then 1 else 0)) % word
unfolding check_exclusive unlock_mutex
checked_version l g h = elim (Bool-cases (is_optimistic g.state)) [
  | inr e ↦ rw (e, check_exclusive) (same l.version h)
  | inl e ↦ elim (Bool-cases (l.version == g.version)) [
    | inr q ↦ rw (e, q, check_exclusive) (same l.version h)
    | inl q ↦
        rw (e, q, check_exclusive)
          (ap (λ (v : ℕ). (v + 1) % word) (sym (==-eq l.version g.version q)))
  ]
]

shared_version : (l : Latch) (g : Guard) (i : ℕ) → (check_shared i l g).0.version ≡ l.version
unfolding check_shared set_shared
shared_version l g i = elim (Bool-cases (is_optimistic g.state)) [
  | inr e ↦ rw (e, check_shared) refl
  | inl e ↦ elim (Bool-cases (l.version == g.version)) [
    | inr q ↦ rw (e, q, check_shared) refl
    | inl q ↦ rw (e, q, check_shared) refl
  ]
]

Step-version :
    {s t : System} (k : Step s t)
    → SystemOk s
    → s.latch.version < word
    → t.latch.version ≡ (s.latch.version + stores k) % word
unfolding put store_exclusive release lock set_shared unlock_mutex
Step-version (optimistic_load s i f p q) v h = same s.latch.version h
Step-version (ask_exclusive s i p q) v h = same s.latch.version h
Step-version (ask_shared s i p q) v h = same s.latch.version h
Step-version (give_up s i p) v h = same s.latch.version h
Step-version (lock_exclusive s i p o f) v h = same s.latch.version h
Step-version (lock_shared s i p o) v h = same s.latch.version h
Step-version (checked_exclusive s i p) v h = checked_version s.latch (s.guard i) h
Step-version (stored_exclusive s i p) v h = (phase_of s i stores_exclusive v p).2
Step-version (checked_shared s i p) v h =
    shared_version s.latch (s.guard i) i ∙ same s.latch.version h
Step-version (released s i p q) v h =
    ap (λ (x : ℕ). (x + 1) % word) (sym (rest_of s i exclusive v p q).1)
Step-version (unlocked s i p) v h = same s.latch.version h
Step-version (unlocked_shared s i p q) v h = same s.latch.version h

Steps-version :
    {s t : System} (r : Steps s t)
    → SystemOk s
    → s.latch.version < word
    → (t.latch.version ≡ (s.latch.version + all_stores r) % word) × (t.latch.version < word)
Steps-version (rest s) v h = (same s.latch.version h, h)
Steps-version {s = s} (after {t = t} r k) v h =
    let (e, b) = Steps-version r v h in
    let f = Step-version k (Steps-SystemOk r v) b in (f ∙ omega (arith, e), omega (arith, f))

-- Between an optimistic load of the version and a `recheck` that passes, with fewer than 2^64
-- stores between them, no guard stored a version: no exclusive section began or ended.
pub recheck_lem :
    {s t : System} (r : Steps s t) (g : Guard)
    → SystemOk s
    → s.latch.version < word
    → all_stores r < word
    → g.state ≡ optimistic
    → g.version ≡ s.latch.version
    → recheck t.latch g ≡ true
    → all_stores r ≡ 0
unfolding recheck is_optimistic
recheck_lem {s = s} {t = t} r g v h few st seen pass =
    let (e, b) = Steps-version r v h in
    let q = ==-eq t.latch.version g.version (
      sym
        (ap (λ (b : Bool). if b then t.latch.version == g.version else true) (ap is_optimistic st))
      ∙ pass) in
    omega (arith, e, q, seen)
