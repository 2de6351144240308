-- ===== src/Latch/Exclusion.antt =====
-- Guards exclude each other.
use mathlib.Core.Path.{subst}
use epsilon_db.Base.{
  ℕ, ◌+◌, ◌%◌, ◌≡◌, ◌≢◌, inl, inr, refl, Bool, true, false, none, some, ◌==◌, arith, sym, ◌∙◌,
  Bool-cases, ==-true, ==-eq, ==-false, some_injective,
}
use epsilon_db.Latch.{
  optimistic_load, ask_exclusive, ask_shared, give_up, lock_exclusive, lock_shared,
  checked_exclusive, stored_exclusive, checked_shared, released, unlocked, unlocked_shared, rest,
  after, is_optimistic, Latch, Guard, GuardState, uninitialized, shared, exclusive, Phase, at_rest,
  checks_shared, checks_exclusive, stores_exclusive, releases, Fallback, or_spin, or_jump,
  or_shared, or_exclusive, System, Step, Steps, put, to_optimistic, lock, unlock_mutex, set_shared,
  check_exclusive, store_exclusive, check_shared, release, is_exclusively_latched, word,
}
use epsilon_db.Latch.Invariant.{
  AtRest, InPhase, GuardOk, LatchOk, SystemOk, Leaves, moved_one, stays, not_owner,
}

true_ne_false : true ≢ false
true_ne_false h = cc

some_ne : (i : ℕ) → some i ≢ none
some_ne i h = cc

to_optimistic-GuardOk :
    (fb : Fallback) (l : Latch) (g : Guard) (i : ℕ)
    → g.phase ≡ at_rest
    → g.state ≡ uninitialized
    → GuardOk l i (to_optimistic fb l g)
unfolding to_optimistic
to_optimistic-GuardOk or_spin l g i p q = elim (Bool-cases (is_exclusively_latched l)) [
  | inl e ↦ rw (e, to_optimistic, p, q) tt
  | inr e ↦ rw (e, to_optimistic, p) tt
]
to_optimistic-GuardOk or_jump l g i p q = elim (Bool-cases (is_exclusively_latched l)) [
  | inl e ↦ rw (e, to_optimistic) tt
  | inr e ↦ rw (e, to_optimistic, p) tt
]
to_optimistic-GuardOk or_shared l g i p q = elim (Bool-cases (is_exclusively_latched l)) [
  | inl e ↦ rw (e, to_optimistic) tt
  | inr e ↦ rw (e, to_optimistic, p) tt
]
to_optimistic-GuardOk or_exclusive l g i p q = elim (Bool-cases (is_exclusively_latched l)) [
  | inl e ↦ rw (e, to_optimistic) tt
  | inr e ↦ rw (e, to_optimistic, p) tt
]

odd-next : (v : ℕ) → v % 2 ≡ 0 → ((v + 1) % word) % 2 ≡ 1
odd-next v h = omega arith

even-next : (v : ℕ) → v % 2 ≡ 1 → ((v + 1) % word) % 2 ≡ 0
even-next v h = omega arith

owned : (l : Latch) (i v : ℕ) → LatchOk l → l.owner ≡ some i → LatchOk (record l { version = v })
owned l i v k o = record { even = λ h. absurd (some_ne i (sym o ∙ h)); alone = k.alone }

freed : (l : Latch) → l.version % 2 ≡ 0 → LatchOk (unlock_mutex l)
unfolding unlock_mutex
freed l h = record { even = λ e. h; alone = λ i j e. cc }

checked_exclusive-Ok :
    (s : System) (i : ℕ)
    → SystemOk s
    → (s.guard i).phase ≡ checks_exclusive
    → SystemOk (put s i (check_exclusive s.latch (s.guard i)))
unfolding check_exclusive unlock_mutex
checked_exclusive-Ok s i v p =
    let g = s.guard i in
    let l = s.latch in
    let ok : InPhase checks_exclusive g.state g.version l i =
      subst (λ (x : Phase). InPhase x g.state g.version l i) p (v.guards i) in
    elim (Bool-cases (is_optimistic g.state)) [
      | inr e ↦
          rw (e, check_exclusive) (moved_one s i _ v v.latch (ok.0, ok.1, refl) (λ j ne. stays l j))
      | inl e ↦ elim (Bool-cases (l.version == g.version)) [
        | inl q ↦
            rw (e, q, check_exclusive)
              (moved_one s i _ v (owned l i _ v.latch ok.0)
                (ok.0, refl, odd-next g.version (rw⁻¹ (==-eq l.version g.version q) ok.1))
                (λ j ne. not_owner l _ i j ok.0 ne refl))
        | inr q ↦
            rw (e, q, check_exclusive)
              (moved_one s i _ v (freed l ok.1) tt (λ j ne. not_owner l _ i j ok.0 ne refl))
      ]
    ]

set_shared-Leaves : (l : Latch) (i : ℕ) (b : Bool) (j : ℕ) → j ≢ i → Leaves l (set_shared i b l) j
unfolding set_shared
set_shared-Leaves l i b j ne = ((λ h. (refl, h)), (λ h. rw (==-false j i ne) h))

unshared-LatchOk : (l : Latch) (i : ℕ) → LatchOk l → LatchOk (set_shared i false l)
unfolding set_shared
unshared-LatchOk l i k = record {
  even = k.even;
  alone = λ a j o. elim (Bool-cases (j == i)) [ inl e ↦ rw e refl | inr e ↦ rw e (k.alone a j o) ];
}

shared-LatchOk : (l : Latch) (i : ℕ) → LatchOk l → l.owner ≡ none → LatchOk (set_shared i true l)
unfolding set_shared
shared-LatchOk l i k n = record { even = k.even; alone = λ a j o. absurd (some_ne a (sym o ∙ n)) }

shared_self : (l : Latch) (i : ℕ) → (set_shared i true l).sharers i ≡ true
unfolding set_shared
shared_self l i = rw (==-true i i refl) refl

checked_shared-Ok :
    (s : System) (i : ℕ)
    → SystemOk s
    → (s.guard i).phase ≡ checks_shared
    → SystemOk (put s i (check_shared i s.latch (s.guard i)))
unfolding check_shared
checked_shared-Ok s i v p =
    let g = s.guard i in
    let l = s.latch in
    let ok : l.sharers i ≡ true =
      subst (λ (x : Phase). InPhase x g.state g.version l i) p (v.guards i) in
    elim (Bool-cases (is_optimistic g.state)) [
      | inr e ↦ rw (e, check_shared) (moved_one s i _ v v.latch ok (λ j ne. stays l j))
      | inl e ↦ elim (Bool-cases (l.version == g.version)) [
        | inl q ↦ rw (e, q, check_shared) (moved_one s i _ v v.latch ok (λ j ne. stays l j))
        | inr q ↦
            rw (e, q, check_shared)
              (moved_one s i _ v (unshared-LatchOk l i v.latch) tt
                (λ j ne. set_shared-Leaves l i false j ne))
      ]
    ]

-- What the phase of a guard, and its state at rest, say.
pub phase_of :
    (s : System) (i : ℕ) (p : Phase)
    → SystemOk s
    → (s.guard i).phase ≡ p
    → InPhase p (s.guard i).state (s.guard i).version s.latch i
phase_of s i p v e =
    subst (λ (x : Phase). InPhase x (s.guard i).state (s.guard i).version s.latch i) e (v.guards i)

pub rest_of :
    (s : System) (i : ℕ) (st : GuardState)
    → SystemOk s
    → (s.guard i).phase ≡ at_rest
    → (s.guard i).state ≡ st
    → AtRest st (s.guard i).version s.latch i
rest_of s i st v e q =
    subst (λ (x : GuardState). AtRest x (s.guard i).version s.latch i) q (phase_of s i at_rest v e)

-- Every access keeps the latch and its guards well-formed.
pub Step-SystemOk : {s t : System} → Step s t → SystemOk s → SystemOk t
unfolding lock store_exclusive release unlock_mutex
Step-SystemOk (optimistic_load s i fb p q) v =
    moved_one s i _ v v.latch (to_optimistic-GuardOk fb s.latch (s.guard i) i p q)
      (λ j ne. stays s.latch j)
Step-SystemOk (ask_exclusive s i p q) v = moved_one s i _ v v.latch tt (λ j ne. stays s.latch j)
Step-SystemOk (ask_shared s i p q) v = moved_one s i _ v v.latch tt (λ j ne. stays s.latch j)
Step-SystemOk (give_up s i p) v = moved_one s i _ v v.latch tt (λ j ne. stays s.latch j)
Step-SystemOk (lock_exclusive s i p o f) v =
    moved_one s i _ v (record { even = λ h. absurd (some_ne i h); alone = λ a j h. f j })
      (refl, v.latch.even o) (λ j ne. ((λ h. absurd (some_ne j (sym h ∙ o))), (λ h. h)))
Step-SystemOk (lock_shared s i p o) v =
    moved_one s i _ v (shared-LatchOk s.latch i v.latch o) (shared_self s.latch i)
      (λ j ne. set_shared-Leaves s.latch i true j ne)
Step-SystemOk (checked_exclusive s i p) v = checked_exclusive-Ok s i v p
Step-SystemOk (stored_exclusive s i p) v =
    let (o, e, n) = phase_of s i stores_exclusive v p in
    moved_one s i _ v (owned s.latch i _ v.latch o) (o, refl, rw n (odd-next s.latch.version e))
      (λ j ne. not_owner s.latch _ i j o ne refl)
Step-SystemOk (checked_shared s i p) v = checked_shared-Ok s i v p
Step-SystemOk (released s i p q) v =
    let (o, e, n) = rest_of s i exclusive v p q in
    moved_one s i _ v (owned s.latch i _ v.latch o) (o, even-next (s.guard i).version n)
      (λ j ne. not_owner s.latch _ i j o ne refl)
Step-SystemOk (unlocked s i p) v =
    let (o, e) = phase_of s i releases v p in
    moved_one s i _ v (freed s.latch e) tt (λ j ne. not_owner s.latch _ i j o ne refl)
Step-SystemOk (unlocked_shared s i p q) v =
    moved_one s i _ v (unshared-LatchOk s.latch i v.latch) (rw p tt)
      (λ j ne. set_shared-Leaves s.latch i false j ne)

pub Steps-SystemOk : {s t : System} → Steps s t → SystemOk s → SystemOk t
Steps-SystemOk (rest s) v = v
Steps-SystemOk (after r k) v = Step-SystemOk k (Steps-SystemOk r v)

-- In every state that guards reach from a well-formed one: a guard in the state EXCLUSIVE that is
-- at rest, with no step of a call of its own left to do, is the only one such guard, no guard at
-- rest is SHARED beside it, and the version is odd. A guard that still holds the state of a call
-- that it is in the middle of is not counted.
pub exclusion :
    {s t : System} (i j : ℕ)
    → SystemOk s
    → Steps s t
    → (t.guard i).phase ≡ at_rest
    → (t.guard i).state ≡ exclusive
    → (t.guard j).phase ≡ at_rest
    → ((t.guard j).state ≡ exclusive → j ≡ i)
      × ((t.guard j).state ≢ shared)
      × (is_exclusively_latched t.latch ≡ true)
unfolding is_exclusively_latched
exclusion {t = t} i j v r pi ei pj =
    let w = Steps-SystemOk r v in
    let (o, e, n) = rest_of t i exclusive w pi ei in
    (
      (λ h. some_injective (sym (rest_of t j exclusive w pj h).0 ∙ o)),
      (λ h. true_ne_false (sym (rest_of t j shared w pj h) ∙ w.latch.alone i j o)),
      ==-true (t.latch.version % 2) 1 (rw e n),
    )
