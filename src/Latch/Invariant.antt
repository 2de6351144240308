-- ===== src/Latch/Invariant.antt =====
-- When a latch and its guards are well-formed.
use epsilon_db.Base.{
  ℕ, ◌+◌, ◌%◌, ◌≡◌, ◌≢◌, refl, Bool, true, false, none, some, ap, sym, ◌∙◌, ℕ_discrete, ==-true,
  ==-false, some_injective,
}
use epsilon_db.Latch.{
  Latch, Guard, GuardState, uninitialized, optimistic, shared, exclusive, moved, Phase, at_rest,
  wants_shared, wants_exclusive, checks_shared, checks_exclusive, stores_exclusive, releases,
  jumped, System, put, word,
}

-- What the latch looks like for a guard at rest, and in each phase.
abbrev pub AtRest : GuardState → ℕ → Latch → ℕ → Type 0
AtRest exclusive v l i = (l.owner ≡ some i) × (l.version ≡ v) × (v % 2 ≡ 1)
AtRest shared v l i = l.sharers i ≡ true
AtRest uninitialized v l i = Unit
AtRest optimistic v l i = Unit
AtRest moved v l i = Unit

abbrev pub InPhase : Phase → GuardState → ℕ → Latch → ℕ → Type 0
InPhase at_rest st v l i = AtRest st v l i
InPhase checks_exclusive st v l i = (l.owner ≡ some i) × (l.version % 2 ≡ 0)
InPhase stores_exclusive st v l i =
    (l.owner ≡ some i) × (l.version % 2 ≡ 0) × (v ≡ (l.version + 1) % word)
InPhase releases st v l i = (l.owner ≡ some i) × (l.version % 2 ≡ 0)
InPhase checks_shared st v l i = l.sharers i ≡ true
InPhase wants_shared st v l i = Unit
InPhase wants_exclusive st v l i = Unit
InPhase jumped st v l i = Unit

abbrev pub GuardOk : Latch → ℕ → Guard → Type 0
GuardOk l i g = InPhase g.phase g.state g.version l i

-- A latch that nobody holds alone has an even version, and one that somebody holds alone nobody
-- shares.
pub record LatchOk (l : Latch) : Type 0 where
  pub even : l.owner ≡ none → l.version % 2 ≡ 0
  pub alone : (i j : ℕ) → l.owner ≡ some i → l.sharers j ≡ false

pub record SystemOk (s : System) : Type 0 where
  pub latch : LatchOk s.latch
  pub guards : (i : ℕ) → GuardOk s.latch i (s.guard i)

-- What an access of one guard leaves to another.
abbrev pub Leaves : Latch → Latch → ℕ → Type 0
Leaves l m j =
    (l.owner ≡ some j → (m.version ≡ l.version) × (m.owner ≡ some j))
    × (l.sharers j ≡ true → m.sharers j ≡ true)

Leaves-AtRest :
    (st : GuardState) (v : ℕ) (l m : Latch) (j : ℕ)
    → Leaves l m j
    → AtRest st v l j
    → AtRest st v m j
Leaves-AtRest uninitialized v l m j h g = tt
Leaves-AtRest optimistic v l m j h g = tt
Leaves-AtRest moved v l m j h g = tt
Leaves-AtRest shared v l m j h g = h.1 g
Leaves-AtRest exclusive v l m j h g = let (a, b) = h.0 g.0 in (b, a ∙ g.1, g.2)

Leaves-InPhase :
    (p : Phase) (st : GuardState) (v : ℕ) (l m : Latch) (j : ℕ)
    → Leaves l m j
    → InPhase p st v l j
    → InPhase p st v m j
Leaves-InPhase at_rest st v l m j h g = Leaves-AtRest st v l m j h g
Leaves-InPhase checks_exclusive st v l m j h g = let (a, b) = h.0 g.0 in (b, rw a g.1)
Leaves-InPhase stores_exclusive st v l m j h g = let (a, b) = h.0 g.0 in (b, rw a g.1, rw a g.2)
Leaves-InPhase releases st v l m j h g = let (a, b) = h.0 g.0 in (b, rw a g.1)
Leaves-InPhase checks_shared st v l m j h g = h.1 g
Leaves-InPhase wants_shared st v l m j h g = tt
Leaves-InPhase wants_exclusive st v l m j h g = tt
Leaves-InPhase jumped st v l m j h g = tt

-- One guard moves, and leaves to the others what they rely on.
pub moved_one :
    (s : System) (i : ℕ) (r : Latch × Guard)
    → SystemOk s
    → LatchOk r.0
    → GuardOk r.0 i r.1
    → ((j : ℕ) → j ≢ i → Leaves s.latch r.0 j)
    → SystemOk (put s i r)
unfolding put
moved_one s i r v lo go le = record {
  latch = lo;
  guards = λ j. elim (ℕ_discrete j i) [
    | yes e ↦ rw (==-true j i e, e) go
    | no ne ↦ rw (==-false j i ne) (
        Leaves-InPhase (s.guard j).phase (s.guard j).state (s.guard j).version s.latch r.0 j
          (le j ne) (v.guards j))
  ];
}

pub stays : (l : Latch) (j : ℕ) → Leaves l l j
stays l j = ((λ h. (refl, h)), (λ h. h))

-- The guard that holds the mutex may change the version.
pub not_owner :
    (l m : Latch) (i j : ℕ) → l.owner ≡ some i → j ≢ i → m.sharers ≡ l.sharers → Leaves l m j
not_owner l m i j o ne s =
    ((λ h. absurd (ne (some_injective (sym h ∙ o)))), (λ h. ap (λ (f : ℕ → Bool). f j) s ∙ h))
