-- ===== src/RuEpoch/Ring.antt =====
-- The ring of the sets of one RUH, as an RU epoch is opened in it and reset.
use native.Mathlib.Nat.{mod-lt}
use epsilon_db.Base.{
  if◌then◌else◌, ◌==◌, ℕ, ◌+◌, ◌%◌, ◌-◌, ◌^◌, ◌<◌, ◌≡◌, ◌≢◌, refl, sym, ap, ◌∙◌, arith, Bool, true,
  false, not, ◌&&◌, ◌||◌, ok, fail, ◌==◌, List, Option, none, some, length, get_elem?,
  get_elem?-set_self, get_elem?-set_ne, length-set, Result, ensure, ◌>>◌, ensure-eq-ok,
  ensure_failed, undefined_behaviour, ==-true, ==-false, ok-injective, waiting,
}
use epsilon_db.RuEpoch.{
  DiscardSet, is_none, open_set, clear, clear_gc_state, reset, at, at_exact, put_at, is_epoch,
}

-- A set by the number of sets and what is found.
abbrev found : ℕ → Option DiscardSet → Result DiscardSet
found n o = elim (n == 0) [
  | true ↦ fail undefined_behaviour
  | false ↦ elim o [ none ↦ fail undefined_behaviour | some s ↦ ok s ]
]

at-found :
    (xs : List DiscardSet) (j n : ℕ) → length xs ≡ n → at xs j ≡ found n (get_elem? xs (j % n))
unfolding at
at-found xs j n l = ap (λ m. found m (get_elem? xs (j % m))) l

at-eq-ok :
    (xs : List DiscardSet) (j n : ℕ) (s : DiscardSet)
    → length xs ≡ n
    → 0 < n
    → get_elem? xs (j % n) ≡ some s
    → at xs j ≡ ok s
at-eq-ok xs j n s l p e =
    at-found xs j n l
    ∙ ap (found n) e
    ∙ ap (λ b. elim b [ true ↦ fail undefined_behaviour | false ↦ ok s ])
        (==-false n 0 (λ z. omega (arith, p, z)))

at_same :
    (xs ys : List DiscardSet) (j : ℕ)
    → length xs ≡ length ys
    → get_elem? xs (j % length ys) ≡ get_elem? ys (j % length ys)
    → at xs j ≡ at ys j
at_same xs ys j l e =
    at-found xs j (length ys) l ∙ ap (found (length ys)) e ∙ sym (at-found ys j (length ys) refl)

at_exact-eq :
    (xs : List DiscardSet) (j : ℕ) (s : DiscardSet)
    → at xs j ≡ ok s
    → at_exact xs j ≡ (ensure (is_epoch s.cur_ru_epoch j) >> ok s)
unfolding at_exact
at_exact-eq xs j s e = rw e refl

module _ (sets : List DiscardSet) (i : ℕ) (s : DiscardSet) (h : i % length sets < length sets) where
  at-put_at : (j : ℕ) → j % length sets ≡ i % length sets → at (put_at sets i s) j ≡ ok s
  unfolding put_at
  at-put_at j e =
      at-eq-ok (put_at sets i s) j (length sets) s (length-set sets (i % length sets) s)
        (omega (arith, h))
        (ap (get_elem? (put_at sets i s)) e ∙ get_elem?-set_self sets (i % length sets) s h)

  at-put_ne : (j : ℕ) → j % length sets ≢ i % length sets → at (put_at sets i s) j ≡ at sets j
  unfolding put_at
  at-put_ne j ne =
      at_same (put_at sets i s) sets j (length-set sets (i % length sets) s)
        (get_elem?-set_ne sets s (λ e. ne (sym e)))

  other_slots :
      (j : ℕ) → j % length sets ≢ i % length sets → at_exact (put_at sets i s) j ≡ at_exact sets j
  unfolding at_exact
  other_slots j ne = rw (at-put_ne j ne) refl

waited :
    (b : Bool) (m : Result DiscardSet) {s : DiscardSet}
    → (if b then fail waiting else m) ≡ ok s
    → m ≡ ok s
waited true m h = cc
waited false m h = h

open_set-epoch :
    (ed : Bool) (e : ℕ) (s s' : DiscardSet) → open_set ed e s ≡ ok s' → s'.cur_ru_epoch ≡ some e
unfolding open_set
open_set-epoch ed e s s' h =
    let r = ensure-eq-ok (not ed || is_none s.cur_ru_epoch) _ (waited (ed && s.active) _ h) in
    sym (ap (λ (x : DiscardSet). x.cur_ru_epoch) (ok-injective r.1))

reset-epoch :
    (ed : Bool) (gc : ℕ) (s s' : DiscardSet)
    → reset ed gc s ≡ ok s'
    → (s'.cur_ru_epoch ≡ none) × (s'.active ≡ false) × (s'.done_gc ≡ gc) × (s'.total ≡ 0)
unfolding reset clear clear_gc_state
reset-epoch ed gc s s' h =
    let r = ensure-eq-ok (ed || s.is_currently_being_garbage_collected) _ h in
    let q = ok-injective (ensure-eq-ok (s.done_gc == 0) _ r.1).1 in
    (
      sym (ap (λ (x : DiscardSet). x.cur_ru_epoch) q),
      sym (ap (λ (x : DiscardSet). x.active) q),
      sym (ap (λ (x : DiscardSet). x.done_gc) q),
      sym (ap (λ (x : DiscardSet). x.total) q),
    )

unopened :
    (s : DiscardSet) (f : ℕ)
    → s.cur_ru_epoch ≡ none
    → f < 2 ^ 64 - 1
    → (ensure (is_epoch s.cur_ru_epoch f) >> ok s) ≡ fail ensure_failed
unfolding is_epoch
unopened s f e h =
    ap (λ o. ensure (is_epoch o f) >> ok s) e
    ∙ ap (λ b. ensure b >> ok s) (==-false f (2 ^ 64 - 1) (λ z. omega (arith, h, z)))

reopened :
    (ed : Bool) (e : ℕ) (s : DiscardSet)
    → s.cur_ru_epoch ≡ none
    → s.active ≡ false
    → open_set ed e s ≡ ok (record s { cur_ru_epoch = some e; active = true })
unfolding open_set is_none
reopened true e s c a = rw (open_set, a, c) refl
reopened false e s c a = refl

is_epoch_lem : (o : Option ℕ) (e f : ℕ) → o ≡ some e → is_epoch o f ≡ (e == f)
unfolding is_epoch
is_epoch_lem o e f h = rw h refl

-- An RU epoch that `open` puts in its slot of a ring that is not empty is found there by the
-- exact access, any other RU epoch of the same slot is refused by an ensure, and every RU epoch of
-- the other slots is found or refused as before. Once the set is reset, every RU epoch of the slot
-- but the one of all ones, -1, is refused, the set is inactive with a total of 0, and the slot can
-- be opened for the next one.
pub open_set-at_exact :
    (ed : Bool) (gc e : ℕ) (sets : List DiscardSet) (s s' : DiscardSet)
    → 0 < length sets
    → at sets e ≡ ok s
    → open_set ed e s ≡ ok s'
    → let ring = put_at sets e s' in
      (at_exact ring e ≡ ok s')
      × ((f : ℕ) → f % length sets ≡ e % length sets → f ≢ e → at_exact ring f ≡ fail ensure_failed)
      × ((f : ℕ) → f % length sets ≢ e % length sets → at_exact ring f ≡ at_exact sets f)
      × ((s'' : DiscardSet)
          → reset ed gc s' ≡ ok s''
          → ((f : ℕ)
              → f % length sets ≡ e % length sets
              → f < 2 ^ 64 - 1
              → at_exact (put_at sets e s'') f ≡ fail ensure_failed)
            × (s''.active ≡ false)
            × (s''.total ≡ 0)
            × (open_set ed (e + length sets) s''
                ≡ ok (record s'' { cur_ru_epoch = some (e + length sets); active = true })))
open_set-at_exact ed gc e sets s s' p ha ho =
    let h : e % length sets < length sets = mod-lt e p in
    let q = open_set-epoch ed e s s' ho in
    (
      at_exact-eq (put_at sets e s') e s' (at-put_at sets e s' h e refl)
          ∙ rw (is_epoch_lem s'.cur_ru_epoch e e q, ==-true e e refl) refl,
      (λ f same ne.
          at_exact-eq (put_at sets e s') f s' (at-put_at sets e s' h f same)
          ∙ rw (is_epoch_lem s'.cur_ru_epoch e f q, ==-false e f (λ x. ne (sym x))) refl),
      (λ f ne. other_slots sets e s' h f ne),
      λ s'' hr.
          let c = reset-epoch ed gc s' s'' hr in
          (
            (λ f same below.
                at_exact-eq (put_at sets e s'') f s'' (at-put_at sets e s'' h f same)
                ∙ unopened s'' f c.0 below),
            c.1,
            c.3,
            reopened ed (e + length sets) s'' c.0 c.1,
          ),
    )
