-- ===== src/Btree/Node/Contents/Hinting.antt =====
-- The hints after a slot was inserted, or written afresh.
use native.Mathlib.Nat.{mul_comm, div-mul-le_self}
use epsilon_db.Base.{
  ltb-true, ltb-false, ℕ, suc, ◌+◌, ◌-◌, ◌*◌, ◌/◌, ◌≤◌, ◌<◌, ◌≡◌, refl, Bool, true, false, ◌&&◌,
  List, length, get_or, arith, ap, ◌∙◌, ltb, ◌==◌, if◌then◌else◌, dec_lt, Bool-cases, inl, inr,
  ltb→lt, ==-eq,
}
use epsilon_db.Btree.Node.{
  Slot, Node, count, slot_at, hint_begin, make_hint, update_hint, insert_at, blank,
}
use epsilon_db.Btree.Node.Search.Hints.{HintsOk, mul_mono}
use epsilon_db.Btree.Node.Contents.Sorting.{length-insert_at, get_or-insert_at}

pub make_hint-HintsOk : (n : Node) → HintsOk (make_hint n)
unfolding make_hint
make_hint-HintsOk n h i k = refl

&&-true3 : (a b c : Bool) → (a && (b && c)) ≡ true → (a ≡ true) × (b ≡ true) × (c ≡ true)
&&-true3 true true c h = (refl, refl, h)
&&-true3 true false c h = cc
&&-true3 false b c h = cc

-- Where `updateHint` starts late, the hints before have their distance, and their slots are
-- before the new one.
hint_begin-late :
    (n : Node) (slot_id i : ℕ)
    → i < hint_begin n slot_id
    → (33 < count n) × ((count n - 1) / 17 ≡ count n / 17) × (count n / 17 * (i + 1) < slot_id)
unfolding hint_begin
hint_begin-late n slot_id i h =
    let d : ℕ = count n / 17 in
    elim (Bool-cases (ltb 33 (count n) && (((count n - 1) / 17 == d) && ltb 1 (slot_id / d)))) [
      | inr e ↦ absurd (ground (arith, e))
      | inl e ↦
          let (a, b, c) = &&-true3 _ _ _ e in
          let q : i < slot_id / d - 1 =
            rw⁻¹ (ap (λ (t : Bool). if t then slot_id / d - 1 else 0) e) h in
          (
            ltb→lt 33 (count n) a,
            ==-eq ((count n - 1) / 17) d b,
            omega (
              arith,
              ltb→lt 33 (count n) a,
              div-mul-le_self slot_id d,
              mul_mono (i + 2) (slot_id / d) d (omega arith),
              mul_comm d (i + 1),
            ),
          )
    ]

pub update_hint-HintsOk :
    (n m : Node) (i : ℕ) (s : Slot)
    → HintsOk n
    → i ≤ count n
    → m.hint ≡ n.hint
    → m.slots ≡ insert_at i s n.slots
    → HintsOk (update_hint m i)
unfolding update_hint
update_hint-HintsOk n m i s ho le hh hs big j small = elim (dec_lt j (hint_begin m i)) [
  | no p ↦ rw (ltb-false j (hint_begin m i) p) refl
  | yes p ↦
      let (large, d, before) = hint_begin-late m i j p in
      let c : count m ≡ suc (count n) = ap length hs ∙ length-insert_at i s n.slots in
      let e : count n / 17 ≡ count m / 17 = ap (λ (t : ℕ). t / 17) (omega (arith, c)) ∙ d in
      let k : slot_at m (count m / 17 * (j + 1)) ≡ slot_at n (count m / 17 * (j + 1)) =
        ap (λ (t : List Slot). get_or t (count m / 17 * (j + 1)) blank) hs
        ∙ get_or-insert_at i (count m / 17 * (j + 1)) s n.slots before le in
      rw (ltb-true j (hint_begin m i) p, hh, ho (omega (arith, c)) j small, e, k) refl
]
