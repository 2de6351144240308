-- ===== src/Btree/Node/Search/Hints.antt =====
-- The hints narrow the search and never exclude the position searched for.
use Prim.Native.Nat.{lt}
use native.Mathlib.Nat.{mul_comm}
use epsilon_db.Base.{
  ltb-true, ltb-false, ℕ, zero, suc, ◌+◌, ◌-◌, ◌*◌, ◌/◌, ◌≤◌, ◌<◌, ◌≡◌, ◌≢◌, Bool, true, false,
  List, length, get_or, arith, ap, sym, dec_lt, ℕ_discrete,
}
use epsilon_db.Btree.Key.{Key, head}
use epsilon_db.Btree.Key.Order.{lex, lex-flip}
use epsilon_db.Btree.Key.Heads.{IsBytes, head-lt-lex}
use epsilon_db.Btree.Node.{Slot, Node, count, slot_at, blank}
use epsilon_db.Btree.Node.Search.{hint_ge, hint_ne, search_hint}
use epsilon_db.Btree.Node.Search.Rank.{
  Sorted, AllOk, AllOk-get_or, Sorted-get_or, below_mid, above_mid,
}

-- The hints of a node that is large enough are heads of slots at equal distances.
abbrev pub HintsOk : Node → Type 0
HintsOk n = 32 < count n → (i : ℕ) → i < 16 → n.hint i ≡ (slot_at n (count n / 17 * (i + 1))).head

record First (hint : ℕ → ℕ) (h i n r : ℕ) : Type 0 where
  from : i ≤ r
  to : r ≤ i + n
  before : (j : ℕ) → i ≤ j → j < r → hint j < h
  here : r < i + n → h ≤ hint r

hint_ge-First : (n : ℕ) (hint : ℕ → ℕ) (h i : ℕ) → First hint h i n (hint_ge n hint h i)
unfolding hint_ge
hint_ge-First zero hint h i = record {
  from = omega arith;
  to = omega arith;
  before = λ j p q. absurd (omega arith);
  here = λ p. absurd (omega arith);
}
hint_ge-First (suc n) hint h i =
    let k = hint_ge-First n hint h (i + 1) in
    elim (dec_lt (hint i) h) [
      | yes p ↦ record {
        from = ground (arith, k.from);
        to = ground (arith, k.to);
        before = λ j a b. elim (ℕ_discrete i j) [
          | yes e ↦ rw (sym e) p
          | no ne ↦ ground (arith, k.before j (omega arith))
        ];
        here = λ a. ground (arith, k.here);
      }
      | no p ↦ record {
        from = ground arith;
        to = ground arith;
        before = λ j a b. ground arith;
        here = λ a. ground arith;
      }
    ]

record FirstOther (hint : ℕ → ℕ) (h i n r : ℕ) : Type 0 where
  from : i ≤ r
  to : r ≤ i + n
  here : r < i + n → hint r ≢ h

hint_ne-FirstOther : (n : ℕ) (hint : ℕ → ℕ) (h i : ℕ) → FirstOther hint h i n (hint_ne n hint h i)
unfolding hint_ne
hint_ne-FirstOther zero hint h i = record {
  from = omega arith;
  to = omega arith;
  here = λ p. absurd (omega arith);
}
hint_ne-FirstOther (suc n) hint h i =
    let k = hint_ne-FirstOther n hint h (i + 1) in
    elim (ℕ_discrete (hint i) h) [
      | yes p ↦ record {
        from = ground (arith, k.from);
        to = ground (arith, k.to);
        here = λ a. ground (arith, k.here);
      }
      | no p ↦ record { from = ground arith; to = ground arith; here = λ a. ground arith }
    ]

-- A smaller key has no larger head.
lex-lt-head : (a b : Key) → IsBytes a → IsBytes b → lex a b ≡ lt → head a ≤ head b
lex-lt-head a b ha hb h = elim (dec_lt (head b) (head a)) [
  | yes p ↦ absurd (ground (arith, head-lt-lex b a hb ha p, lex-flip a b))
  | no p ↦ omega arith
]

heads_mono :
    (ss : List Slot) (i j : ℕ)
    → Sorted ss
    → AllOk ss
    → i ≤ j
    → j < length ss
    → (get_or ss i blank).head ≤ (get_or ss j blank).head
heads_mono ss i j so ok p q = elim (dec_lt i j) [
  | yes r ↦
      let a = AllOk-get_or ss i ok in
      let b = AllOk-get_or ss j ok in
      omega (
        arith,
        a.cached,
        b.cached,
        lex-lt-head (get_or ss i blank).key (get_or ss j blank).key a.bytes b.bytes
            (Sorted-get_or ss i j so r q),
      )
  | no r ↦ let e : i ≡ j = omega arith in rw e (omega arith)
]

-- Between these bounds stands the position of the key.
pub record Narrowed (n : Node) (key : Key) (lower upper : ℕ) : Type 0 where
  pub ordered : lower ≤ upper
  pub inside : upper ≤ count n
  pub smaller : (i : ℕ) → i < lower → lex (slot_at n i).key key ≡ lt
  pub larger : (i : ℕ) → upper ≤ i → i < count n → lex key (slot_at n i).key ≡ lt

pub mul_mono : (a b m : ℕ) → a ≤ b → a * m ≤ b * m
mul_mono a b m h = grind arith

-- The slot of a hint is a slot of the node.
hinted_inside : (n j : ℕ) → 32 < n → j < 16 → n / 17 * (j + 1) < n
hinted_inside n j h k =
    omega (arith, mul_mono (j + 1) 16 (n / 17) (omega arith), mul_comm (j + 1) (n / 17))

module _ (n : Node) (key : Key) (so : Sorted n.slots) (ok : AllOk n.slots) (kb : IsBytes key)
    (ho : HintsOk n) (big : 32 < count n) where
  before_hint :
      (pos i : ℕ)
      → First n.hint (head key) 0 16 pos
      → i < pos * (count n / 17)
      → lex (slot_at n i).key key ≡ lt
  before_hint zero i f h = absurd (omega arith)
  before_hint (suc j) i f h =
      let d : ℕ = count n / 17 in
      let small : j < 16 = omega (arith, f.to) in
      let sj : suc j ≡ j + 1 = omega arith in
      let s = slot_at n (d * (j + 1)) in
      let k = AllOk-get_or n.slots (d * (j + 1)) ok in
      let e : head s.key < head key =
        omega (arith, f.before j (omega arith) (omega arith), ho big j small, k.cached) in
      above_mid n.slots key (d * (j + 1)) i so (head-lt-lex s.key key k.bytes kb e)
        (omega (arith, mul_comm (j + 1) d, ap (λ (t : ℕ). t * d) sj))
        (hinted_inside (count n) j big small)

  after_hint :
      (pos pos2 i : ℕ)
      → First n.hint (head key) 0 16 pos
      → FirstOther n.hint (head key) pos (16 - pos) pos2
      → pos2 < 16
      → (pos2 + 1) * (count n / 17) ≤ i
      → i < count n
      → lex key (slot_at n i).key ≡ lt
  after_hint pos pos2 i f g small h k =
      let d : ℕ = count n / 17 in
      let s = slot_at n (d * (pos2 + 1)) in
      let inside = hinted_inside (count n) pos2 big small in
      let c = AllOk-get_or n.slots (d * (pos2 + 1)) ok in
      let e : head key < head s.key = omega (
        arith,
        f.here (omega (arith, g.from)),
        ho big pos (omega (arith, g.from)),
        ho big pos2 small,
        heads_mono n.slots (d * (pos + 1)) (d * (pos2 + 1)) so ok
            (omega (
              arith,
              mul_mono (pos + 1) (pos2 + 1) d (omega (arith, g.from)),
              mul_comm (pos + 1) d,
              mul_comm (pos2 + 1) d,
            ))
            inside,
        c.cached,
        g.here (omega (arith, g.from)),
      ) in
      below_mid n.slots key (d * (pos2 + 1)) i so (head-lt-lex key s.key kb c.bytes e)
        (omega (arith, mul_comm (pos2 + 1) d)) k

pub search_hint-Narrowed :
    (hints : Bool) (n : Node) (key : Key)
    → Sorted n.slots
    → AllOk n.slots
    → IsBytes key
    → HintsOk n
    → Narrowed n key (search_hint hints n (head key)).0 (search_hint hints n (head key)).1
unfolding search_hint
search_hint-Narrowed false n key so ok kb ho = record {
  ordered = omega arith;
  inside = omega arith;
  smaller = λ i p. absurd (omega arith);
  larger = λ i p q. absurd (omega arith);
}
search_hint-Narrowed true n key so ok kb ho = elim (dec_lt 32 (count n)) [
  | no p ↦ rw (ltb-false 32 (count n) p) (record {
    ordered = omega arith;
    inside = omega arith;
    smaller = λ i (q : i < 0). absurd (omega arith);
    larger = λ i (q : count n ≤ i) r. absurd (omega arith);
  })
  | yes p ↦
      let d : ℕ = count n / 17 in
      let pos : ℕ = hint_ge 16 n.hint (head key) 0 in
      let f = hint_ge-First 16 n.hint (head key) 0 in
      let pos2 : ℕ = hint_ne (16 - pos) n.hint (head key) pos in
      let g = hint_ne-FirstOther (16 - pos) n.hint (head key) pos in
      let low : pos * d ≤ count n = omega (arith, mul_mono pos 16 d f.to) in
      elim (dec_lt pos2 16) [
        | yes q ↦
            rw (ltb-true 32 (count n) p, ltb-true pos2 16 q)
              (record {
                ordered = mul_mono pos (pos2 + 1) d (omega (arith, g.from));
                inside = omega (arith, mul_mono (pos2 + 1) 16 d (omega arith));
                smaller = λ i h. before_hint n key so ok kb ho p pos i f h;
                larger = λ i h r. after_hint n key so ok kb ho p pos pos2 i f g q h r;
              })
        | no q ↦
            rw (ltb-true 32 (count n) p, ltb-false pos2 16 q)
              (record {
                ordered = low;
                inside = omega arith;
                smaller = λ i h. before_hint n key so ok kb ho p pos i f h;
                larger = λ i (h : count n ≤ i) r. absurd (omega arith);
              })
      ]
]
