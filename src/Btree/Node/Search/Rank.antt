-- ===== src/Btree/Node/Search/Rank.antt =====
-- Binary search over sorted slots finds the number of smaller keys.
use Prim.Native.Nat.{Ordering, lt, eq, gt}
use epsilon_db.Base.{
  ℕ, zero, suc, ◌+◌, ◌-◌, ◌/◌, ◌≤◌, ◌<◌, ◌≡◌, refl, Bool, true, false, List, [], ◌∷◌, length,
  get_or, ltb-true, ltb-false, arith, ap, ◌∙◌, dec_lt,
}
use epsilon_db.Btree.Key.{Key, head}
use epsilon_db.Btree.Key.Order.{lex, flip, lex-flip, lex_trans, lex-eq, cmp_keys-lex}
use epsilon_db.Btree.Key.Heads.{IsBytes, head-lt-lex, head-eq-lex}
use epsilon_db.Btree.Node.{Slot, Node, count, slot_at, blank}
use epsilon_db.Btree.Node.Search.{compare_slot, search_loop}

-- Every slot is above a key, and sorted slots.
abbrev pub Above : Key → List Slot → Type 0
Above k [] = Unit {0}
Above k (s ∷ ss) = (lex k s.key ≡ lt) × Above k ss

abbrev pub Sorted : List Slot → Type 0
Sorted [] = Unit {0}
Sorted (s ∷ ss) = Above s.key ss × Sorted ss

-- A slot caches the head of its key.
pub record SlotOk (s : Slot) : Type 0 where
  pub bytes : IsBytes s.key
  pub cached : s.head ≡ head s.key

abbrev pub AllOk : List Slot → Type 0
AllOk [] = Unit {0}
AllOk (s ∷ ss) = SlotOk s × AllOk ss

blank-SlotOk : SlotOk blank
unfolding head
blank-SlotOk = record { bytes = tt; cached = refl }

pub AllOk-get_or : (ss : List Slot) (i : ℕ) → AllOk ss → SlotOk (get_or ss i blank)
AllOk-get_or [] i h = blank-SlotOk
AllOk-get_or (s ∷ ss) zero h = h.0
AllOk-get_or (s ∷ ss) (suc i) h = AllOk-get_or ss i h.1

Above-get_or :
    (k : Key) (ss : List Slot) (i : ℕ)
    → Above k ss
    → i < length ss
    → lex k (get_or ss i blank).key ≡ lt
Above-get_or k [] i h p = absurd (omega arith)
Above-get_or k (s ∷ ss) zero h p = h.0
Above-get_or k (s ∷ ss) (suc i) h p = Above-get_or k ss i h.1 (omega arith)

pub Sorted-get_or :
    (ss : List Slot) (i j : ℕ)
    → Sorted ss
    → i < j
    → j < length ss
    → lex (get_or ss i blank).key (get_or ss j blank).key ≡ lt
Sorted-get_or [] i j h p q = absurd (omega arith)
Sorted-get_or (s ∷ ss) i zero h p q = absurd (omega arith)
Sorted-get_or (s ∷ ss) zero (suc j) h p q = Above-get_or s.key ss j h.0 (omega arith)
Sorted-get_or (s ∷ ss) (suc i) (suc j) h p q = Sorted-get_or ss i j h.1 (omega arith) (omega arith)

-- The comparison by heads is the comparison of the keys.
pub compare_slot-lex :
    (heads : Bool) (key : Key) (s : Slot)
    → IsBytes key
    → SlotOk s
    → compare_slot heads key (head key) s ≡ lex key s.key
unfolding compare_slot
compare_slot-lex false key s kb ok = cmp_keys-lex key s.key
compare_slot-lex true key s kb ok = ground (
  arith,
  ok.cached,
  head-lt-lex key s.key kb ok.bytes,
  head-lt-lex s.key key ok.bytes kb,
  lex-flip s.key key,
  head-eq-lex key s.key kb ok.bytes,
  cmp_keys-lex key s.key,
)

-- All slots before `p` are smaller than the key, and those from `p` on are not; the flag says
-- whether the key stands there.
pub record Bound (ss : List Slot) (key : Key) (p : ℕ) (found : Bool) : Type 0 where
  pub inside : p ≤ length ss
  pub smaller : (i : ℕ) → i < p → lex (get_or ss i blank).key key ≡ lt
  pub larger : (i : ℕ) → p < i → i < length ss → lex key (get_or ss i blank).key ≡ lt
  pub exact : found ≡ true → (p < length ss) × (lex key (get_or ss p blank).key ≡ eq)
  pub absent : found ≡ false → p < length ss → lex key (get_or ss p blank).key ≡ lt

-- The three outcomes of a comparison.
pub data Compared (o : Ordering) : Type 0 where
  below : o ≡ lt → Compared o
  same : o ≡ eq → Compared o
  above : o ≡ gt → Compared o

pub Ordering-cases : (o : Ordering) → Compared o
Ordering-cases lt = below refl
Ordering-cases eq = same refl
Ordering-cases gt = above refl

-- What the slot in the middle says of those on its sides.
pub below_mid :
    (ss : List Slot) (key : Key) (mid i : ℕ)
    → Sorted ss
    → lex key (get_or ss mid blank).key ≡ lt
    → mid ≤ i
    → i < length ss
    → lex key (get_or ss i blank).key ≡ lt
below_mid ss key mid i so e h k = elim (dec_lt mid i) [
  | yes q ↦
      lex_trans key (get_or ss mid blank).key (get_or ss i blank).key e
        (Sorted-get_or ss mid i so q k)
  | no q ↦ let m : i ≡ mid = omega arith in rw m e
]

pub above_mid :
    (ss : List Slot) (key : Key) (mid i : ℕ)
    → Sorted ss
    → lex (get_or ss mid blank).key key ≡ lt
    → i ≤ mid
    → mid < length ss
    → lex (get_or ss i blank).key key ≡ lt
above_mid ss key mid i so e h k = elim (dec_lt i mid) [
  | yes q ↦
      lex_trans (get_or ss i blank).key (get_or ss mid blank).key key
        (Sorted-get_or ss i mid so q k) e
  | no q ↦ let m : i ≡ mid = omega arith in rw m e
]

pub search_loop-Bound :
    (n : ℕ) (heads : Bool) (node : Node) (key : Key) (lower upper : ℕ)
    → Sorted node.slots
    → AllOk node.slots
    → IsBytes key
    → upper - lower ≤ n
    → upper ≤ count node
    → lower ≤ upper
    → ((i : ℕ) → i < lower → lex (slot_at node i).key key ≡ lt)
    → ((i : ℕ) → upper ≤ i → i < count node → lex key (slot_at node i).key ≡ lt)
    → Bound node.slots key
        (search_loop n heads node key lower upper).0
        (search_loop n heads node key lower upper).1
unfolding search_loop
search_loop-Bound zero heads node key lower upper so ok kb fuel up le small large = record {
  inside = omega arith;
  smaller = small;
  larger = λ i p q. large i (omega arith) q;
  exact = λ e. cc;
  absent = λ e p. large lower (omega arith) p;
}
search_loop-Bound (suc n) heads node key lower upper so ok kb fuel up le small large =
    let mid : ℕ = (upper - lower) / 2 + lower in
    let c = compare_slot-lex heads key (slot_at node mid) kb (AllOk-get_or node.slots mid ok) in
    elim (dec_lt lower upper) [
      | no p ↦ rw (ltb-false lower upper p) (record {
        inside = omega arith;
        smaller = small;
        larger = λ i (q : lower < i) r. large i (omega arith) r;
        exact = λ e. cc;
        absent = λ e q. large lower (omega arith) q;
      })
      | yes p ↦ elim (Ordering-cases (lex key (slot_at node mid).key)) [
        | below e ↦
            rw (ltb-true lower upper p, c ∙ e)
              (search_loop-Bound n heads node key lower mid so ok kb (omega arith) (omega arith)
                (omega arith) small (λ i hi hc. below_mid node.slots key mid i so e hi hc))
        | same e ↦
            rw (ltb-true lower upper p, c ∙ e)
              (record {
                inside = omega arith;
                smaller = λ i q.
                    rw (lex-eq key (slot_at node mid).key e)
                      (Sorted-get_or node.slots i mid so q (omega arith));
                larger = λ i q r.
                    rw (lex-eq key (slot_at node mid).key e)
                      (Sorted-get_or node.slots mid i so q r);
                exact = λ e'. (omega arith, e);
                absent = λ e'. cc;
              })
        | above e ↦
            let e' = lex-flip key (slot_at node mid).key ∙ ap flip e in
            rw (ltb-true lower upper p, c ∙ e)
              (search_loop-Bound n heads node key (mid + 1) upper so ok kb (omega arith) up
                (omega arith)
                (λ i hi. above_mid node.slots key mid i so e' (omega arith) (omega arith)) large)
      ]
    ]

-- The number of smaller keys, and whether the key is there: the specification of a search.
unfoldable pub rank : Key → List Slot → ℕ
rank key [] = 0
rank key (s ∷ ss) = elim (lex s.key key) [ lt ↦ suc (rank key ss) | eq ↦ 0 | gt ↦ 0 ]

unfoldable pub holds : Key → List Slot → Bool
holds key [] = false
holds key (s ∷ ss) = elim (lex s.key key) [ lt ↦ holds key ss | eq ↦ true | gt ↦ false ]

pub Bound-rank :
    (ss : List Slot) (key : Key) (p : ℕ) (found : Bool)
    → Bound ss key p found
    → (p ≡ rank key ss) × (found ≡ holds key ss)
unfolding rank holds
Bound-rank [] key p true b = absurd (omega (arith, (b.exact refl).0))
Bound-rank [] key p false b = (omega (arith, b.inside), refl)
Bound-rank (s ∷ ss) key zero true b = ground (arith, (b.exact refl).1, lex-flip key s.key)
Bound-rank (s ∷ ss) key zero false b =
    ground (arith, b.absent refl (omega arith), lex-flip key s.key)
Bound-rank (s ∷ ss) key (suc p) found b =
    let (r, h) = Bound-rank ss key p found (record {
      inside = omega (arith, b.inside);
      smaller = λ i q. b.smaller (suc i) (omega arith);
      larger = λ i q r. b.larger (suc i) (omega arith) (omega arith);
      exact = λ e. (omega (arith, (b.exact e).0), (b.exact e).1);
      absent = λ e q. b.absent e (omega arith);
    }) in
    rw (b.smaller 0 (omega arith), rank, holds) (ap suc r, h)
