-- ===== src/Btree/Node/Search/Position.antt =====
-- The position of a key in a node, against its specification over the full keys.
use Prim.Native.Nat.{lt, eq, gt}
use epsilon_db.Base.{
  ltb-true, ltb-false, Bool, ℕ, zero, suc, ◌≡◌, refl, false, none, some, List, [], ◌∷◌, ◌++◌,
  length, take, drop, map, if◌then◌else◌, dec_lt, ltb, arith, ap, sym, ◌∙◌,
}
use epsilon_db.Btree.Key.{Key, compare_bytes, head}
use epsilon_db.Btree.Key.Order.{
  lex, cmp_keys-lex, lex-flip, lex-append, lex-prefix_lt, lex-prefix_gt, lex-prefix_eq,
}
use epsilon_db.Btree.Key.Heads.{IsBytes}
use epsilon_db.Btree.Node.{Slot, Node, Flags, count, prefix}
use epsilon_db.Btree.Node.Search.{search, search_hint, lower_position, lower_bound, exact_position}
use epsilon_db.Btree.Node.Search.Rank.{
  Sorted, AllOk, Bound-rank, rank, holds, search_loop-Bound, Ordering-cases, below, same, above,
}
use epsilon_db.Btree.Node.Search.Hints.{HintsOk, search_hint-Narrowed}

-- Slots in order, with the heads of their keys and the hints of the slots.
pub record NodeOk (n : Node) : Type 0 where
  pub sorted : Sorted n.slots
  pub cached : AllOk n.slots
  pub hinted : HintsOk n

-- The slots with their full keys.
abbrev pub prefixed : Key → List Slot → List Slot
prefixed p ss = map (λ (s : Slot). record s { key = p ++ s.key }) ss

search-rank :
    (f : Flags) (n : Node) (key : Key)
    → NodeOk n
    → IsBytes key
    → ((search f n key).0 ≡ rank key n.slots) × ((search f n key).1 ≡ holds key n.slots)
unfolding search
search-rank f n key v kb =
    let w = search_hint-Narrowed f.hints n key v.sorted v.cached kb v.hinted in
    let b = search_hint f.hints n (head key) in
    Bound-rank n.slots key _ _ (
      search_loop-Bound (count n) f.heads n key b.0 b.1 v.sorted v.cached kb
        (omega (arith, w.inside)) w.inside w.ordered w.smaller w.larger)

pub rank-prefixed :
    (p k : Key) (ss : List Slot)
    → (rank (p ++ k) (prefixed p ss) ≡ rank k ss) × (holds (p ++ k) (prefixed p ss) ≡ holds k ss)
unfolding rank holds
rank-prefixed p k [] = (refl, refl)
rank-prefixed p k (s ∷ ss) = ground (arith, rank-prefixed p k ss, lex-append p s.key k)

pub rank-below :
    (p k : Key) (ss : List Slot)
    → lex (take (length p) k) p ≡ lt
    → (rank k (prefixed p ss) ≡ 0) × (holds k (prefixed p ss) ≡ false)
unfolding rank holds
rank-below p k [] h = (refl, refl)
rank-below p k (s ∷ ss) h = ground (arith, lex-prefix_lt k p s.key h, lex-flip k (p ++ s.key))

pub rank-above :
    (p k : Key) (ss : List Slot)
    → lex (take (length p) k) p ≡ gt
    → (rank k (prefixed p ss) ≡ length ss) × (holds k (prefixed p ss) ≡ false)
unfolding rank holds
rank-above p k [] h = (refl, refl)
rank-above p k (s ∷ ss) h =
    ground (arith, rank-above p k ss h, lex-prefix_gt k p s.key h, lex-flip k (p ++ s.key))

pub IsBytes-drop : (n : ℕ) (k : Key) → IsBytes k → IsBytes (drop n k)
IsBytes-drop zero k h = h
IsBytes-drop (suc n) [] h = tt
IsBytes-drop (suc n) (x ∷ xs) h = IsBytes-drop n xs h.1

lower_position-rank :
    (f : Flags) (n : Node) (key : Key)
    → NodeOk n
    → IsBytes key
    → ((lower_position f n key).0 ≡ rank key (prefixed (prefix n) n.slots))
      × ((lower_position f n key).1 ≡ holds key (prefixed (prefix n) n.slots))
unfolding lower_position
lower_position-rank f n key v kb =
    let p : Key = prefix n in
    let c = cmp_keys-lex (take (length p) key) p in
    elim (Ordering-cases (lex (take (length p) key) p)) [
      | below e ↦
          let (r, h) = rank-below p key n.slots e in rw (c ∙ e, lower_position) (sym r, sym h)
      | above e ↦
          let (r, h) = rank-above p key n.slots e in rw (c ∙ e, lower_position) (sym r, sym h)
      | same e ↦
          let rest : Key = drop (length p) key in
          let (r, h) = rank-prefixed p rest n.slots in
          let (sr, sh) = search-rank f n rest v (IsBytes-drop (length p) key kb) in
          let k = lex-prefix_eq key p e in
          rw (c ∙ e, lower_position)
            (
              sr ∙ sym (ap (λ (x : Key). rank x (prefixed p n.slots)) k ∙ r),
              sh ∙ sym (ap (λ (x : Key). holds x (prefixed p n.slots)) k ∙ h),
            )
    ]

-- In a node whose slots are sorted, cache the heads of their keys, and agree with the hints,
-- `lowerBound` of a key of bytes returns the number of keys of the node that are smaller than the
-- key; in a leaf it says through `is_equal` whether the key is one of them, in an inner node it
-- says nothing. This is so with heads and hints or without.
pub lower_bound_lem :
    (f : Flags) (n : Node) (key : Key)
    → NodeOk n
    → IsBytes key
    → ((lower_bound f n key).0 ≡ rank key (prefixed (prefix n) n.slots))
      × ((lower_bound f n key).1
          ≡ (if n.is_leaf then some (holds key (prefixed (prefix n) n.slots)) else none))
unfolding lower_bound
lower_bound_lem f n key v kb =
    let (r, h) = lower_position-rank f n key v kb in
    (r, ap (λ (b : Bool). if n.is_leaf then some b else none) h)

-- The bytes of a key against a prefix, as far as the key goes.
bytes_against_prefix :
    (k p : Key)
    → (compare_bytes (take (length p) k) p ≡ lt → lex (take (length p) k) p ≡ lt)
      × (compare_bytes (take (length p) k) p ≡ gt → lex (take (length p) k) p ≡ gt)
      × (compare_bytes (take (length p) k) p ≡ eq
          → lex (take (length p) k) p ≡ (if ltb (length k) (length p) then lt else eq))
unfolding compare_bytes
bytes_against_prefix k [] = ((λ e. cc), (λ e. cc), (λ e. ground arith))
bytes_against_prefix [] (y ∷ p) = ((λ e. cc), (λ e. cc), (λ e. ground arith))
bytes_against_prefix (x ∷ k) (y ∷ p) =
    let (l, g, e) = bytes_against_prefix k p in
    ((λ h. ground (arith, l)), (λ h. ground (arith, g)), (λ h. ground (arith, e)))

-- The search for a key's own slot finds it exactly when the key is in the node.
pub exact_position_lem :
    (f : Flags) (n : Node) (key : Key)
    → NodeOk n
    → IsBytes key
    → exact_position f n key ≡ (
        if holds key (prefixed (prefix n) n.slots)
        then some (rank key (prefixed (prefix n) n.slots))
        else none)
unfolding exact_position
exact_position_lem f n key v kb =
    let p : Key = prefix n in
    let k = take (length p) key in
    let (bl, bg, be) = bytes_against_prefix key p in
    elim (Ordering-cases (compare_bytes k p)) [
      | below e ↦ let (r, h) = rank-below p key n.slots (bl e) in rw (e, exact_position, h) refl
      | above e ↦ let (r, h) = rank-above p key n.slots (bg e) in rw (e, exact_position, h) refl
      | same e ↦
          let rest : Key = drop (length p) key in
          let (r, h) = rank-prefixed p rest n.slots in
          let (sr, sh) = search-rank f n rest v (IsBytes-drop (length p) key kb) in
          elim (dec_lt (length key) (length p)) [
            | yes l ↦
                let (r0, h0) =
                  rank-below p key n.slots (be e ∙ rw (ltb-true (length key) (length p) l) refl) in
                rw (e, exact_position, ltb-true (length key) (length p) l, h0) refl
            | no g ↦
                let k =
                  lex-prefix_eq key p (be e ∙ rw (ltb-false (length key) (length p) g) refl) in
                let q = sr ∙ sym (ap (λ (x : Key). rank x (prefixed p n.slots)) k ∙ r) in
                let w = sh ∙ sym (ap (λ (x : Key). holds x (prefixed p n.slots)) k ∙ h) in
                rw (e, exact_position, ltb-false (length key) (length p) g, q, w) refl
          ]
    ]
