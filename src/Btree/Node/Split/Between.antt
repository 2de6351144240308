-- ===== src/Btree/Node/Split/Between.antt =====
-- The separator of a leaf stands between its halves.
use Prim.Native.Nat.{lt, eq}
use mathlib.Core.Path.{subst}
use epsilon_db.Base.{
  ltb-true, ltb-false, ℕ, zero, suc, ◌+◌, ◌-◌, ◌/◌, ◌^◌, ◌≤◌, ◌<◌, ◌≡◌, ◌⊎◌, inl, inr, refl, Bool,
  true, [], ◌∷◌, ◌++◌, if◌then◌else◌, length, take, arith, ap, sym, ◌∙◌, dec_lt,
}
use epsilon_db.Btree.Key.{Key}
use epsilon_db.Btree.Key.Order.{lex, lex-append, lex_refl}
use epsilon_db.Btree.Node.{Node, count, prefix, full_key, common_prefix, slot_at, sub16, add16}
use epsilon_db.Btree.Node.Search.Rank.{Sorted, Sorted-get_or}
use epsilon_db.Btree.Node.Split.{
  Separator, shared, best_from, best_slot, whole_sep, leaf_sep, find_sep, get_sep,
}

best_from-inside :
    (k : ℕ) (n : Node) (best i : ℕ) → (i ≤ best_from k n best i) × (best_from k n best i ≤ i + k)
unfolding best_from
best_from-inside zero n best i = (omega arith, omega arith)
best_from-inside (suc k) n best i =
    let (a, b) = best_from-inside k n best (i + 1) in ground (arith, a, b)

-- There is a slot after the one where a leaf is split.
pub best_slot-inside : (n : Node) → 1 < count n → best_slot n + 1 < count n
unfolding best_slot
best_slot-inside n h =
    let lower : ℕ = count n / 2 - count n / 16 in
    let (a, b) = best_from-inside (count n / 2 - (lower + 1)) n (shared n lower 0) (lower + 1) in
    ground (arith, a, b)

-- A key cut after the first byte where it differs from a smaller key.
cut_between :
    (a b : Key)
    → lex a b ≡ lt
    → common_prefix a b < length a
    → suc (common_prefix a b) < length b
    → (lex a (take (suc (common_prefix a b)) b) ≡ lt)
      × (lex (take (suc (common_prefix a b)) b) b ≡ lt)
unfolding common_prefix
cut_between [] b h p q = absurd (omega arith)
cut_between (x ∷ a) [] h p q = cc
cut_between (x ∷ a) (y ∷ []) h p q = ground arith
cut_between (x ∷ a) (y ∷ z ∷ b) h p q = ground (arith, cut_between a (z ∷ b), lex_refl (y ∷ []))

shared_some :
    (n : Node) (i j : ℕ)
    → 0 < count n
    → shared n i j ≡ common_prefix (slot_at n i).key (slot_at n j).key
unfolding shared
shared_some n i j h = ground arith

take-all : (k : Key) → take (length k) k ≡ k
take-all [] = refl
take-all (x ∷ k) = ap (λ (t : Key). x ∷ t) (take-all k)

-- Every full key of the node has a length of 16 bits.
abbrev pub ShortKeys : Node → Type 0
ShortKeys n = (i : ℕ) → n.prefix_length + length (slot_at n i).key < 2 ^ 16

cut_length : (p c : ℕ) → p + c < 2 ^ 16 → sub16 (add16 p c) p ≡ c
cut_length p c h = ground arith

-- `lex a b ≢ gt`, as an alternative.
abbrev pub AtMost : Key → Key → Type 0
AtMost a b = (lex a b ≡ lt) ⊎ (lex a b ≡ eq)

-- A separator is between two neighbours, which the slots have.
abbrev pub Separates : Node → Separator → Type 0
Separates n info =
    (info.slot + 1 < count n)
    × AtMost (full_key n (slot_at n info.slot)) (get_sep n info)
    × (lex (get_sep n info) (full_key n (slot_at n (info.slot + 1))) ≡ lt)

whole_sep-Separates :
    (n : Node) (i : ℕ)
    → i + 1 < count n
    → Sorted n.slots
    → ShortKeys n
    → Separates n (whole_sep n i)
unfolding whole_sep get_sep full_key
whole_sep-Separates n i h so short =
    let a : Key = (slot_at n i).key in
    let b : Key = (slot_at n (i + 1)).key in
    let below = Sorted-get_or n.slots i (i + 1) so (omega arith) h in
    let e : take (sub16 (add16 n.prefix_length (length a)) n.prefix_length) a ≡ a =
      ap (λ (c : ℕ). take c a) (cut_length n.prefix_length (length a) (short i)) ∙ take-all a in
    rw e (h, inr (lex_refl (prefix n ++ a)), lex-append (prefix n) a b ∙ below)

cut_sep-Separates :
    (n : Node) (i : ℕ)
    → i + 1 < count n
    → Sorted n.slots
    → ShortKeys n
    → shared n i (i + 1) < length (slot_at n i).key
    → shared n i (i + 1) + 1 < length (slot_at n (i + 1)).key
    → Separates n
        (record { length = add16 n.prefix_length (shared n i (i + 1) + 1); slot = i; trunc = true })
unfolding get_sep full_key
cut_sep-Separates n i h so short p q =
    let a : Key = (slot_at n i).key in
    let b : Key = (slot_at n (i + 1)).key in
    let c : ℕ = shared n i (i + 1) in
    let below = Sorted-get_or n.slots i (i + 1) so (omega arith) h in
    let ce : c ≡ common_prefix a b = shared_some n i (i + 1) (omega arith) in
    let e : sub16 (add16 n.prefix_length (c + 1)) n.prefix_length ≡ suc (common_prefix a b) =
      cut_length n.prefix_length (c + 1) (omega (arith, short (i + 1))) ∙ omega (arith, ce) in
    let (l, r) = cut_between a b below (omega arith) (omega arith) in
    rw e (h, inl (lex-append (prefix n) a _ ∙ l), lex-append (prefix n) _ b ∙ r)

leaf_sep-Separates :
    (n : Node) (i : ℕ) → i + 1 < count n → Sorted n.slots → ShortKeys n → Separates n (leaf_sep n i)
unfolding leaf_sep
leaf_sep-Separates n i h so short =
    let c : ℕ = shared n i (i + 1) in
    elim (dec_lt c (length (slot_at n i).key)) [
      | no p ↦
          rw (ltb-true (i + 1) (count n) h, ltb-false c (length (slot_at n i).key) p)
            (whole_sep-Separates n i h so short)
      | yes p ↦ elim (dec_lt (c + 1) (length (slot_at n (i + 1)).key)) [
        | no q ↦
            rw
              (
                ltb-true (i + 1) (count n) h,
                ltb-true c (length (slot_at n i).key) p,
                ltb-false (c + 1) (length (slot_at n (i + 1)).key) q,
              )
              (whole_sep-Separates n i h so short)
        | yes q ↦
            rw
              (
                ltb-true (i + 1) (count n) h,
                ltb-true c (length (slot_at n i).key) p,
                ltb-true (c + 1) (length (slot_at n (i + 1)).key) q,
              )
              (cut_sep-Separates n i h so short p q)
      ]
    ]

-- The separator that `findSep` and `getSep` choose for a leaf of at least two keys, in order and
-- shorter than 2^16 bytes, is at least the key of the slot where the leaf is split, and below
-- the key of the next slot, which is a slot of the leaf.
pub get_sep_between :
    (n : Node)
    → n.is_leaf ≡ true
    → 1 < count n
    → Sorted n.slots
    → ShortKeys n
    → Separates n (find_sep n)
unfolding find_sep
get_sep_between n leaf h so short =
    subst
      (λ (b : Bool).
        Separates n (if b then leaf_sep n (best_slot n) else whole_sep n (count n / 2)))
      (sym leaf) (leaf_sep-Separates n (best_slot n) (best_slot-inside n h) so short)
