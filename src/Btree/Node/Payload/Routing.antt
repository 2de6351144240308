-- ===== src/Btree/Node/Payload/Routing.antt =====
-- A key between the fences, and the child of an inner node to which a key leads.
use Prim.Native.Nat.{Ordering, lt, eq, gt}
use epsilon_db.Base.{
  ℕ, ◌≡◌, refl, Option, none, some, List, [], ◌∷◌, ◌==◌, if◌then◌else◌, length, get_or, arith, ap,
  ◌∙◌, ◌↔◌, ◌⊎◌, inl, inr,
}
use epsilon_db.Btree.Key.{Key, cmp_keys}
use epsilon_db.Btree.Key.Order.{lex, flip, lex-flip, cmp_keys-lex}
use epsilon_db.Btree.Key.Heads.{IsBytes}
use epsilon_db.Btree.Node.{Slot, Fence, Node, Flags, count, prefix, slot_at, key_of, blank}
use epsilon_db.Btree.Node.Search.Rank.{rank}
use epsilon_db.Btree.Node.Search.Position.{NodeOk, prefixed, lower_bound_lem}
use epsilon_db.Btree.Node.Contents.{Entries, entries_of, contents}
use epsilon_db.Btree.Node.Split.Fences.{AboveFence, UpToFence}
use epsilon_db.Btree.Node.Payload.{
  Boundary, inside, lower_or_equal, higher, above_upper, compare_key_with_boundaries, lookup_inner,
}

-- The first child whose key is not smaller, or the last child: the specification.
unfoldable pub route : Key → Entries → List ℕ → List ℕ
route key [] upper = upper
route key (e ∷ es) upper = elim (lex e.0 key) [ lt ↦ route key es upper | eq ↦ e.1 | gt ↦ e.1 ]

rank-route :
    (p key : Key) (ss : List Slot) (upper : List ℕ)
    → (if rank key (prefixed p ss) == length ss
        then upper
        else (get_or ss (rank key (prefixed p ss)) blank).payload)
      ≡ route key (entries_of p ss) upper
unfolding rank route
rank-route p key [] upper = ground arith
rank-route p key (s ∷ ss) upper = ground (arith, rank-route p key ss upper)

-- In an inner node in order, `lookupInner` gives the child of the first separator that is not
-- smaller than the key, and the upper child when all are smaller.
pub lookup_inner_lem :
    (f : Flags) (n : Node) (key : Key)
    → NodeOk n
    → IsBytes key
    → lookup_inner f n key ≡ route key (contents n) n.upper
unfolding lookup_inner
lookup_inner_lem f n key v kb =
    ap (λ (i : ℕ). if i == count n then n.upper else (slot_at n i).payload)
      (lower_bound_lem f n key v kb).0
    ∙ rank-route (prefix n) key n.slots n.upper

at_most_inside :
    (o : Ordering)
    → ((elim o [ lt ↦ inside | eq ↦ inside | gt ↦ higher ]) ≡ inside) ↔ ((o ≡ lt) ⊎ (o ≡ eq))
at_most_inside lt = ((λ h. inl refl), (λ h. refl))
at_most_inside eq = ((λ h. inr refl), (λ h. refl))
at_most_inside gt = ((λ h. cc), (λ h. elim h [ inl e ↦ cc | inr e ↦ cc ]))

above_upper-UpToFence :
    (u : Option Fence) (key : Key) → (above_upper u key ≡ inside) ↔ UpToFence (key_of u) key
unfolding above_upper
above_upper-UpToFence none key = ((λ h. tt), (λ h. refl))
above_upper-UpToFence (some u) key =
    rw (cmp_keys-lex key u.key, above_upper) (at_most_inside (lex key u.key))

above_lower :
    (o : Ordering) (b : Boundary)
    → ((elim o [ lt ↦ lower_or_equal | eq ↦ lower_or_equal | gt ↦ b ]) ≡ inside)
      ↔ ((o ≡ gt) × (b ≡ inside))
above_lower lt b = ((λ h. cc), (λ h. cc))
above_lower eq b = ((λ h. cc), (λ h. cc))
above_lower gt b = ((λ h. (refl, h)), (λ h. h.1))

bounded :
    (l u : Option Fence) (key : Key)
    → ((elim l [
      | none ↦ above_upper u key
      | some f ↦ elim (cmp_keys key f.key) [
        | lt ↦ lower_or_equal
        | eq ↦ lower_or_equal
        | gt ↦ above_upper u key
      ]
    ])
        ≡ inside)
      ↔ (AboveFence (key_of l) key × UpToFence (key_of u) key)
bounded none u key = let (a, b) = above_upper-UpToFence u key in ((λ h. (tt, a h)), (λ h. b h.1))
bounded (some f) u key =
    let (a, b) = above_upper-UpToFence u key in
    let (c, d) = above_lower (lex key f.key) (above_upper u key) in
    let e = lex-flip key f.key in
    let g = lex-flip f.key key in
    rw (cmp_keys-lex key f.key)
      ((λ h. (e ∙ ap flip (c h).0, a (c h).1)), (λ h. d (g ∙ ap flip h.0, b h.1)))

-- `compareKeyWithBoundaries` returns 0 exactly when the key is above the lower fence and at most
-- the upper fence, where there are fences.
pub compare_key_with_boundaries_lem :
    (n : Node) (key : Key)
    → (compare_key_with_boundaries n key ≡ inside)
      ↔ (AboveFence (key_of n.lower_fence) key × UpToFence (key_of n.upper_fence) key)
unfolding compare_key_with_boundaries
compare_key_with_boundaries_lem n key = bounded n.lower_fence n.upper_fence key
