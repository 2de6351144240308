-- ===== src/Btree/Node/Contents/Room.antt =====
-- Making room in a node keeps its contents, its prefix and its order.
use epsilon_db.Base.{
  ℕ, ◌≤◌, ◌≡◌, refl, Bool, [], ◌∷◌, length, take, arith, ap, ◌∙◌, if◌then◌else◌, Bool-cases, inl,
  inr, length-take, leb,
}
use epsilon_db.Btree.Key.{Key}
use epsilon_db.Btree.Node.{
  Node, Flags, prefix, fence_key, common_prefix, request_space_for, compactify, free_space,
  free_space_after_compaction,
}
use epsilon_db.Btree.Node.Search.Position.{NodeOk}
use epsilon_db.Btree.Node.Contents.{contents, Compressed}
use epsilon_db.Btree.Node.Contents.Compact.{
  Kept, compactify-Kept, compactify-HintsOk, Moved-refl, Moved-Sorted, Moved-AllOk, Moved-entries,
}

pub compactify-NodeOk : (f : Flags) (n : Node) → Compressed f n → NodeOk n → NodeOk (compactify f n)
compactify-NodeOk f n h v =
    let k = compactify-Kept f n h in
    record {
      sorted = Moved-Sorted n.slots _ k.moved v.sorted;
      cached = Moved-AllOk n.slots _ k.moved v.cached;
      hinted = compactify-HintsOk f n;
    }

-- Room is made without a change of the contents.
pub request_space_for-Kept :
    (f : Flags) (n : Node) (needed : ℕ)
    → Compressed f n
    → NodeOk n
    → Kept n (request_space_for f n needed).1 × NodeOk (request_space_for f n needed).1
unfolding request_space_for
request_space_for-Kept f n needed h v = elim (Bool-cases (leb needed (free_space n))) [
  | inl e ↦
      rw (e, request_space_for)
        (record { lower = refl; upper = refl; same = refl; moved = Moved-refl n.slots }, v)
  | inr e ↦ elim (Bool-cases (leb needed (free_space_after_compaction n))) [
    | inl e2 ↦ rw (e, e2, request_space_for) (compactify-Kept f n h, compactify-NodeOk f n h v)
    | inr e2 ↦
        rw (e, e2, request_space_for)
          (record { lower = refl; upper = refl; same = refl; moved = Moved-refl n.slots }, v)
  ]
]

pub Kept-prefix : (n m : Node) → Kept n m → prefix m ≡ prefix n
Kept-prefix n m k = rw (k.same, k.lower) refl

pub Kept-Compressed : (f : Flags) (n m : Node) → Kept n m → Compressed f n → Compressed f m
Kept-Compressed f n m k h = rw (k.same, k.lower, k.upper) h

pub Kept-contents : (n m : Node) → Kept n m → contents m ≡ contents n
Kept-contents n m k = rw (Kept-prefix n m k) (Moved-entries (prefix n) n.slots m.slots k.moved)

pub common_prefix-inside : (a b : Key) → common_prefix a b ≤ length a
unfolding common_prefix
common_prefix-inside [] b = omega arith
common_prefix-inside (x ∷ a) [] = omega arith
common_prefix-inside (x ∷ a) (y ∷ b) = ground (arith, common_prefix-inside a b)

-- The prefix is in the lower fence.
pub length-prefix : (f : Flags) (n : Node) → Compressed f n → length (prefix n) ≡ n.prefix_length
length-prefix f n h =
    let k : n.prefix_length ≤ length (fence_key n.lower_fence) =
      elim (Bool-cases f.prefix_compression) [
        | inl e ↦ omega (
          arith,
          h
              ∙ ap
                  (λ (b : Bool).
                    if b
                    then common_prefix (fence_key n.lower_fence) (fence_key n.upper_fence)
                    else 0)
                  e,
          common_prefix-inside (fence_key n.lower_fence) (fence_key n.upper_fence),
        )
        | inr e ↦ omega (
          arith,
          h
              ∙ ap
                  (λ (b : Bool).
                    if b
                    then common_prefix (fence_key n.lower_fence) (fence_key n.upper_fence)
                    else 0)
                  e,
        )
      ] in
    omega (arith, length-take n.prefix_length (fence_key n.lower_fence))

-- `key` lies between the fences as far as their common prefix goes.
abbrev pub HasPrefix : Node → Key → Type 0
HasPrefix n key = take (length (prefix n)) key ≡ prefix n
