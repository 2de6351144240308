-- ===== src/Btree/Node/Space.antt =====
-- The room of a node: the slots grow up, the keys and payloads grow down, and they do not meet.
use mathlib.Core.Path.{subst}
use epsilon_db.Base.{
  ℕ, zero, suc, ◌+◌, ◌-◌, ◌*◌, ◌^◌, ◌≤◌, ◌<◌, ◌≡◌, refl, true, false, none, some, List, [], ◌∷◌,
  length, leb, leb→le, arith, ap, Bool-cases, inl, inr, length-drop, ok, ensure-eq-ok, ok-injective,
}
use epsilon_db.Btree.Node.{
  Slot, Node, Flags, count, key_of, compactify, request_space_for, make_hint, take_room, free_space,
  free_space_after_compaction, has_enough_space_for, can_insert, space_needed, stored_slot,
  update_hint, insert_at,
}
use epsilon_db.Btree.Node.Heap.{SpaceOk, weight, fences, Heap-insert_at, copied-SpaceOk}
use epsilon_db.Btree.Node.Search.{lower_bound, exact_position, insert, place_slot}
use epsilon_db.Btree.Node.Contents.{Compressed, Moved}
use epsilon_db.Btree.Node.Contents.Compact.{compactify-Kept}
use epsilon_db.Btree.Node.Contents.Sorting.{length-insert_at}

free_space-exact : (n : Node) → SpaceOk n → free_space n ≡ n.data_offset - (149 + 10 * count n)
unfolding free_space
free_space-exact n v = omega (arith, v.heap, v.slots_end)

free_space_after_compaction-exact :
    (n : Node)
    → SpaceOk n
    → free_space_after_compaction n ≡ 4024 - (149 + 10 * count n) - n.space_used
unfolding free_space_after_compaction
free_space_after_compaction-exact n v = omega (arith, v.heap, v.slots_end)

Moved-weight : (ss ts : List Slot) → Moved ss ts → (weight ts ≡ weight ss) × (length ts ≡ length ss)
Moved-weight [] [] m = (refl, refl)
Moved-weight [] (t ∷ ts) m = absurd m
Moved-weight (s ∷ ss) [] m = absurd m
Moved-weight (s ∷ ss) (t ∷ ts) m =
    let (a, b) = Moved-weight ss ts m.4 in
    (omega (arith, a, ap length m.0, ap length m.1), omega (arith, b))

compactify-SpaceOk :
    (f : Flags) (n : Node)
    → SpaceOk n
    → Compressed f n
    → SpaceOk (compactify f n)
      × (count (compactify f n) ≡ count n)
      × ((compactify f n).data_offset + n.space_used ≡ 4024)
unfolding compactify make_hint
compactify-SpaceOk f n v c =
    let k = compactify-Kept f n c in
    let (w, l) = Moved-weight n.slots (compactify f n).slots k.moved in
    let (copied, full) =
      copied-SpaceOk f n n.is_leaf (key_of n.lower_fence) (key_of n.upper_fence) n.slots
        (omega (arith, ap length k.lower, ap length k.upper, w, l, v.used, v.heap, v.slots_end)) in
    (
      record {
        used = copied.used;
        heap = copied.heap;
        slots_end = copied.slots_end;
        apart = copied.apart;
      },
      l,
      omega (arith, full, copied.used, v.used, w, ap length k.lower, ap length k.upper),
    )

-- Room that was asked for and granted is there, before or after compacting.
granted :
    (f : Flags) (n : Node) (needed : ℕ)
    → SpaceOk n
    → Compressed f n
    → has_enough_space_for n needed ≡ true
    → SpaceOk (request_space_for f n needed).1
      × (149 + 10 * count (request_space_for f n needed).1 + needed
          ≤ (request_space_for f n needed).1.data_offset)
      × ((request_space_for f n needed).1.prefix_length ≡ n.prefix_length)
unfolding request_space_for has_enough_space_for
granted f n needed v c h =
    let e = free_space-exact n v in
    let e2 = free_space_after_compaction-exact n v in
    elim (Bool-cases (leb needed (free_space n))) [
      | inl p ↦
          rw (p, request_space_for)
            (v, omega (arith, leb→le needed (free_space n) p, e, v.slots_end), refl)
      | inr p ↦ elim (Bool-cases (leb needed (free_space_after_compaction n))) [
        | inl q ↦
            let (k, l, d) = compactify-SpaceOk f n v c in
            rw (p, q, request_space_for)
              (
                k,
                omega (
                  arith,
                  leb→le needed (free_space_after_compaction n) q,
                  e2,
                  l,
                  d,
                  v.heap,
                  v.slots_end,
                ),
                (compactify-Kept f n c).same,
              )
        | inr q ↦ absurd (ground (arith, p, q, h))
      ]
    ]

weight-insert_at :
    (i : ℕ) (s : Slot) (ss : List Slot)
    → weight (insert_at i s ss) ≡ length s.key + length s.payload + weight ss
weight-insert_at zero s ss = refl
weight-insert_at (suc i) s [] = refl
weight-insert_at (suc i) s (t ∷ ss) = omega (arith, weight-insert_at i s ss)

place_slot-SpaceOk :
    (n : Node) (i : ℕ) (key payload : List ℕ)
    → SpaceOk n
    → 149 + 10 * count n + (10 + (length key - n.prefix_length) + length payload) ≤ n.data_offset
    → SpaceOk (place_slot n i key payload)
unfolding place_slot update_hint take_room stored_slot
place_slot-SpaceOk n i key payload v h =
    let s : Slot = stored_slot n key payload in
    let w = weight-insert_at i s n.slots in
    let l = length-insert_at i s n.slots in
    let d = length-drop n.prefix_length key in
    record {
      used = omega (arith, w, d, v.used, v.heap);
      heap = omega (arith, d, v.heap);
      slots_end = omega (arith, d, l, v.heap);
      apart =
          Heap-insert_at n.data_offset _ i s (fences n) n.slots v.apart (omega (arith, v.heap))
            (omega (arith, d, v.heap)) (omega (arith, d, v.heap, h));
    }

needed_exact :
    (key payload : List ℕ) (p : ℕ)
    → length key < 2 ^ 15
    → length payload < 2 ^ 15 - 10
    → p ≤ length key
    → space_needed (length key) (length payload) p ≡ 10 + (length key - p) + length payload
unfolding space_needed
needed_exact key payload p hk hp le = omega arith

-- A node whose slots, fences, keys and payloads lie apart from each other and within the node,
-- with the bytes counted by `space_used` and the prefix that its fences share, keeps them so after
-- an `insert` that succeeds, of a key of less than 2^15 bytes that is at least as long as the
-- prefix, and a payload of less than 2^15 - 10: no 16-bit size wraps around, whether the node was
-- compacted for it or not.
pub insert_space_lem :
    (f : Flags) (n m : Node) (i : ℕ) (key payload : List ℕ)
    → SpaceOk n
    → Compressed f n
    → length key < 2 ^ 15
    → length payload < 2 ^ 15 - 10
    → n.prefix_length ≤ length key
    → insert f n key payload ≡ ok (i, m)
    → SpaceOk m
unfolding insert can_insert
insert_space_lem f n m i key payload v c hk hp le h =
    let (can, h1) = ensure-eq-ok (can_insert n (length key) (length payload)) _ h in
    let needed : ℕ = space_needed (length key) (length payload) n.prefix_length in
    let n1 : Node = (request_space_for f n needed).1 in
    let (v1, room, same) = granted f n needed v c can in
    let exact = needed_exact key payload n.prefix_length hk hp le in
    let i1 : ℕ = (lower_bound f n1 key).0 in
    let (_, e) =
      ensure-eq-ok (elim (exact_position f n key) [ none ↦ true | some _ ↦ false ])
        (ok (i1, place_slot n1 i1 key payload)) h1 in
    subst SpaceOk (ap (λ (r : ℕ × Node). r.1) (ok-injective e))
      (place_slot-SpaceOk n1 i1 key payload v1 (omega (arith, room, exact, same)))
