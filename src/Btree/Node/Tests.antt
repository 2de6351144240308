-- ===== src/Btree/Node/Tests.antt =====
-- Runs of the operations of a node, and the theorems at a leaf of three keys between two fences.
use epsilon_db.Base.{
  ℕ, zero, suc, ◌+◌, ◌*◌, ◌^◌, ◌≡◌, inl, inr, refl, true, false, some, List, [], ◌∷◌, ok, arith,
  length,
}
use epsilon_db.Btree.Key.{Key, head, cmp_keys, compare_bytes}
use epsilon_db.Btree.Node.{
  Slot, Node, Flags, slot_at, full_key, make_hint, free_space, free_space_after_compaction,
  has_enough_space_for, space_needed, can_insert, stored_slot, take_room, append_slot, copy_slot,
  copy_range, placed_fence, fence_room, common_prefix, set_fences, fresh, request_space_for, reset,
}
use epsilon_db.Btree.Node.Search.{
  lower_position, lower_bound, insert, remove, place_slot, exact_position, search, search_hint,
  hint_ge, hint_ne, search_loop, compare_slot,
}
use epsilon_db.Btree.Node.Search.Rank.{rank, holds}
use epsilon_db.Btree.Node.Search.Position.{NodeOk, lower_bound_lem}
use epsilon_db.Btree.Node.Contents.{contents, find, put, erase, Compressed}
use epsilon_db.Btree.Node.Contents.Update.{insert_lem, remove_lem}
use epsilon_db.Btree.Node.Heap.{SpaceOk, Fits}
use epsilon_db.Btree.Node.Space.{insert_space_lem}
use epsilon_db.Btree.Node.Split.{
  half_fits, shared, best_from, best_slot, whole_sep, leaf_sep, find_sep, get_sep, left_half,
  right_half, with_swip, swap_children, merge_space_upper_bound, merge_bound, merge,
}
use epsilon_db.Btree.Node.Split.Between.{ShortKeys}
use epsilon_db.Btree.Node.Split.Fences.{InFences}
use epsilon_db.Btree.Node.Split.Halves.{Splittable, HalfOk, split_leaf_lem, find_sep-Splittable}
use epsilon_db.Btree.Node.Payload.{
  compare_key_with_boundaries, above_upper, inside, lower_or_equal, higher, lookup_inner, freeze,
  every_frozen, all_frozen, space_used_by_slot, shorten_payload, can_extend_payload, extend_payload,
  zero_free_space,
}
use epsilon_db.Btree.Node.Payload.Routing.{route, lookup_inner_lem}

abbrev flags : Flags
flags = record { heads = true; hints = true; prefix_compression = true; split_alloc_right = true }

abbrev slot_of : ℕ → Key → ℕ → List ℕ → Slot
slot_of offset key head payload = record {
  offset = offset;
  key = key;
  payload = payload;
  frozen = false;
  head = head;
}

-- The keys [7, 1], [7, 2] and [7, 2, 5], without their first byte.
abbrev leaf : Node
leaf = record (fresh true) {
  lower_fence = some (record { offset = 4023; key = 7 ∷ [] });
  upper_fence = some (record { offset = 4021; key = 7 ∷ 9 ∷ [] });
  space_used = 10;
  data_offset = 4014;
  prefix_length = 1;
  slots =
      slot_of 4019 (1 ∷ []) (1 * 2 ^ 24) (31 ∷ [])
      ∷ slot_of 4017 (2 ∷ []) (2 * 2 ^ 24) (32 ∷ [])
      ∷ slot_of 4014 (2 ∷ 5 ∷ []) (2 * 2 ^ 24 + 5 * 2 ^ 16) (33 ∷ [])
      ∷ [];
}

leaf-NodeOk : NodeOk leaf
unfolding head
leaf-NodeOk = record {
  sorted = ((refl, (refl, tt)), ((refl, tt), (tt, tt)));
  cached = (
    record { bytes = (omega arith, tt); cached = refl },
    (
      record { bytes = (omega arith, tt); cached = refl },
      (record { bytes = (omega arith, (omega arith, tt)); cached = refl }, tt),
    ),
  );
  hinted = λ big. absurd (omega arith);
}

leaf-Compressed : Compressed flags leaf
unfolding common_prefix
leaf-Compressed = refl

leaf-InFences : InFences leaf
leaf-InFences = (
  refl,
  inl refl,
  (omega arith, (omega arith, tt)),
  (
    refl,
    inl refl,
    (omega arith, (omega arith, tt)),
    (refl, inl refl, (omega arith, (omega arith, (omega arith, tt))), tt),
  ),
)

lower_bound_lem_example :
    ((lower_bound flags leaf (7 ∷ 2 ∷ 5 ∷ [])).0 ≡ 2)
    × ((lower_bound flags leaf (7 ∷ 2 ∷ 5 ∷ [])).1 ≡ some true)
unfolding rank holds
lower_bound_lem_example =
    lower_bound_lem flags leaf (7 ∷ 2 ∷ 5 ∷ []) leaf-NodeOk
      (omega arith, (omega arith, (omega arith, tt)))

leaf-SpaceOk : SpaceOk leaf
leaf-SpaceOk = record {
  used = refl;
  heap = omega arith;
  slots_end = omega arith;
  apart = (
    omega arith,
    omega arith,
    (inr (omega arith), (inr (omega arith), (inr (omega arith), (inr (omega arith), tt)))),
    (
      omega arith,
      omega arith,
      (inr (omega arith), (inr (omega arith), (inr (omega arith), tt))),
      (
        omega arith,
        omega arith,
        (inr (omega arith), (inr (omega arith), tt)),
        (omega arith, omega arith, (inr (omega arith), tt), (omega arith, omega arith, tt, tt)),
      ),
    ),
  );
}

insert_lem_example :
    (m : Node) × (insert flags leaf (7 ∷ 2 ∷ 3 ∷ []) (34 ∷ []) ≡ ok (2, m))
    × NodeOk m
    × Compressed flags m
    × (contents m ≡ put (7 ∷ 2 ∷ 3 ∷ []) (34 ∷ []) (contents leaf))
    × SpaceOk m
unfolding rank find can_insert space_needed has_enough_space_for free_space
insert_lem_example =
    insert_lem flags leaf (7 ∷ 2 ∷ 3 ∷ []) (34 ∷ []) leaf-NodeOk leaf-Compressed leaf-SpaceOk
      (omega arith, (omega arith, (omega arith, tt))) refl (omega arith) (omega arith) refl refl

remove_lem_example :
    ((remove flags leaf (7 ∷ 2 ∷ [])).0 ≡ true)
    × NodeOk (remove flags leaf (7 ∷ 2 ∷ [])).1
    × Compressed flags (remove flags leaf (7 ∷ 2 ∷ [])).1
    × (contents (remove flags leaf (7 ∷ 2 ∷ [])).1
        ≡ (7 ∷ 1 ∷ [], 31 ∷ []) ∷ (7 ∷ 2 ∷ 5 ∷ [], 33 ∷ []) ∷ [])
unfolding find erase
remove_lem_example =
    remove_lem flags leaf (7 ∷ 2 ∷ []) leaf-NodeOk leaf-Compressed (omega arith, (omega arith, tt))

-- The leaf with a fourth key.
abbrev fuller : Node
fuller = place_slot leaf 2 (7 ∷ 2 ∷ 3 ∷ []) (34 ∷ [])

inserted : insert flags leaf (7 ∷ 2 ∷ 3 ∷ []) (34 ∷ []) ≡ ok (2, fuller)
unfolding insert exact_position lower_bound lower_position search search_hint hint_ge hint_ne
    search_loop compare_slot cmp_keys compare_bytes head request_space_for free_space space_needed
    can_insert has_enough_space_for
inserted = refl

insert_space_lem_example : SpaceOk fuller
insert_space_lem_example =
    insert_space_lem flags leaf fuller 2 (7 ∷ 2 ∷ 3 ∷ []) (34 ∷ []) leaf-SpaceOk leaf-Compressed
      (omega arith) (omega arith) (omega arith) inserted

leaf-ShortKeys : ShortKeys leaf
leaf-ShortKeys zero = omega arith
leaf-ShortKeys (suc zero) = omega arith
leaf-ShortKeys (suc (suc zero)) = omega arith
leaf-ShortKeys (suc (suc (suc i))) = omega arith

-- The slot and the separator that the leaf is split by.
leaf_separator :
    (find_sep leaf ≡ record { length = 2; slot = 1; trunc = false })
    × (get_sep leaf (find_sep leaf) ≡ 7 ∷ 2 ∷ [])
unfolding find_sep get_sep best_slot leaf_sep whole_sep shared common_prefix best_from
leaf_separator = (refl, refl)

find_sep-Splittable_example :
    Splittable flags leaf (find_sep leaf).slot (get_sep leaf (find_sep leaf))
find_sep-Splittable_example =
    find_sep-Splittable flags leaf refl leaf-NodeOk leaf-Compressed leaf-InFences (omega arith)
      leaf-ShortKeys

leaf_room : Fits (left_half flags leaf 1 (7 ∷ 2 ∷ [])) × Fits (right_half flags leaf 1 (7 ∷ 2 ∷ []))
unfolding left_half right_half make_hint copy_range copy_slot append_slot take_room set_fences
    fence_room placed_fence stored_slot common_prefix full_key
leaf_room = (omega arith, omega arith)

split_leaf_lem_example :
    HalfOk flags
      (some (7 ∷ []))
      (some (7 ∷ 2 ∷ []))
      ((7 ∷ 1 ∷ [], 31 ∷ []) ∷ (7 ∷ 2 ∷ [], 32 ∷ []) ∷ [])
      (left_half flags leaf 1 (7 ∷ 2 ∷ []))
    × HalfOk flags
        (some (7 ∷ 2 ∷ []))
        (some (7 ∷ 9 ∷ []))
        ((7 ∷ 2 ∷ 5 ∷ [], 33 ∷ []) ∷ [])
        (right_half flags leaf 1 (7 ∷ 2 ∷ []))
    × InFences (left_half flags leaf 1 (7 ∷ 2 ∷ []))
    × InFences (right_half flags leaf 1 (7 ∷ 2 ∷ []))
    × SpaceOk (left_half flags leaf 1 (7 ∷ 2 ∷ []))
    × SpaceOk (right_half flags leaf 1 (7 ∷ 2 ∷ []))
    × (half_fits (some (7 ∷ [])) (some (7 ∷ 2 ∷ [])) (left_half flags leaf 1 (7 ∷ 2 ∷ [])) ≡ true)
    × (half_fits (some (7 ∷ 2 ∷ [])) (some (7 ∷ 9 ∷ [])) (right_half flags leaf 1 (7 ∷ 2 ∷ []))
        ≡ true)
split_leaf_lem_example =
    split_leaf_lem flags leaf 1 (7 ∷ 2 ∷ [])
      (record {
        leaf = refl;
        ok = leaf-NodeOk;
        compressed = leaf-Compressed;
        within = leaf-InFences;
        inside = omega arith;
        above = inr refl;
        below = refl;
      })
      leaf_room.0 leaf_room.1

lookup_inner_lem_example : lookup_inner flags leaf (7 ∷ 2 ∷ 1 ∷ []) ≡ 33 ∷ []
unfolding route
lookup_inner_lem_example =
    lookup_inner_lem flags leaf (7 ∷ 2 ∷ 1 ∷ []) leaf-NodeOk
      (omega arith, (omega arith, (omega arith, tt)))

boundaries :
    (compare_key_with_boundaries leaf (7 ∷ []) ≡ lower_or_equal)
    × (compare_key_with_boundaries leaf (7 ∷ 9 ∷ []) ≡ inside)
    × (compare_key_with_boundaries leaf (8 ∷ []) ≡ higher)
unfolding compare_key_with_boundaries above_upper cmp_keys compare_bytes
boundaries = (refl, refl, refl)

-- The payloads of a leaf, which are not part of the order of its keys.
payloads :
    (all_frozen leaf ≡ ok false)
    × (all_frozen (freeze (freeze (freeze leaf 0) 1) 2) ≡ ok true)
    × (space_used_by_slot leaf 2 ≡ 13)
    × ((shorten_payload leaf 0 0).space_used ≡ 9)
    × (can_extend_payload leaf 0 100 ≡ true)
    × ((extend_payload flags leaf 0 (40 ∷ 41 ∷ [])).space_used ≡ 11)
    × ((slot_at (extend_payload flags leaf 0 (40 ∷ 41 ∷ [])) 0).offset ≡ 4011)
    × (zero_free_space leaf ≡ some (179, 4014))
unfolding all_frozen every_frozen freeze space_used_by_slot shorten_payload can_extend_payload
    extend_payload zero_free_space free_space free_space_after_compaction request_space_for
payloads = (refl, refl, refl, refl, refl, refl, refl, refl)

room :
    (has_enough_space_for leaf 3000 ≡ true)
    × (space_needed 3 4 1 ≡ 16)
    × (can_insert leaf 3 4000 ≡ false)
    × ((reset leaf).data_offset ≡ 4021)
unfolding has_enough_space_for space_needed can_insert free_space free_space_after_compaction reset
room = (refl, refl, refl, refl)

-- A parent of two leaves.
abbrev parent : Node
parent = record (fresh false) {
  upper = 5 ∷ 0 ∷ 0 ∷ 0 ∷ 0 ∷ 0 ∷ 0 ∷ 0 ∷ [];
  data_offset = 4013;
  space_used = 10;
  slots =
      slot_of 4014 (7 ∷ 9 ∷ []) (7 * 2 ^ 24 + 9 * 2 ^ 16) (4 ∷ 0 ∷ 0 ∷ 0 ∷ 0 ∷ 0 ∷ 0 ∷ 0 ∷ []) ∷ [];
}

exchanged :
    ((swap_children parent 0).upper ≡ 4 ∷ 0 ∷ 0 ∷ 0 ∷ 0 ∷ 0 ∷ 0 ∷ 0 ∷ [])
    × ((merge flags leaf parent leaf 0).0 ≡ true)
    × (merge_bound flags leaf parent leaf 0 ≡ 229)
    × (merge_space_upper_bound flags leaf leaf ≡ 229)
    × (length (merge flags leaf parent leaf 0).1.slots ≡ 6)
unfolding swap_children with_swip merge merge_bound merge_space_upper_bound set_fences fence_room
    placed_fence take_room common_prefix copy_range copy_slot append_slot stored_slot full_key
    make_hint
exchanged = (refl, refl, refl, refl, refl)
