-- ===== src/Btree/Node/Payload.antt =====
-- The other operations of a node: fences as boundaries, children, frozen records and payloads
-- that change their length.
pub mod Routing
use Prim.Native.Nat.{Ordering, lt, eq, gt}
use epsilon_db.Base.{
  ℕ, zero, suc, ◌+◌, ◌-◌, ◌*◌, Bool, true, false, not, ◌&&◌, ◌||◌, Option, none, some, List, [],
  ◌∷◌, ◌++◌, ◌==◌, ltb, leb, if◌then◌else◌, length, take, drop, set, Result, ok, ◌>>◌, ensure,
}
use epsilon_db.Btree.Key.{Key, cmp_keys}
use epsilon_db.Btree.Node.{
  Slot, Fence, Node, Flags, count, slot_at, sub16, add16, free_space, free_space_after_compaction,
  request_space_for, compactify, slot_size, slots_offset,
}
use epsilon_db.Btree.Node.Search.{lower_bound}

-- The results 0, 1 and -1 of `compareKeyWithBoundaries`.
pub data Boundary : Type 0 where
  inside lower_or_equal higher : Boundary

unfoldable pub above_upper : Option Fence → Key → Boundary
above_upper none key = inside
above_upper (some u) key = elim (cmp_keys key u.key) [ lt ↦ inside | eq ↦ inside | gt ↦ higher ]

-- The lower bound is exclusive, the upper bound inclusive.
unfoldable pub compare_key_with_boundaries : Node → Key → Boundary
compare_key_with_boundaries n key = elim n.lower_fence [
  | none ↦ above_upper n.upper_fence key
  | some l ↦ elim (cmp_keys key l.key) [
    | lt ↦ lower_or_equal
    | eq ↦ lower_or_equal
    | gt ↦ above_upper n.upper_fence key
  ]
]

-- `lookupInner`: the child for a key.
unfoldable pub lookup_inner : Flags → Node → Key → List ℕ
lookup_inner f n key =
    let pos = (lower_bound f n key).0 in if pos == count n then n.upper else (slot_at n pos).payload

unfoldable pub freeze : Node → ℕ → Node
freeze n i = record n { slots = set n.slots i (record (slot_at n i) { frozen = true }) }

unfoldable pub every_frozen : List Slot → Bool
every_frozen [] = true
every_frozen (s ∷ ss) = let rest = every_frozen ss in if s.frozen then rest else false

-- `max_theorical_slots_capacity`.
abbrev pub slots_capacity : ℕ
slots_capacity = 387

-- `allFrozen`.
unfoldable pub all_frozen : Node → Result Bool
all_frozen n =
    ensure (leb (count n) slots_capacity)
    >> ok (
        if not n.is_leaf || (count n == 0 || ltb slots_capacity (count n))
        then false
        else every_frozen n.slots)

-- `spaceUsedBySlot` and `getKVConsumedSpace`.
unfoldable pub space_used_by_slot : Node → ℕ → ℕ
space_used_by_slot n i = slot_size + length (slot_at n i).key + length (slot_at n i).payload

unfoldable pub shorten_payload : Node → ℕ → ℕ → Node
shorten_payload n i len =
    let s = slot_at n i in
    record n {
      space_used = sub16 n.space_used (sub16 (length s.payload) len);
      slots = set n.slots i (record s { payload = take len s.payload });
    }

unfoldable pub can_extend_payload : Node → ℕ → ℕ → Bool
can_extend_payload n i new_length =
    leb (sub16 new_length (length (slot_at n i).payload)) (free_space_after_compaction n)

-- `extendPayload`. The bytes of the new payload are those that stand in the node where it is
-- put, and the caller writes them.
unfoldable pub extend_payload : Flags → Node → ℕ → List ℕ → Node
extend_payload f n i payload =
    let extra = sub16 (length payload) (length (slot_at n i).payload) in
    let n1 = (request_space_for f n extra).1 in
    let key = (slot_at n1 i).key in
    let old_total = add16 (length key) (length (slot_at n1 i).payload) in
    let new_total = add16 (length key) (length payload) in
    let n2 = record n1 {
      space_used = sub16 n1.space_used old_total;
      slots = set n1.slots i (record (slot_at n1 i) { key = []; payload = [] });
    } in
    let n3 = if ltb (free_space n2) new_total then compactify f n2 else n2 in
    record n3 {
      space_used = add16 n3.space_used new_total;
      data_offset = sub16 n3.data_offset new_total;
      slots = set n3.slots i (record (slot_at n3 i) {
        offset = sub16 n3.data_offset new_total;
        key = key;
        payload = payload;
      });
    }

-- `zeroFreeSpace`: the bytes from the first number to the second are set to 0.
unfoldable pub zero_free_space : Node → Option (ℕ × ℕ)
zero_free_space n =
    let start = slots_offset + slot_size * count n in
    if leb n.data_offset start || ltb 4024 n.data_offset
    then none
    else some (start, start + free_space n)
