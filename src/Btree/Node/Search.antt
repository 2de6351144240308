-- ===== src/Btree/Node/Search.antt =====
-- `lowerBound`: the position of a key in a node, by hints, heads and binary search.
pub mod Rank
pub mod Hints
pub mod Position
use Prim.Native.Nat.{Ordering, lt, eq, gt, compare}
use epsilon_db.Base.{
  ℕ, zero, suc, ◌+◌, ◌-◌, ◌*◌, ◌/◌, ◌%◌, ◌^◌, List, Bool, true, false, ◌&&◌, Option, none, some,
  ◌==◌, ltb, leb, if◌then◌else◌, length, take, drop, not, Result, ok, ◌>>◌, ensure,
}
use epsilon_db.Btree.Key.{Key, cmp_keys, head, compare_bytes}
use epsilon_db.Btree.Node.{
  Slot, Node, Flags, count, prefix, slot_at, hint_count, fence_key, space_needed, request_space_for,
  stored_slot, take_room, update_hint, insert_at, remove_slot, can_insert,
}

-- The comparisons of the loop of `lowerBound`, for a key with its head.
unfoldable pub compare_slot : Bool → Key → ℕ → Slot → Ordering
compare_slot heads key key_head s =
    if heads
    then elim (compare key_head s.head) [
      | lt ↦ lt
      | gt ↦ gt
      | eq ↦
          if leb (length s.key) 4 then compare (length key) (length s.key) else cmp_keys key s.key
    ]
    else cmp_keys key s.key

-- The loop, with at most `n` rounds left: the position, and whether the key stands there.
unfoldable pub search_loop : ℕ → Bool → Node → Key → ℕ → ℕ → ℕ × Bool
search_loop zero heads node key lower upper = (lower, false)
search_loop (suc n) heads node key lower upper =
    let mid = (upper - lower) / 2 + lower in
    let round : ℕ × Bool = elim (compare_slot heads key (head key) (slot_at node mid)) [
      | lt ↦ search_loop n heads node key lower mid
      | gt ↦ search_loop n heads node key (mid + 1) upper
      | eq ↦ (mid, true)
    ] in
    if ltb lower upper then round else (lower, false)

-- The first hint from `i` on that is not below a head; `n` hints are left.
unfoldable pub hint_ge : ℕ → (ℕ → ℕ) → ℕ → ℕ → ℕ
hint_ge zero hint h i = i
hint_ge (suc n) hint h i = let rest = hint_ge n hint h (i + 1) in if leb h (hint i) then i else rest

-- The first hint from `i` on that is another one.
unfoldable pub hint_ne : ℕ → (ℕ → ℕ) → ℕ → ℕ → ℕ
hint_ne zero hint h i = i
hint_ne (suc n) hint h i = let rest = hint_ne n hint h (i + 1) in if hint i == h then rest else i

-- `searchHint`: where the search starts and ends.
unfoldable pub search_hint : Bool → Node → ℕ → ℕ × ℕ
search_hint hints n key_head =
    let dist = count n / (hint_count + 1) in
    let pos = hint_ge hint_count n.hint key_head 0 in
    let pos2 = hint_ne (hint_count - pos) n.hint key_head pos in
    if hints && ltb (hint_count * 2) (count n)
    then (pos * dist, if ltb pos2 hint_count then (pos2 + 1) * dist else count n)
    else (0, count n)

-- The part of `lowerBound` after the prefix, of which the key has none any more.
unfoldable pub search : Flags → Node → Key → ℕ × Bool
search f n key =
    let bounds = search_hint f.hints n (head key) in
    search_loop (count n) f.heads n key bounds.0 bounds.1

-- The position that `lowerBound<false>` returns, and whether the loop ended at the key.
unfoldable pub lower_position : Flags → Node → Key → ℕ × Bool
lower_position f n key = elim (cmp_keys (take (length (prefix n)) key) (prefix n)) [
  | lt ↦ (0, false)
  | gt ↦ (count n, false)
  | eq ↦ search f n (drop (length (prefix n)) key)
]

-- `lowerBound<false>`: the position, and what it writes to `is_equal`, which is nothing in an inner
-- node.
unfoldable pub lower_bound : Flags → Node → Key → ℕ × Option Bool
lower_bound f n key =
    let r = lower_position f n key in (r.0, if n.is_leaf then some (r.1) else none)

-- `lowerBound<true>`; `none` is -1.
unfoldable pub exact_position : Flags → Node → Key → Option ℕ
exact_position f n key =
    let r = search f n (drop (length (prefix n)) key) in
    elim (compare_bytes (take (length (prefix n)) key) (prefix n)) [
      | lt ↦ none
      | gt ↦ none
      | eq ↦ if ltb (length key) (length (prefix n)) then none else if r.1 then some (r.0) else none
    ]

-- The slot of a key put at a position: the calls of memmove, storeKeyValue and updateHint in
-- `insert`.
unfoldable pub place_slot : Node → ℕ → Key → List ℕ → Node
place_slot n i key payload =
    let s = stored_slot n key payload in
    let space = (length s.key + length s.payload) % 2 ^ 16 in
    update_hint (record (take_room n space) { slots = insert_at i s n.slots }) i

-- `insert`: the position and the node.
unfoldable pub insert : Flags → Node → Key → List ℕ → Result (ℕ × Node)
insert f n key payload =
    let n1 =
      (request_space_for f n (space_needed (length key) (length payload) n.prefix_length)).1 in
    let i = (lower_bound f n1 key).0 in
    ensure (can_insert n (length key) (length payload))
    >> (ensure (elim (exact_position f n key) [ none ↦ true | some _ ↦ false ])
        >> ok (i, place_slot n1 i key payload))

-- `remove`.
unfoldable pub remove : Flags → Node → Key → Bool × Node
remove f n key = elim (exact_position f n key) [
  | none ↦ (false, n)
  | some i ↦ (true, remove_slot n i)
]
