-- ===== src/Btree/Node/Split.antt =====
-- `findSep`, `getSep`, `split` and `merge`: nodes that are divided and joined.
pub mod Between
pub mod Copying
pub mod Fences
pub mod Halves
use epsilon_db.Base.{
  ℕ, zero, suc, ◌+◌, ◌-◌, ◌*◌, ◌/◌, ◌%◌, ◌^◌, Bool, true, false, not, ◌&&◌, Option, none, some,
  List, [], ◌∷◌, ◌++◌, ◌==◌, ltb, leb, if◌then◌else◌, length, take, drop, set, Result, ok, ◌>>=◌,
  ◌>>◌, ensure,
}
use epsilon_db.Btree.Key.{Key}
use epsilon_db.Btree.Node.{
  Slot, Node, Flags, count, prefix, full_key, common_prefix, slot_at, add16, sub16, set_fences,
  fresh, key_of, copy_range, make_hint, free_space, fence_room, bytes_of, slots_offset, slot_size,
  space_needed, effective_page_size, stored_slot, take_room, append_slot, remove_slot,
}
use epsilon_db.Btree.Node.Search.{insert}

-- SeparatorInfo.
pub record Separator : Type 0 where
  pub length : ℕ
  pub slot : ℕ
  pub trunc : Bool

-- `commonPrefix`.
unfoldable pub shared : Node → ℕ → ℕ → ℕ
shared n a b = if count n == 0 then 0 else common_prefix (slot_at n a).key (slot_at n b).key

-- From slot `i` on, with `k` slots before the middle, the first that shares another prefix with
-- slot 0.
unfoldable pub best_from : ℕ → Node → ℕ → ℕ → ℕ
best_from zero n best i = i
best_from (suc k) n best i =
    let rest = best_from k n best (i + 1) in if shared n i 0 == best then rest else i

-- The slot after which `findSep` splits a leaf.
unfoldable pub best_slot : Node → ℕ
best_slot n =
    let lower = count n / 2 - count n / 16 in
    let upper = count n / 2 in
    let best = shared n lower 0 in
    if ltb 16 (count n)
    then (if best == shared n (upper - 1) 0
        then lower
        else best_from (upper - (lower + 1)) n best (lower + 1))
    else (count n - 1) / 2

-- A separator that is the whole key of a slot.
unfoldable pub whole_sep : Node → ℕ → Separator
whole_sep n i = record {
  length = add16 n.prefix_length (length (slot_at n i).key);
  slot = i;
  trunc = false;
}

unfoldable pub leaf_sep : Node → ℕ → Separator
leaf_sep n best =
    let common = shared n best (best + 1) in
    if ltb (best + 1) (count n)
      && (ltb common (length (slot_at n best).key)
          && ltb (common + 1) (length (slot_at n (best + 1)).key))
    then record { length = add16 n.prefix_length (common + 1); slot = best; trunc = true }
    else whole_sep n best

-- Inner nodes are split in the middle.
unfoldable pub find_sep : Node → Separator
find_sep n = if n.is_leaf then leaf_sep n (best_slot n) else whole_sep n (count n / 2)

unfoldable pub get_sep : Node → Separator → Key
get_sep n info =
    prefix n
    ++ take (sub16 info.length n.prefix_length)
        (slot_at n (if info.trunc then info.slot + 1 else info.slot)).key

-- The two halves that `splitImpl` fills.
unfoldable pub left_half : Flags → Node → ℕ → Key → Node
left_half f n sep_slot sep =
    let empty = set_fences f (fresh n.is_leaf) (key_of n.lower_fence) (some sep) in
    make_hint (
      if n.is_leaf
      then record (copy_range n empty (take (suc sep_slot) n.slots)) { has_garbage = n.has_garbage }
      else record (copy_range n empty (take sep_slot n.slots)) {
        upper = (slot_at n sep_slot).payload;
      })

unfoldable pub right_half : Flags → Node → ℕ → Key → Node
right_half f n sep_slot sep =
    let empty = set_fences f (fresh n.is_leaf) (some sep) (key_of n.upper_fence) in
    make_hint (
      if n.is_leaf
      then record (copy_range n empty (drop (suc sep_slot) n.slots)) { has_garbage = n.has_garbage }
      else record (copy_range n empty (drop (suc sep_slot) n.slots)) { upper = n.upper })

-- The asserts of `insertFence` on the room for the two fences of a node.
unfoldable pub fences_fit : Node → Option Key → Option Key → Bool
fences_fit n lower upper =
    leb (length (bytes_of lower)) (free_space n)
    && leb (length (bytes_of upper)) (free_space (fence_room n lower))

-- The asserts that `setFences` and `copyKeyValueRange` make while a half is filled: the fences have
-- room, and the slots end before the bytes.
unfoldable pub half_fits : Option Key → Option Key → Node → Bool
half_fits lower upper half =
    fences_fit (fresh half.is_leaf) lower upper
    && leb (slots_offset + slot_size * count half) half.data_offset

-- The swip of a child, in front of its pending LSNs.
unfoldable pub with_swip : List ℕ → List ℕ → List ℕ
with_swip swip payload = take 8 swip ++ drop 8 payload

-- The exchange of the swips at a position and after it.
unfoldable pub swap_children : Node → ℕ → Node
swap_children p i =
    let s = slot_at p i in
    let t = slot_at p (i + 1) in
    if ltb (i + 1) (count p)
    then record p {
      slots =
          set (set p.slots i (record s { payload = with_swip t.payload s.payload })) (i + 1)
            (record t { payload = with_swip s.payload t.payload });
    }
    else record p {
      upper = with_swip s.payload p.upper;
      slots = set p.slots i (record s { payload = with_swip p.upper s.payload });
    }

-- `split` and `splitImpl`: this node, the new node and their parent.
unfoldable pub split : Flags → Node → Node → List ℕ → ℕ → Key → Result (Node × Node × Node)
split f n parent new_swip sep_slot sep =
    let left = left_half f n sep_slot sep in
    let right = right_half f n sep_slot sep in
    ensure (half_fits (key_of n.lower_fence) (some sep) left)
    >> (ensure (half_fits (some sep) (key_of n.upper_fence) right)
        >> (insert f parent sep new_swip >>= λ placed. ok (
            if f.split_alloc_right
            then (left, right, swap_children placed.1 placed.0)
            else (right, left, placed.1))))

abbrev pub joined_fences : Flags → Node → Node → Node
joined_fences f left right =
    set_fences f (fresh left.is_leaf) (key_of left.lower_fence) (key_of right.upper_fence)

-- What the slots of a node grow by when its prefix becomes shorter.
abbrev pub grow : ℕ → Node → ℕ → ℕ
grow width n prefix_len = (n.prefix_length + 2 ^ width - prefix_len) * count n % 2 ^ width

-- `mergeSpaceUpperBound`, in 32 bits.
unfoldable pub merge_space_upper_bound : Flags → Node → Node → ℕ
merge_space_upper_bound f left right =
    let p = (joined_fences f left right).prefix_length in
    (left.space_used
      + right.space_used
      + (slots_offset + slot_size * (count left + count right))
      + grow 32 left p
      + grow 32 right p)
    % 2 ^ 32

-- The bound of `merge`, in 16 bits; an inner node also takes the entry of its parent.
unfoldable pub merge_bound : Flags → Node → Node → Node → ℕ → ℕ
merge_bound f left parent right slot_id =
    let p = (joined_fences f left right).prefix_length in
    let extra =
      if left.is_leaf
      then 0
      else space_needed (add16 parent.prefix_length (length (slot_at parent slot_id).key))
          (length left.upper) p in
    (left.space_used
      + right.space_used
      + (slots_offset + slot_size * (count left + count right))
      + grow 16 left p
      + grow 16 right p
      + extra)
    % 2 ^ 16

-- `merge`: the right node and the parent. The left node is left to be reclaimed.
unfoldable pub merge : Flags → Node → Node → Node → ℕ → Bool × Node × Node
merge f left parent right slot_id =
    let first = copy_range left (joined_fences f left right) left.slots in
    let sep = full_key parent (slot_at parent slot_id) in
    let s = stored_slot first sep left.upper in
    let room = (length s.key + length s.payload) % 2 ^ 16 in
    let joined =
      if left.is_leaf
      then copy_range right first right.slots
      else record (copy_range right (append_slot (take_room first room) s) right.slots) {
        upper = right.upper;
      } in
    if ltb effective_page_size (merge_bound f left parent right slot_id)
    then (false, right, parent)
    else (true, make_hint joined, remove_slot parent slot_id)
