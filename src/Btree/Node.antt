-- ===== src/Btree/Node.antt =====
-- btree/core/BTreeNode.{hpp,cpp}: a node. A slot holds the bytes of its key without the node's
-- prefix and of its payload, which lie at its offset; the number of slots is the length of their
-- list. The payload of an inner node is the swip of a child with its pending LSNs, and so is
-- `upper`.
pub mod Search
pub mod Contents
pub mod Split
pub mod Payload
pub mod Heap
pub mod Space
mod Tests
use epsilon_db.Base.{
  ℕ, zero, suc, ◌+◌, ◌-◌, ◌*◌, ◌/◌, ◌%◌, ◌^◌, min, Bool, true, false, not, ◌&&◌, ◌||◌, Option, none,
  some, List, [], ◌∷◌, ◌++◌, ◌==◌, ltb, leb, if◌then◌else◌, length, get_or, take, drop, Result, ok,
  fail, ◌>>=◌, ◌>>◌, ensure,
}
use epsilon_db.Btree.Key.{Key, head}

-- EFFECTIVE_PAGE_SIZE: a page without the header of 72 bytes.
abbrev pub effective_page_size : ℕ
effective_page_size = 4096 - 72

-- sizeof(Slot), which is packed.
abbrev pub slot_size : ℕ
slot_size = 10

-- The offset of `slot` in the node: the members before it take 149 bytes, and it needs no
-- alignment.
abbrev pub slots_offset : ℕ
slots_offset = 149

abbrev pub hint_count : ℕ
hint_count = 16

pub record Slot : Type 0 where
  pub offset : ℕ
  pub key : Key
  pub payload : List ℕ
  pub frozen : Bool
  pub head : ℕ

-- A fence at an offset of the node.
pub record Fence : Type 0 where
  pub offset : ℕ
  pub key : Key

-- `none` is the fence at infinity.
pub record Node : Type 0 where
  pub upper : List ℕ
  pub lower_fence : Option Fence
  pub upper_fence : Option Fence
  pub is_leaf : Bool
  pub space_used : ℕ
  pub data_offset : ℕ
  pub prefix_length : ℕ
  pub hint : ℕ → ℕ
  pub has_garbage : Bool
  pub slots : List Slot

-- FLAGS_btree_heads, FLAGS_btree_hints == 1, FLAGS_btree_prefix_compression,
-- FLAGS_btree_split_alloc_right.
pub record Flags : Type 0 where
  pub heads : Bool
  pub hints : Bool
  pub prefix_compression : Bool
  pub split_alloc_right : Bool

abbrev pub count : Node → ℕ
count n = length n.slots

-- u16 arithmetic.
abbrev pub add16 : ℕ → ℕ → ℕ
add16 a b = (a + b) % 2 ^ 16

abbrev pub sub16 : ℕ → ℕ → ℕ
sub16 a b = (a + 2 ^ 16 - b) % 2 ^ 16

abbrev pub fence_key : Option Fence → Key
fence_key none = []
fence_key (some f) = f.key

-- `getPrefix`, as far as it goes.
abbrev pub prefix : Node → Key
prefix n = take n.prefix_length (fence_key n.lower_fence)

-- What stands in memory past the last slot is not looked at.
abbrev pub blank : Slot
blank = record { offset = 0; key = []; payload = []; frozen = false; head = 0 }

abbrev pub slot_at : Node → ℕ → Slot
slot_at n i = get_or n.slots i blank

-- `copyFullKey`.
pub full_key : Node → Slot → Key
full_key n s = prefix n ++ s.key

pub make_hint : Node → Node
make_hint n =
    let dist = count n / (hint_count + 1) in
    record n { hint = λ i. (slot_at n (dist * (i + 1))).head }

-- From which hint on `updateHint` writes.
pub hint_begin : Node → ℕ → ℕ
hint_begin n slot_id =
    let dist = count n / (hint_count + 1) in
    if ltb (hint_count * 2 + 1) (count n)
      && (((count n - 1) / (hint_count + 1) == dist) && ltb 1 (slot_id / dist))
    then slot_id / dist - 1
    else 0

pub update_hint : Node → ℕ → Node
update_hint n slot_id =
    let dist = count n / (hint_count + 1) in
    record n {
      hint =
          λ i. if ltb i (hint_begin n slot_id) then n.hint i else (slot_at n (dist * (i + 1))).head;
    }

pub free_space : Node → ℕ
free_space n = sub16 n.data_offset (slots_offset + slot_size * count n)

pub free_space_after_compaction : Node → ℕ
free_space_after_compaction n =
    sub16 (sub16 effective_page_size (slots_offset + slot_size * count n)) n.space_used

pub has_enough_space_for : Node → ℕ → Bool
has_enough_space_for n needed =
    leb needed (free_space n) || leb needed (free_space_after_compaction n)

-- `spaceNeeded`.
pub space_needed : ℕ → ℕ → ℕ → ℕ
space_needed key_len payload_len prefix_len =
    add16 (sub16 (slot_size + key_len) prefix_len) payload_len

pub can_insert : Node → ℕ → ℕ → Bool
can_insert n key_len payload_len =
    has_enough_space_for n (space_needed key_len payload_len n.prefix_length)

-- `storeKeyValue`: the slot, and the node with the room for it taken.
pub stored_slot : Node → Key → List ℕ → Slot
stored_slot n key payload =
    let k = drop n.prefix_length key in
    record {
      offset = sub16 n.data_offset ((length k + length payload) % 2 ^ 16);
      key = k;
      payload = payload;
      frozen = false;
      head = head k;
    }

pub take_room : Node → ℕ → Node
take_room n space = record n {
  data_offset = sub16 n.data_offset space;
  space_used = add16 n.space_used space;
}

pub append_slot : Node → Slot → Node
append_slot n s = record n { slots = n.slots ++ (s ∷ []) }

-- One round of `copyKeyValueRange`, which appends to `dst`; the second branch is `copyKeyValue`.
pub copy_slot : Node → Node → Slot → Node
copy_slot src dst s =
    let space = (length s.key + length s.payload) % 2 ^ 16 in
    let key = full_key src s in
    let stored = stored_slot dst key s.payload in
    if src.prefix_length == dst.prefix_length
    then append_slot (take_room dst space) (record s { offset = sub16 dst.data_offset space })
    else append_slot (take_room dst ((length stored.key + length s.payload) % 2 ^ 16))
        (record stored { frozen = s.frozen })

pub copy_range : Node → Node → List Slot → Node
copy_range src dst [] = dst
copy_range src dst (s ∷ ss) = copy_range src (copy_slot src dst s) ss

-- `insertFence`: the fence, and the node with the room for it taken.
pub placed_fence : Node → Option Key → Option Fence
placed_fence n none = none
placed_fence n (some k) = some (record { offset = sub16 n.data_offset (length k); key = k })

pub fence_room : Node → Option Key → Node
fence_room n none = n
fence_room n (some k) = take_room n (length k)

pub common_prefix : Key → Key → ℕ
common_prefix [] b = 0
common_prefix (x ∷ xs) [] = 0
common_prefix (x ∷ xs) (y ∷ ys) = if x == y then suc (common_prefix xs ys) else 0

abbrev pub bytes_of : Option Key → Key
bytes_of none = []
bytes_of (some k) = k

pub set_fences : Flags → Node → Option Key → Option Key → Node
set_fences f n lower upper =
    let n' = record (fence_room n lower) { lower_fence = placed_fence n lower } in
    record (fence_room n' upper) {
      upper_fence = placed_fence n' upper;
      prefix_length =
          if f.prefix_compression then common_prefix (bytes_of lower) (bytes_of upper) else 0;
    }

-- BTreeNode(is_leaf).
abbrev pub fresh : Bool → Node
fresh leaf = record {
  upper = [];
  lower_fence = none;
  upper_fence = none;
  is_leaf = leaf;
  space_used = 0;
  data_offset = effective_page_size;
  prefix_length = 0;
  hint = λ _. 0;
  has_garbage = false;
  slots = [];
}

abbrev pub key_of : Option Fence → Option Key
key_of none = none
key_of (some f) = some f.key

pub compactify : Flags → Node → Node
compactify f n =
    let tmp = set_fences f (fresh n.is_leaf) (key_of n.lower_fence) (key_of n.upper_fence) in
    make_hint (record (copy_range n tmp n.slots) { upper = n.upper })

-- `requestSpaceFor`.
pub request_space_for : Flags → Node → ℕ → Bool × Node
request_space_for f n needed =
    if leb needed (free_space n)
    then (true, n)
    else (if leb needed (free_space_after_compaction n) then (true, compactify f n) else (false, n))

abbrev pub insert_at : ℕ → Slot → List Slot → List Slot
insert_at i s ss = take i ss ++ (s ∷ drop i ss)

abbrev pub erase_at : ℕ → List Slot → List Slot
erase_at i ss = take i ss ++ drop (suc i) ss

pub remove_slot : Node → ℕ → Node
remove_slot n i =
    let s = slot_at n i in
    make_hint (record n {
      space_used = sub16 n.space_used (length s.key + length s.payload);
      slots = erase_at i n.slots;
    })

pub reset : Node → Node
reset n =
    let space = length (fence_key n.upper_fence) + length (fence_key n.lower_fence) in
    record n { space_used = space; data_offset = effective_page_size - space; slots = [] }
