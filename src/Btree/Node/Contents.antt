-- ===== src/Btree/Node/Contents.antt =====
-- What a node holds: its full keys with their payloads, in order. Moving the bytes of the slots
-- does not change it.
pub mod Compact
pub mod Sorting
pub mod Hinting
pub mod Room
pub mod Update
use Prim.Native.Nat.{Ordering, lt, eq, gt}
use epsilon_db.Base.{
  ℕ, ◌≡◌, Bool, true, false, Option, none, some, List, [], ◌∷◌, ◌++◌, map, if◌then◌else◌,
}
use epsilon_db.Btree.Key.{Key}
use epsilon_db.Btree.Key.Order.{lex}
use epsilon_db.Btree.Node.{Slot, Node, Flags, prefix, full_key, common_prefix, fence_key}

abbrev pub Entries : Type 0
Entries = List (Key × List ℕ)

abbrev pub entries_of : Key → List Slot → Entries
entries_of p ss = map (λ (s : Slot). (p ++ s.key, s.payload)) ss

abbrev pub contents : Node → Entries
contents n = entries_of (prefix n) n.slots

-- A sorted association list: the specification.
unfoldable pub find : Key → Entries → Option (List ℕ)
find key [] = none
find key (e ∷ es) = elim (lex e.0 key) [ lt ↦ find key es | eq ↦ some e.1 | gt ↦ none ]

unfoldable pub put : Key → List ℕ → Entries → Entries
put key payload [] = (key, payload) ∷ []
put key payload (e ∷ es) = elim (lex e.0 key) [
  | lt ↦ e ∷ put key payload es
  | eq ↦ (key, payload) ∷ es
  | gt ↦ (key, payload) ∷ e ∷ es
]

unfoldable pub erase : Key → Entries → Entries
erase key [] = []
erase key (e ∷ es) = elim (lex e.0 key) [ lt ↦ e ∷ erase key es | eq ↦ es | gt ↦ e ∷ es ]

-- The prefix is the one that the fences have in common.
abbrev pub Compressed : Flags → Node → Type 0
Compressed f n = n.prefix_length ≡ (
    if f.prefix_compression
    then common_prefix (fence_key n.lower_fence) (fence_key n.upper_fence)
    else 0)

-- The same slots but for their offsets.
abbrev pub Moved : List Slot → List Slot → Type 0
Moved [] [] = Unit {0}
Moved [] (t ∷ ts) = ⊥
Moved (s ∷ ss) [] = ⊥
Moved (s ∷ ss) (t ∷ ts) =
    (t.key ≡ s.key)
    × (t.payload ≡ s.payload)
    × (t.frozen ≡ s.frozen)
    × (t.head ≡ s.head)
    × Moved ss ts
