-- ===== src/Btree/Key.antt =====
-- btree/core/BTreeNode.hpp: keys are byte strings, compared byte by byte and then by their
-- lengths, and a slot caches the first four bytes of its key as a number.
pub mod Order
pub mod Heads
use Prim.Native.Nat.{Ordering, lt, eq, gt, compare, bit_or}
use epsilon_db.Base.{ℕ, ◌+◌, ◌*◌, ◌^◌, List, [], ◌∷◌, length}

abbrev pub Key : Type 0
Key = List ℕ

-- The loop of `cmpKeys`, and memcmp: the first byte that differs, as far as both go.
unfoldable pub compare_bytes : Key → Key → Ordering
compare_bytes [] b = eq
compare_bytes (x ∷ xs) [] = eq
compare_bytes (x ∷ xs) (y ∷ ys) = elim (compare x y) [
  | lt ↦ lt
  | eq ↦ compare_bytes xs ys
  | gt ↦ gt
]

-- The sign of `cmpKeys`.
unfoldable pub cmp_keys : Key → Key → Ordering
cmp_keys a b = elim (compare_bytes a b) [ lt ↦ lt | eq ↦ compare (length a) (length b) | gt ↦ gt ]

-- `head`, a u32.
unfoldable pub head : Key → ℕ
head [] = 0
head (a ∷ []) = a * 2 ^ 24
head (a ∷ b ∷ []) = (a * 256 + b) * 2 ^ 16
head (a ∷ b ∷ c ∷ []) = bit_or ((a * 256 + b) * 2 ^ 16) (c * 2 ^ 8)
head (a ∷ b ∷ c ∷ d ∷ rest) = ((a * 256 + b) * 256 + c) * 256 + d
