-- ===== src/Partition/HashTable.antt =====
-- The hash table of frames in transit: IOFrame and HashTable of
-- storage/buffer-manager/Partition.{hpp,cpp}. A bucket is the list of its entries, and a handler
-- the place of an entry in it.
pub mod Stacks
use Prim.Native.Nat.{bit_and, bit_xor}
use epsilon_db.Base.{
  ℕ, zero, suc, ◌+◌, ◌-◌, ◌*◌, ◌%◌, ◌^◌, Bool, true, false, Option, none, some, List, [], ◌∷◌, ◌++◌,
  ◌==◌, if◌then◌else◌, take, drop, Result, ok, fail, undefined_behaviour,
}
use epsilon_db.Bits.{shr, u64_mod}

pub data IoState : Type 0 where
  reading ready to_delete undefined : IoState

pub record IoFrame : Type 0 where
  pub state : IoState
  pub bf : Option ℕ
  pub inserted_by_bg_page_fixer : Bool
  pub readers_counter : ℕ

abbrev pub new_frame : IoFrame
new_frame = record {
  state = undefined;
  bf = none;
  inserted_by_bg_page_fixer = false;
  readers_counter = 0;
}

pub record Entry : Type 0 where
  pub key : ℕ
  pub value : IoFrame

pub record HashTable : Type 0 where
  pub mask : ℕ
  pub entries : ℕ → List Entry

-- The empty table, of 2^size_in_bits buckets.
unfoldable pub new_table : ℕ → HashTable
new_table size_in_bits = record { mask = 2 ^ size_in_bits - 1; entries = λ _. [] }

-- MurmurHash64A of one word.
unfoldable pub hash_key : ℕ → ℕ
hash_key key =
    let m : ℕ = 14313749767032793493 in
    let h0 : ℕ = bit_xor 9531259594873456914 ((8 * m) % u64_mod) in
    let k1 = (key * m) % u64_mod in
    let k2 = bit_xor k1 (shr k1 47) in
    let k3 = (k2 * m) % u64_mod in
    let h1 = (bit_xor h0 k3 * m) % u64_mod in
    let h2 = (bit_xor h1 (shr h1 47) * m) % u64_mod in bit_xor h2 (shr h2 47)

unfoldable pub position : HashTable → ℕ → ℕ
position t key = bit_and (hash_key key) t.mask

unfoldable pub set_bucket : HashTable → ℕ → List Entry → HashTable
set_bucket t pos es = record t { entries = λ b. if b == pos then es else t.entries b }

unfoldable pub insert : HashTable → ℕ → HashTable
insert t key =
    let pos = position t key in
    set_bucket t pos (record { key = key; value = new_frame } ∷ t.entries pos)

-- The first entry of a key.
pub entry_index : ℕ → List Entry → Option ℕ
entry_index key [] = none
entry_index key (e ∷ es) =
    let rest = entry_index key es in
    if e.key == key then some 0 else elim rest [ none ↦ none | some i ↦ some (suc i) ]

-- A handler: the bucket and the place in it.
pub lookup : HashTable → ℕ → Option (ℕ × ℕ)
lookup t key = elim (entry_index key (t.entries (position t key))) [
  | none ↦ none
  | some i ↦ some (position t key, i)
]

pub remove_at : HashTable → ℕ × ℕ → HashTable
remove_at t h = set_bucket t h.0 (take h.1 (t.entries h.0) ++ drop (suc h.1) (t.entries h.0))

-- `remove` of a key, which has to be there.
pub remove : HashTable → ℕ → Result HashTable
remove t key = elim (lookup t key) [ none ↦ fail undefined_behaviour | some h ↦ ok (remove_at t h) ]

unfoldable pub has_key : ℕ → List Entry → Bool
has_key key [] = false
has_key key (e ∷ es) = let rest = has_key key es in if e.key == key then true else rest

unfoldable pub has : HashTable → ℕ → Bool
has t key = has_key key (t.entries (position t key))
