-- ===== src/Btree/Node/Contents/Sorting.antt =====
-- Inserting a slot at its rank and erasing one keep the slots in order.
use Prim.Native.Nat.{lt}
use epsilon_db.Base.{
  ℕ, zero, suc, ◌≤◌, ◌<◌, ◌≡◌, refl, true, false, none, some, List, [], ◌∷◌, ◌++◌, length, get_or,
  arith, ap,
}
use epsilon_db.Btree.Key.{Key}
use epsilon_db.Btree.Key.Order.{lex, lex-flip, lex_trans, lex-append}
use epsilon_db.Btree.Node.{Slot, insert_at, erase_at, blank}
use epsilon_db.Btree.Node.Search.Rank.{Above, Sorted, SlotOk, AllOk, rank, holds}
use epsilon_db.Btree.Node.Contents.{entries_of, find, put, erase}

Above-insert :
    (k : Key) (i : ℕ) (s : Slot) (ss : List Slot)
    → lex k s.key ≡ lt
    → Above k ss
    → Above k (insert_at i s ss)
Above-insert k zero s ss h a = (h, a)
Above-insert k (suc i) s [] h a = (h, tt)
Above-insert k (suc i) s (t ∷ ss) h a = (a.0, Above-insert k i s ss h a.1)

Above-trans : (k l : Key) (ss : List Slot) → lex k l ≡ lt → Above l ss → Above k ss
Above-trans k l [] h a = tt
Above-trans k l (s ∷ ss) h a = (lex_trans k l s.key h a.0, Above-trans k l ss h a.1)

pub AllOk-insert :
    (i : ℕ) (s : Slot) (ss : List Slot) → SlotOk s → AllOk ss → AllOk (insert_at i s ss)
AllOk-insert zero s ss h a = (h, a)
AllOk-insert (suc i) s [] h a = (h, tt)
AllOk-insert (suc i) s (t ∷ ss) h a = (a.0, AllOk-insert i s ss h a.1)

pub Sorted-insert :
    (s : Slot) (ss : List Slot)
    → Sorted ss
    → holds s.key ss ≡ false
    → Sorted (insert_at (rank s.key ss) s ss)
unfolding rank holds
Sorted-insert s [] a h = (tt, tt)
Sorted-insert s (t ∷ ss) a h = ground (
  arith,
  Sorted-insert s ss,
  Above-insert t.key (rank s.key ss) s ss,
  Above-trans s.key t.key ss,
  lex-flip t.key s.key,
)

pub entries-insert :
    (p : Key) (s : Slot) (ss : List Slot)
    → holds s.key ss ≡ false
    → entries_of p (insert_at (rank s.key ss) s ss) ≡ put (p ++ s.key) s.payload (entries_of p ss)
unfolding rank holds put
entries-insert p s [] h = refl
entries-insert p s (t ∷ ss) h = ground (arith, entries-insert p s ss, lex-append p t.key s.key)

pub rank-inside : (k : Key) (ss : List Slot) → rank k ss ≤ length ss
unfolding rank
rank-inside k [] = omega arith
rank-inside k (t ∷ ss) = ground (arith, rank-inside k ss)

pub holds-inside : (k : Key) (ss : List Slot) → holds k ss ≡ true → rank k ss < length ss
unfolding rank holds
holds-inside k [] h = cc
holds-inside k (t ∷ ss) h = ground (arith, holds-inside k ss)

Above-erase : (k : Key) (i : ℕ) (ss : List Slot) → Above k ss → Above k (erase_at i ss)
Above-erase k zero [] a = tt
Above-erase k zero (s ∷ ss) a = a.1
Above-erase k (suc i) [] a = tt
Above-erase k (suc i) (s ∷ ss) a = (a.0, Above-erase k i ss a.1)

pub AllOk-erase : (i : ℕ) (ss : List Slot) → AllOk ss → AllOk (erase_at i ss)
AllOk-erase zero [] a = tt
AllOk-erase zero (s ∷ ss) a = a.1
AllOk-erase (suc i) [] a = tt
AllOk-erase (suc i) (s ∷ ss) a = (a.0, AllOk-erase i ss a.1)

pub Sorted-erase : (i : ℕ) (ss : List Slot) → Sorted ss → Sorted (erase_at i ss)
Sorted-erase zero [] a = tt
Sorted-erase zero (s ∷ ss) a = a.1
Sorted-erase (suc i) [] a = tt
Sorted-erase (suc i) (s ∷ ss) a = (Above-erase s.key i ss a.0, Sorted-erase i ss a.1)

pub entries-erase :
    (p k : Key) (ss : List Slot)
    → holds k ss ≡ true
    → entries_of p (erase_at (rank k ss) ss) ≡ erase (p ++ k) (entries_of p ss)
unfolding rank holds erase
entries-erase p k [] h = cc
entries-erase p k (t ∷ ss) h = ground (arith, entries-erase p k ss, lex-append p t.key k)

-- The key of a full slot is found where the slots hold it, with the payload of the slot at its
-- rank.
pub find-holds :
    (p k : Key) (ss : List Slot)
    → find (p ++ k) (entries_of p ss)
      ≡ elim (holds k ss) [ true ↦ some (get_or ss (rank k ss) blank).payload | false ↦ none ]
unfolding rank holds find
find-holds p k [] = refl
find-holds p k (t ∷ ss) = ground (arith, find-holds p k ss, lex-append p t.key k)

pub length-insert_at :
    (i : ℕ) (s : Slot) (ss : List Slot) → length (insert_at i s ss) ≡ suc (length ss)
length-insert_at zero s ss = refl
length-insert_at (suc i) s [] = refl
length-insert_at (suc i) s (t ∷ ss) = ap suc (length-insert_at i s ss)

pub get_or-insert_at :
    (i j : ℕ) (s : Slot) (ss : List Slot)
    → j < i
    → i ≤ length ss
    → get_or (insert_at i s ss) j blank ≡ get_or ss j blank
get_or-insert_at zero j s ss h k = absurd (omega arith)
get_or-insert_at (suc i) j s [] h k = absurd (omega arith)
get_or-insert_at (suc i) zero s (t ∷ ss) h k = refl
get_or-insert_at (suc i) (suc j) s (t ∷ ss) h k =
    get_or-insert_at i j s ss (omega arith) (omega arith)
