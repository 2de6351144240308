-- ===== src/Btree/Node/Split/Fences.antt =====
-- Keys between fences, and the prefix that the fences have in common.
use Prim.Native.Nat.{lt, gt}
use epsilon_db.Base.{
  ℕ, zero, suc, ◌<◌, ◌≡◌, ◌≢◌, inl, inr, refl, Bool, Option, none, some, List, [], ◌∷◌, ◌++◌,
  if◌then◌else◌, length, take, drop, get_or, arith, ap, sym, ◌∙◌, Bool-cases,
}
use epsilon_db.Btree.Key.{Key}
use epsilon_db.Btree.Key.Order.{lex, lex_trans, lex-eq, lex-append}
use epsilon_db.Btree.Key.Heads.{IsBytes}
use epsilon_db.Btree.Node.{
  Slot, Node, Flags, prefix, common_prefix, blank, set_fences, fresh, key_of, bytes_of,
  placed_fence, fence_room, take_room,
}
use epsilon_db.Btree.Node.Search.Rank.{Above, Sorted, AllOk, Sorted-get_or}
use epsilon_db.Btree.Node.Contents.{Entries, entries_of, contents, Compressed}
use epsilon_db.Btree.Node.Split.Between.{AtMost}
use epsilon_db.Btree.Node.Split.Copying.{AllFit}

-- A key between two others has the prefix that they share.
prefix_between :
    (l k u : Key)
    → lex l k ≢ gt
    → lex k u ≢ gt
    → take (common_prefix l u) k ≡ take (common_prefix l u) l
unfolding common_prefix
prefix_between [] k u a b = refl
prefix_between (x ∷ l) k [] a b = refl
prefix_between (x ∷ l) [] (z ∷ u) a b = absurd (a refl)
prefix_between (x ∷ l) (y ∷ k) (z ∷ u) a b = ground (arith, prefix_between l k u)

length-common : (l u : Key) → length (take (common_prefix l u) l) ≡ common_prefix l u
unfolding common_prefix
length-common [] u = refl
length-common (x ∷ l) [] = refl
length-common (x ∷ l) (z ∷ u) = ground (arith, length-common l u)

-- A key is above the lower fence and at most the upper one.
abbrev pub AboveFence : Option Key → Key → Type 0
AboveFence none key = Unit {0}
AboveFence (some l) key = lex l key ≡ lt

abbrev pub UpToFence : Option Key → Key → Type 0
UpToFence none key = Unit {0}
UpToFence (some u) key = AtMost key u

-- The prefix of a node with these fences.
abbrev pub joint : Flags → Option Key → Option Key → Key
joint f l u =
    take (if f.prefix_compression then common_prefix (bytes_of l) (bytes_of u) else 0) (bytes_of l)

AtMost-ne : (a b : Key) → AtMost a b → lex a b ≢ gt
AtMost-ne a b (inl e) h = cc
AtMost-ne a b (inr e) h = cc

common_nil : (a : Key) → common_prefix a [] ≡ 0
unfolding common_prefix
common_nil [] = refl
common_nil (x ∷ a) = refl

above-ne : (l : Option Key) (k : Key) → AboveFence l k → lex (bytes_of l) k ≢ gt
above-ne none [] a h = cc
above-ne none (x ∷ k) a h = cc
above-ne (some l) k a h = cc

joint-common :
    (l u : Option Key) (k : Key)
    → AboveFence l k
    → UpToFence u k
    → take (common_prefix (bytes_of l) (bytes_of u)) k
      ≡ take (common_prefix (bytes_of l) (bytes_of u)) (bytes_of l)
joint-common l none k a b = rw (common_nil (bytes_of l)) refl
joint-common l (some u) k a b = prefix_between (bytes_of l) k u (above-ne l k a) (AtMost-ne k u b)

joint-length :
    (f : Flags) (l u : Option Key)
    → length (joint f l u)
      ≡ (if f.prefix_compression then common_prefix (bytes_of l) (bytes_of u) else 0)
joint-length f l u = elim (Bool-cases f.prefix_compression) [
  | inl e ↦ rw e (length-common (bytes_of l) (bytes_of u))
  | inr e ↦ rw e refl
]

-- A key between the fences has their prefix.
pub joint-take :
    (f : Flags) (l u : Option Key) (k : Key)
    → AboveFence l k
    → UpToFence u k
    → take (length (joint f l u)) k ≡ joint f l u
joint-take f l u k a b = rw (joint-length f l u) (elim (Bool-cases f.prefix_compression) [
  | inl e ↦ rw e (joint-common l u k a b)
  | inr e ↦ rw e refl
])

-- The entries are between two fences, and their keys are bytes.
abbrev pub AllIn : Option Key → Option Key → Entries → Type 0
AllIn l u [] = Unit {0}
AllIn l u (e ∷ es) = AboveFence l e.0 × UpToFence u e.0 × IsBytes e.0 × AllIn l u es

abbrev pub InFences : Node → Type 0
InFences n = AllIn (key_of n.lower_fence) (key_of n.upper_fence) (contents n)

pub AllIn-Fit :
    (f : Flags) (l u : Option Key) (p : Key) (ss : List Slot)
    → AllIn l u (entries_of p ss)
    → AllOk ss
    → AllFit p (joint f l u) ss
AllIn-Fit f l u p [] a o = tt
AllIn-Fit f l u p (s ∷ ss) a o =
    ((joint-take f l u (p ++ s.key) a.0 a.1, a.2, o.0), AllIn-Fit f l u p ss a.3 o.1)

lt-AtMost : (a b c : Key) → lex a b ≡ lt → AtMost b c → AtMost a c
lt-AtMost a b c h (inl e) = inl (lex_trans a b c h e)
lt-AtMost a b c h (inr e) = inl (ap (lex a) (sym (lex-eq b c e)) ∙ h)

pub left_in :
    (l u : Option Key) (sep p : Key) (i : ℕ) (ss : List Slot)
    → AllIn l u (entries_of p ss)
    → Sorted ss
    → i < length ss
    → AtMost (p ++ (get_or ss i blank).key) sep
    → AllIn l (some sep) (entries_of p (take (suc i) ss))
left_in l u sep p i [] a so h m = absurd (omega arith)
left_in l u sep p zero (s ∷ ss) a so h m = (a.0, m, a.2, tt)
left_in l u sep p (suc i) (s ∷ ss) a so h m = (
  a.0,
  lt-AtMost (p ++ s.key) (p ++ (get_or ss i blank).key) sep
      (lex-append p s.key _ ∙ Sorted-get_or (s ∷ ss) 0 (suc i) so (omega arith) h) m,
  a.2,
  left_in l u sep p i ss a.3 so.1 (omega arith) m,
)

raised :
    (l u : Option Key) (sep p t : Key) (ss : List Slot)
    → AllIn l u (entries_of p ss)
    → Above t ss
    → lex sep (p ++ t) ≡ lt
    → AllIn (some sep) u (entries_of p ss)
raised l u sep p t [] a so h = tt
raised l u sep p t (s ∷ ss) a so h = (
  lex_trans sep (p ++ t) (p ++ s.key) h (lex-append p t s.key ∙ so.0),
  a.1,
  a.2,
  raised l u sep p t ss a.3 so.1 h,
)

pub right_in :
    (l u : Option Key) (sep p : Key) (i : ℕ) (ss : List Slot)
    → AllIn l u (entries_of p ss)
    → Sorted ss
    → suc i < length ss
    → lex sep (p ++ (get_or ss (suc i) blank).key) ≡ lt
    → AllIn (some sep) u (entries_of p (drop (suc i) ss))
right_in l u sep p i [] a so h m = absurd (omega arith)
right_in l u sep p zero (s ∷ []) a so h m = absurd (omega arith)
right_in l u sep p zero (s ∷ t ∷ ts) a so h m =
    (m, a.3.1, a.3.2, raised l u sep p t.key ts a.3.3 so.1.0 m)
right_in l u sep p (suc i) (s ∷ ss) a so h m = right_in l u sep p i ss a.3 so.1 (omega arith) m

pub set_fences-joint :
    (f : Flags) (leaf : Bool) (l u : Option Key)
    → (prefix (set_fences f (fresh leaf) l u) ≡ joint f l u)
      × (length (joint f l u) ≡ (set_fences f (fresh leaf) l u).prefix_length)
      × (key_of (set_fences f (fresh leaf) l u).lower_fence ≡ l)
      × (key_of (set_fences f (fresh leaf) l u).upper_fence ≡ u)
      × ((set_fences f (fresh leaf) l u).slots ≡ [])
      × Compressed f (set_fences f (fresh leaf) l u)
unfolding set_fences fence_room placed_fence take_room
set_fences-joint f leaf none none = (refl, joint-length f none none, refl, refl, refl, refl)
set_fences-joint f leaf none (some u) = (refl, joint-length f none (some u), refl, refl, refl, refl)
set_fences-joint f leaf (some l) none = (refl, joint-length f (some l) none, refl, refl, refl, refl)
set_fences-joint f leaf (some l) (some u) =
    (refl, joint-length f (some l) (some u), refl, refl, refl, refl)
