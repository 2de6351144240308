-- ===== src/Btree/Node/Split/Halves.antt =====
-- The two halves of a leaf that is split.
use Prim.Native.Nat.{lt}
use epsilon_db.Base.{
  ℕ, zero, suc, ◌+◌, ◌*◌, ◌≤◌, leb, none, ◌<◌, ◌≡◌, refl, Bool, true, Option, some, List, [], ◌∷◌,
  ◌++◌, if◌then◌else◌, length, take, drop, arith, ap, sym, ◌∙◌,
}
use epsilon_db.Btree.Key.{Key}
use epsilon_db.Btree.Key.Order.{lex}
use epsilon_db.Btree.Node.{
  Slot, Node, Flags, count, prefix, full_key, slot_at, set_fences, fresh, key_of, copy_range,
  make_hint, Fence, fence_key, bytes_of, free_space, fence_room, take_room,
}
use epsilon_db.Btree.Node.Search.Rank.{Above, Sorted, AllOk}
use epsilon_db.Btree.Node.Search.Position.{NodeOk}
use epsilon_db.Btree.Node.Contents.{Entries, entries_of, contents, Compressed}
use epsilon_db.Btree.Node.Heap.{SpaceOk, Fits, copied-SpaceOk}
use epsilon_db.Btree.Node.Contents.Room.{length-prefix}
use epsilon_db.Btree.Node.Split.{half_fits, fences_fit, left_half, right_half, find_sep, get_sep}
use epsilon_db.Btree.Node.Split.Between.{AtMost, ShortKeys, get_sep_between}
use epsilon_db.Btree.Node.Split.Fences.{
  AllIn, InFences, AllIn-Fit, left_in, right_in, set_fences-joint,
}
use epsilon_db.Btree.Node.Split.Copying.{
  Same-entries, Same-AllOk, Same-Sorted, Appended-prefix, copy_range-Same,
}

-- A node that was filled with some of the slots of another.
pub record Filled (f : Flags) (l u : Option Key) (es : Entries) (m : Node) : Type 0 where
  pub lower : key_of m.lower_fence ≡ l
  pub upper : key_of m.upper_fence ≡ u
  pub compressed : Compressed f m
  pub holding : contents m ≡ es
  pub sorted : Sorted m.slots
  pub cached : AllOk m.slots

filled :
    (f : Flags) (n : Node) (l u : Option Key) (ss : List Slot)
    → Compressed f n
    → Sorted ss
    → AllOk ss
    → AllIn l u (entries_of (prefix n) ss)
    → Filled f l u (entries_of (prefix n) ss) (copy_range n (set_fences f (fresh n.is_leaf) l u) ss)
filled f n l u ss c so ok a =
    let m : Node = set_fences f (fresh n.is_leaf) l u in
    let (pq, pl, lo, up, sl, co) = set_fences-joint f n.is_leaf l u in
    let fit = AllIn-Fit f l u (prefix n) ss a ok in
    let (ap', ts, e, same) =
      copy_range-Same n m ss (length-prefix f n c) (ap length pq ∙ pl) (rw pq fit) in
    let st : (copy_range n m ss).slots ≡ ts = e ∙ ap (λ (x : List Slot). x ++ ts) sl in
    record {
      lower = ap key_of ap'.lower ∙ lo;
      upper = ap key_of ap'.upper ∙ up;
      compressed = rw (ap'.lower, ap'.upper, ap'.same) co;
      holding =
          ap (entries_of (prefix (copy_range n m ss))) st
          ∙ ap (λ (x : Key). entries_of x ts) (Appended-prefix m (copy_range n m ss) ap')
          ∙ Same-entries (prefix n) (prefix m) ss ts same;
      sorted = rw st (Same-Sorted (prefix n) (prefix m) ss ts same so);
      cached = rw st (Same-AllOk (prefix n) (prefix m) ss ts same);
    }

-- A node in order with its entries between its fences, which are these.
pub record HalfOk (f : Flags) (l u : Option Key) (es : Entries) (m : Node) : Type 0 where
  pub lower : key_of m.lower_fence ≡ l
  pub upper : key_of m.upper_fence ≡ u
  pub compressed : Compressed f m
  pub holding : contents m ≡ es
  pub ok : NodeOk m

finished :
    (f : Flags) (l u : Option Key) (es : Entries) (m : Node) (garbage : Bool)
    → Filled f l u es m
    → HalfOk f l u es (make_hint (record m { has_garbage = garbage }))
unfolding make_hint
finished f l u es m g k = record {
  lower = k.lower;
  upper = k.upper;
  compressed = k.compressed;
  holding = k.holding;
  ok = record { sorted = k.sorted; cached = k.cached; hinted = λ h j q. refl };
}

Above-take : (k : Key) (i : ℕ) (ss : List Slot) → Above k ss → Above k (take i ss)
Above-take k zero ss h = tt
Above-take k (suc i) [] h = tt
Above-take k (suc i) (s ∷ ss) h = (h.0, Above-take k i ss h.1)

Sorted-take : (i : ℕ) (ss : List Slot) → Sorted ss → Sorted (take i ss)
Sorted-take zero ss h = tt
Sorted-take (suc i) [] h = tt
Sorted-take (suc i) (s ∷ ss) h = (Above-take s.key i ss h.0, Sorted-take i ss h.1)

Sorted-drop : (i : ℕ) (ss : List Slot) → Sorted ss → Sorted (drop i ss)
Sorted-drop zero ss h = h
Sorted-drop (suc i) [] h = tt
Sorted-drop (suc i) (s ∷ ss) h = Sorted-drop i ss h.1

AllOk-take : (i : ℕ) (ss : List Slot) → AllOk ss → AllOk (take i ss)
AllOk-take zero ss h = tt
AllOk-take (suc i) [] h = tt
AllOk-take (suc i) (s ∷ ss) h = (h.0, AllOk-take i ss h.1)

AllOk-drop : (i : ℕ) (ss : List Slot) → AllOk ss → AllOk (drop i ss)
AllOk-drop zero ss h = h
AllOk-drop (suc i) [] h = tt
AllOk-drop (suc i) (s ∷ ss) h = AllOk-drop i ss h.1

half_at :
    (f : Flags) (l u : Option Key) (es es' : Entries) (m m' : Node) (garbage : Bool)
    → Filled f l u es m
    → m' ≡ make_hint (record m { has_garbage = garbage })
    → es' ≡ es
    → HalfOk f l u es' m'
half_at f l u es es' m m' g k e q = rw (e, q) (finished f l u es m g k)

HalfOk-InFences :
    (f : Flags) (l u : Option Key) (es : Entries) (m : Node)
    → HalfOk f l u es m
    → AllIn l u es
    → InFences m
HalfOk-InFences f l u es m h a = rw (h.lower, h.upper, h.holding) a

take-map : (i : ℕ) (p : Key) (ss : List Slot) → take i (entries_of p ss) ≡ entries_of p (take i ss)
take-map zero p ss = refl
take-map (suc i) p [] = refl
take-map (suc i) p (s ∷ ss) = rw (take-map i p ss)

drop-map : (i : ℕ) (p : Key) (ss : List Slot) → drop i (entries_of p ss) ≡ entries_of p (drop i ss)
drop-map zero p ss = refl
drop-map (suc i) p [] = refl
drop-map (suc i) p (s ∷ ss) = drop-map i p ss

-- A leaf that can be split after a slot.
pub record Splittable (f : Flags) (n : Node) (i : ℕ) (sep : Key) : Type 0 where
  pub leaf : n.is_leaf ≡ true
  pub ok : NodeOk n
  pub compressed : Compressed f n
  pub within : InFences n
  pub inside : suc i < count n
  pub above : AtMost (prefix n ++ (slot_at n i).key) sep
  pub below : lex sep (prefix n ++ (slot_at n (suc i)).key) ≡ lt

-- A new node with slots that fit, after its hints are made.
half_space :
    (f : Flags) (n : Node) (l u : Option Key) (ss : List Slot) (m' : Node) (garbage : Bool)
    → m'
      ≡ make_hint
          (record (copy_range n (set_fences f (fresh n.is_leaf) l u) ss) { has_garbage = garbage })
    → Fits m'
    → SpaceOk m'
unfolding make_hint
half_space f n l u ss m' g e h =
    let k = (copied-SpaceOk f n n.is_leaf l u ss (rw e at h)).0 in
    rw e (record { used = k.used; heap = k.heap; slots_end = k.slots_end; apart = k.apart })

leb-true : (a b : ℕ) → a ≤ b → leb a b ≡ true
leb-true a b h = ground arith

fence_key-key_of : (o : Option Fence) → length (bytes_of (key_of o)) ≡ length (fence_key o)
fence_key-key_of none = refl
fence_key-key_of (some k) = refl

fences_fit_lem :
    (leaf : Bool) (l u : Option Key)
    → 149 + (length (bytes_of l) + length (bytes_of u)) ≤ 4024
    → fences_fit (fresh leaf) l u ≡ true
unfolding fences_fit free_space fence_room take_room
fences_fit_lem leaf none u h = ground (arith, h)
fences_fit_lem leaf (some k) u h = ground (arith, h)

-- The asserts hold while a half that fits is filled.
half_fits_lem :
    (f : Flags) (l u : Option Key) (es : Entries) (m : Node)
    → HalfOk f l u es m
    → Fits m
    → SpaceOk m
    → half_fits l u m ≡ true
unfolding half_fits
half_fits_lem f l u es m h fit k =
    let lo = ap (λ (x : Option Key). length (bytes_of x)) h.lower in
    let up = ap (λ (x : Option Key). length (bytes_of x)) h.upper in
    let room = fences_fit_lem m.is_leaf l u (
      omega (arith, lo, up, fit, fence_key-key_of m.lower_fence, fence_key-key_of m.upper_fence)) in
    rw (room, leb-true (149 + 10 * count m) m.data_offset k.slots_end) refl

-- A leaf in order, with its keys between its fences and the prefix that these share, is split
-- after a slot that is not its last, by a separator between that slot's key and the next, where
-- the slots, fences, keys and payloads of each half fit in a node: the left half has the entries
-- up to the slot and ends at the separator, the right half has the others and starts there; both
-- are in order, with the heads, hints and prefix that belong to them, their bytes lie apart, and
-- the asserts on their room hold.
pub split_leaf_lem :
    (f : Flags) (n : Node) (i : ℕ) (sep : Key)
    → Splittable f n i sep
    → Fits (left_half f n i sep)
    → Fits (right_half f n i sep)
    → HalfOk f (key_of n.lower_fence) (some sep) (take (suc i) (contents n)) (left_half f n i sep)
      × HalfOk f
          (some sep)
          (key_of n.upper_fence)
          (drop (suc i) (contents n))
          (right_half f n i sep)
      × InFences (left_half f n i sep)
      × InFences (right_half f n i sep)
      × SpaceOk (left_half f n i sep)
      × SpaceOk (right_half f n i sep)
      × (half_fits (key_of n.lower_fence) (some sep) (left_half f n i sep) ≡ true)
      × (half_fits (some sep) (key_of n.upper_fence) (right_half f n i sep) ≡ true)
unfolding left_half right_half
split_leaf_lem f n i sep k room_l room_r =
    let p : Key = prefix n in
    let l = key_of n.lower_fence in
    let u = key_of n.upper_fence in
    let lin = left_in l u sep p i n.slots k.within k.ok.sorted (omega (arith, k.inside)) k.above in
    let rin = right_in l u sep p i n.slots k.within k.ok.sorted k.inside k.below in
    let lf =
      filled f n l (some sep) (take (suc i) n.slots) k.compressed
        (Sorted-take (suc i) n.slots k.ok.sorted) (AllOk-take (suc i) n.slots k.ok.cached) lin in
    let rf =
      filled f n (some sep) u (drop (suc i) n.slots) k.compressed
        (Sorted-drop (suc i) n.slots k.ok.sorted) (AllOk-drop (suc i) n.slots k.ok.cached) rin in
    let le =
      ap
        (λ (b : Bool). make_hint (
          if b
          then record (copy_range n (set_fences f (fresh n.is_leaf) l (some sep))
              (take (suc i) n.slots)) { has_garbage = n.has_garbage }
          else record (copy_range n (set_fences f (fresh n.is_leaf) l (some sep))
              (take i n.slots)) { upper = (slot_at n i).payload }))
        k.leaf in
    let re =
      ap
        (λ (b : Bool). make_hint (
          if b
          then record (copy_range n (set_fences f (fresh n.is_leaf) (some sep) u)
              (drop (suc i) n.slots)) { has_garbage = n.has_garbage }
          else record (copy_range n (set_fences f (fresh n.is_leaf) (some sep) u)
              (drop (suc i) n.slots)) { upper = n.upper }))
        k.leaf in
    let lh = half_at f l (some sep) _ _ _ _ n.has_garbage lf le (take-map (suc i) p n.slots) in
    let rh = half_at f (some sep) u _ _ _ _ n.has_garbage rf re (drop-map (suc i) p n.slots) in
    let space_l = half_space f n l (some sep) _ _ n.has_garbage le room_l in
    let space_r = half_space f n (some sep) u _ _ n.has_garbage re room_r in
    (
      lh,
      rh,
      HalfOk-InFences f l (some sep) _ _ lh (rw (take-map (suc i) p n.slots) lin),
      HalfOk-InFences f (some sep) u _ _ rh (rw (drop-map (suc i) p n.slots) rin),
      space_l,
      space_r,
      half_fits_lem f l (some sep) _ _ lh room_l space_l,
      half_fits_lem f (some sep) u _ _ rh room_r space_r,
    )

-- The separator of a leaf splits it: a leaf of at least two keys, in order and between its
-- fences, can be split after the slot and by the key that `findSep` and `getSep` give.
pub find_sep-Splittable :
    (f : Flags) (n : Node)
    → n.is_leaf ≡ true
    → NodeOk n
    → Compressed f n
    → InFences n
    → 1 < count n
    → ShortKeys n
    → Splittable f n (find_sep n).slot (get_sep n (find_sep n))
unfolding full_key
find_sep-Splittable f n leaf v c w h short =
    let (inside, above, below) = get_sep_between n leaf h v.sorted short in
    let e : (find_sep n).slot + 1 ≡ suc (find_sep n).slot = omega arith in
    record {
      leaf = leaf;
      ok = v;
      compressed = c;
      within = w;
      inside = omega arith;
      above = above;
      below =
          ap (λ (i : ℕ). lex (get_sep n (find_sep n)) (prefix n ++ (slot_at n i).key)) (sym e)
          ∙ below;
    }
