-- ===== src/Btree/Node/Contents/Compact.antt =====
-- `compactify` moves the bytes and keeps the contents.
use epsilon_db.Base.{
  ◌≡◌, refl, Option, none, some, List, [], ◌∷◌, ◌++◌, if◌then◌else◌, ap, sym, ◌∙◌, ==-true,
}
use mathlib.Core.List.{append_assoc, append-nil}
use epsilon_db.Btree.Key.{Key}
use epsilon_db.Btree.Node.{
  Slot, Node, Flags, Fence, common_prefix, fence_key, copy_slot, copy_range, set_fences, fresh,
  key_of, compactify, make_hint, append_slot, take_room, fence_room, placed_fence,
}
use epsilon_db.Btree.Node.Search.Rank.{Above, Sorted, AllOk}
use epsilon_db.Btree.Node.Search.Hints.{HintsOk}
use epsilon_db.Btree.Node.Contents.{entries_of, Compressed, Moved}

pub Moved-refl : (ss : List Slot) → Moved ss ss
Moved-refl [] = tt
Moved-refl (s ∷ ss) = (refl, refl, refl, refl, Moved-refl ss)

Moved-snoc :
    (ss ts : List Slot) (s t : Slot)
    → Moved ss ts
    → Moved (s ∷ []) (t ∷ [])
    → Moved (ss ++ (s ∷ [])) (ts ++ (t ∷ []))
Moved-snoc [] [] s t m k = k
Moved-snoc [] (t0 ∷ ts) s t m k = absurd m
Moved-snoc (s0 ∷ ss) [] s t m k = absurd m
Moved-snoc (s0 ∷ ss) (t0 ∷ ts) s t m k = (m.0, m.1, m.2, m.3, Moved-snoc ss ts s t m.4 k)

pub Moved-Above : (k : Key) (ss ts : List Slot) → Moved ss ts → Above k ss → Above k ts
Moved-Above k [] [] m a = tt
Moved-Above k [] (t ∷ ts) m a = absurd m
Moved-Above k (s ∷ ss) [] m a = absurd m
Moved-Above k (s ∷ ss) (t ∷ ts) m a = (rw m.0 a.0, Moved-Above k ss ts m.4 a.1)

pub Moved-Sorted : (ss ts : List Slot) → Moved ss ts → Sorted ss → Sorted ts
Moved-Sorted [] [] m a = tt
Moved-Sorted [] (t ∷ ts) m a = absurd m
Moved-Sorted (s ∷ ss) [] m a = absurd m
Moved-Sorted (s ∷ ss) (t ∷ ts) m a =
    (rw m.0 (Moved-Above s.key ss ts m.4 a.0), Moved-Sorted ss ts m.4 a.1)

pub Moved-AllOk : (ss ts : List Slot) → Moved ss ts → AllOk ss → AllOk ts
Moved-AllOk [] [] m a = tt
Moved-AllOk [] (t ∷ ts) m a = absurd m
Moved-AllOk (s ∷ ss) [] m a = absurd m
Moved-AllOk (s ∷ ss) (t ∷ ts) m a = (
  record { bytes = rw m.0 a.0.bytes; cached = rw (m.0, m.3) a.0.cached },
  Moved-AllOk ss ts m.4 a.1,
)

pub Moved-entries : (p : Key) (ss ts : List Slot) → Moved ss ts → entries_of p ts ≡ entries_of p ss
Moved-entries p [] [] m = refl
Moved-entries p [] (t ∷ ts) m = absurd m
Moved-entries p (s ∷ ss) [] m = absurd m
Moved-entries p (s ∷ ss) (t ∷ ts) m = rw (m.0, m.1, Moved-entries p ss ts m.4)

-- What copying slots to a node with the same prefix keeps and moves.
record Copied (dst dst' : Node) : Type 0 where
  lower : dst'.lower_fence ≡ dst.lower_fence
  upper : dst'.upper_fence ≡ dst.upper_fence
  same : dst'.prefix_length ≡ dst.prefix_length

copy_slot-Copied :
    (src dst : Node) (s : Slot)
    → src.prefix_length ≡ dst.prefix_length
    → Copied dst (copy_slot src dst s)
      × (t : Slot) × ((copy_slot src dst s).slots ≡ dst.slots ++ (t ∷ []))
      × Moved (s ∷ []) (t ∷ [])
unfolding copy_slot append_slot take_room
copy_slot-Copied src dst s h =
    rw (==-true src.prefix_length dst.prefix_length h)
      (record { lower = refl; upper = refl; same = refl }, _, refl, (refl, refl, refl, refl, tt))

copy_range-Copied :
    (src dst : Node) (ss : List Slot)
    → src.prefix_length ≡ dst.prefix_length
    → Copied dst (copy_range src dst ss)
      × (ts : List Slot) × ((copy_range src dst ss).slots ≡ dst.slots ++ ts)
      × Moved ss ts
unfolding copy_range
copy_range-Copied src dst [] h =
    (record { lower = refl; upper = refl; same = refl }, [], sym (append-nil dst.slots), tt)
copy_range-Copied src dst (s ∷ ss) h =
    let (c, t, e, m) = copy_slot-Copied src dst s h in
    let (c2, ts, e2, m2) = copy_range-Copied src (copy_slot src dst s) ss (h ∙ sym c.same) in
    (
      record { lower = c2.lower ∙ c.lower; upper = c2.upper ∙ c.upper; same = c2.same ∙ c.same },
      t ∷ ts,
      e2 ∙ ap (λ (x : List Slot). x ++ ts) e ∙ append_assoc dst.slots (t ∷ []) ts,
      (m.0, m.1, m.2, m.3, m2),
    )

-- What compacting a node keeps.
pub record Kept (n n' : Node) : Type 0 where
  pub lower : fence_key n'.lower_fence ≡ fence_key n.lower_fence
  pub upper : fence_key n'.upper_fence ≡ fence_key n.upper_fence
  pub same : n'.prefix_length ≡ n.prefix_length
  pub moved : Moved n.slots n'.slots

pub set_fences-keys :
    (f : Flags) (m : Node) (lower upper : Option Fence)
    → (fence_key (set_fences f m (key_of lower) (key_of upper)).lower_fence ≡ fence_key lower)
      × (fence_key (set_fences f m (key_of lower) (key_of upper)).upper_fence ≡ fence_key upper)
      × ((set_fences f m (key_of lower) (key_of upper)).prefix_length
          ≡ (if f.prefix_compression then common_prefix (fence_key lower) (fence_key upper) else 0))
      × ((set_fences f m (key_of lower) (key_of upper)).slots ≡ m.slots)
unfolding set_fences fence_room placed_fence take_room
set_fences-keys f m none none = (refl, refl, refl, refl)
set_fences-keys f m none (some b) = (refl, refl, refl, refl)
set_fences-keys f m (some a) none = (refl, refl, refl, refl)
set_fences-keys f m (some a) (some b) = (refl, refl, refl, refl)

pub compactify-Kept : (f : Flags) (n : Node) → Compressed f n → Kept n (compactify f n)
unfolding compactify make_hint
compactify-Kept f n h =
    let tmp = set_fences f (fresh n.is_leaf) (key_of n.lower_fence) (key_of n.upper_fence) in
    let (lo, up, pl, sl) = set_fences-keys f (fresh n.is_leaf) n.lower_fence n.upper_fence in
    let (c, ts, e, m) = copy_range-Copied n tmp n.slots (h ∙ sym pl) in
    let k : (copy_range n tmp n.slots).slots ≡ ts = e ∙ rw sl refl in
    record {
      lower = ap fence_key c.lower ∙ lo;
      upper = ap fence_key c.upper ∙ up;
      same = c.same ∙ pl ∙ sym h;
      moved = rw k m;
    }

pub compactify-HintsOk : (f : Flags) (n : Node) → HintsOk (compactify f n)
unfolding compactify make_hint
compactify-HintsOk f n h i k = refl
