-- ===== src/Btree/Node/Heap.antt =====
-- Where the fences, keys and payloads of a node lie, as slots are copied to it.
use mathlib.Core.List.{append_assoc, append-nil, map-append}
use epsilon_db.Base.{
  ℕ, ◌+◌, ◌-◌, ◌*◌, ◌%◌, ◌^◌, ◌≤◌, ◌≡◌, ◌⊎◌, inl, inr, refl, Bool, Option, none, some, List, [],
  ◌∷◌, ◌++◌, ◌==◌, length, map, take, drop, take-append-drop, arith, ap, sym, ◌∙◌, Bool-cases,
}
use mathlib.Core.Path.{subst}
use epsilon_db.Btree.Key.{Key}
use epsilon_db.Btree.Node.{
  Slot, Node, Flags, Fence, count, fence_key, full_key, copy_slot, copy_range, set_fences, fresh,
  append_slot, take_room, fence_room, placed_fence, stored_slot, insert_at, add16, sub16,
}

-- A first byte and a number of bytes.
abbrev pub Region : Type 0
Region = ℕ × ℕ

abbrev pub Beside : Region → Region → Type 0
Beside r q = (r.0 + r.1 ≤ q.0) ⊎ (q.0 + q.1 ≤ r.0)

abbrev pub Clear : Region → List Region → Type 0
Clear r [] = Unit {0}
Clear r (q ∷ qs) = Beside r q × Clear r qs

-- The regions lie from `d` on and within the node, and no two of them meet.
abbrev pub Heap : ℕ → List Region → Type 0
Heap d [] = Unit {0}
Heap d (r ∷ rs) = (d ≤ r.0) × (r.0 + r.1 ≤ 4024) × Clear r rs × Heap d rs

Heap-Clear : (d : ℕ) (r : Region) (rs : List Region) → Heap d rs → r.0 + r.1 ≤ d → Clear r rs
Heap-Clear d r [] h e = tt
Heap-Clear d r (q ∷ rs) h e = (inl (omega (arith, h.0, e)), Heap-Clear d r rs h.3 e)

Heap-lower : (d e : ℕ) (rs : List Region) → Heap d rs → e ≤ d → Heap e rs
Heap-lower d e [] h le = tt
Heap-lower d e (r ∷ rs) h le = (omega (arith, h.0, le), h.1, h.2, Heap-lower d e rs h.3 le)

Clear-put :
    (q r : Region) (xs ys : List Region)
    → Clear q (xs ++ ys)
    → Beside q r
    → Clear q (xs ++ (r ∷ ys))
Clear-put q r [] ys h b = (b, h)
Clear-put q r (x ∷ xs) ys h b = (h.0, Clear-put q r xs ys h.1 b)

-- A region below all others.
Heap-put :
    (d e : ℕ) (r : Region) (xs ys : List Region)
    → Heap d (xs ++ ys)
    → d ≤ 4024
    → e ≤ r.0
    → r.0 + r.1 ≤ d
    → Heap e (xs ++ (r ∷ ys))
Heap-put d e r [] ys h b p q =
    (p, omega arith, Heap-Clear d r ys h q, Heap-lower d e ys h (omega arith))
Heap-put d e r (x ∷ xs) ys h b p q = (
  omega (arith, h.0, p, q),
  h.1,
  Clear-put x r xs ys h.2 (inr (omega (arith, h.0, q))),
  Heap-put d e r xs ys h.3 b p q,
)

abbrev pub bytes : Slot → ℕ
bytes s = length s.key + length s.payload

-- The bytes of keys and payloads.
abbrev pub weight : List Slot → ℕ
weight [] = 0
weight (s ∷ ss) = bytes s + weight ss

abbrev pub region : Slot → Region
region s = (s.offset, bytes s)

abbrev pub fence_regions : Option Fence → List Region
fence_regions none = []
fence_regions (some k) = (k.offset, length k.key) ∷ []

abbrev pub fences : Node → List Region
fences n = fence_regions n.lower_fence ++ fence_regions n.upper_fence

-- `space_used` counts the fences, keys and payloads, which lie behind `data_offset` and apart
-- from each other, and the slots end before it.
pub record SpaceOk (n : Node) : Type 0 where
  pub used :
      n.space_used
      ≡ length (fence_key n.lower_fence) + length (fence_key n.upper_fence) + weight n.slots
  pub heap : n.data_offset + n.space_used ≤ 4024
  pub slots_end : 149 + 10 * count n ≤ n.data_offset
  pub apart : Heap n.data_offset (fences n ++ map region n.slots)

-- A slot put at a position, with its bytes in front of all others.
pub Heap-insert_at :
    (d e i : ℕ) (s : Slot) (fs : List Region) (ss : List Slot)
    → Heap d (fs ++ map region ss)
    → d ≤ 4024
    → e ≤ s.offset
    → s.offset + bytes s ≤ d
    → Heap e (fs ++ map region (insert_at i s ss))
Heap-insert_at d e i s fs ss h b p q =
    let xs = map region (take i ss) in
    let ys = map region (drop i ss) in
    let before : fs ++ map region ss ≡ (fs ++ xs) ++ ys =
      ap (λ (x : List Slot). fs ++ map region x) (sym (take-append-drop i ss))
      ∙ ap (λ (x : List Region). fs ++ x) (map-append region (take i ss) (drop i ss))
      ∙ sym (append_assoc fs xs ys) in
    let after : (fs ++ xs) ++ (region s ∷ ys) ≡ fs ++ map region (insert_at i s ss) =
      append_assoc fs xs (region s ∷ ys)
      ∙ ap (λ (x : List Region). fs ++ x) (sym (map-append region (take i ss) (s ∷ drop i ss))) in
    subst (Heap e) after (Heap-put d e (region s) (fs ++ xs) ys (subst (Heap d) before h) b p q)

-- A slot at the end, with its bytes in front of all others.
Heap-append :
    (d e : ℕ) (s : Slot) (fs : List Region) (ss : List Slot)
    → Heap d (fs ++ map region ss)
    → d ≤ 4024
    → e ≤ s.offset
    → s.offset + bytes s ≤ d
    → Heap e (fs ++ map region (ss ++ (s ∷ [])))
Heap-append d e s fs ss h b p q =
    let xs = map region ss in
    let after : (fs ++ xs) ++ (region s ∷ []) ≡ fs ++ map region (ss ++ (s ∷ [])) =
      append_assoc fs xs (region s ∷ [])
      ∙ ap (λ (x : List Region). fs ++ x) (sym (map-append region ss (s ∷ []))) in
    subst (Heap e) after
      (Heap-put d e (region s) (fs ++ xs) [] (subst (Heap d) (sym (append-nil (fs ++ xs))) h) b p q)

-- A node whose bytes are packed at its end.
abbrev pub Packed : Node → ℕ → Type 0
Packed m used = (m.space_used ≡ used) × (m.data_offset + used ≡ 4024)

-- What copying one slot does.
record Grown (dst m : Node) (t : Slot) : Type 0 where
  slots : m.slots ≡ dst.slots ++ (t ∷ [])
  offset : t.offset ≡ sub16 dst.data_offset (bytes t % 2 ^ 16)
  data_offset : m.data_offset ≡ sub16 dst.data_offset (bytes t % 2 ^ 16)
  space_used : m.space_used ≡ add16 dst.space_used (bytes t % 2 ^ 16)
  lower : m.lower_fence ≡ dst.lower_fence
  upper : m.upper_fence ≡ dst.upper_fence

copy_slot-Grown : (src dst : Node) (s : Slot) → (t : Slot) × Grown dst (copy_slot src dst s) t
unfolding copy_slot append_slot take_room stored_slot
copy_slot-Grown src dst s = elim (Bool-cases (src.prefix_length == dst.prefix_length)) [
  | inl e ↦ rw e (
    record s { offset = sub16 dst.data_offset (bytes s % 2 ^ 16) },
    record {
      slots = refl;
      offset = refl;
      data_offset = refl;
      space_used = refl;
      lower = refl;
      upper = refl;
    },
  )
  | inr e ↦ rw e (
    record (stored_slot dst (full_key src s) s.payload) { frozen = s.frozen },
    record {
      slots = refl;
      offset = refl;
      data_offset = refl;
      space_used = refl;
      lower = refl;
      upper = refl;
    },
  )
]

-- What copying slots does: those that it appends, and where their bytes are when they fit.
pub record Copied (dst m : Node) : Type 0 where
  pub appended : List Slot
  pub slots : m.slots ≡ dst.slots ++ appended
  pub lower : m.lower_fence ≡ dst.lower_fence
  pub upper : m.upper_fence ≡ dst.upper_fence
  pub packed :
      (used : ℕ) (fs : List Region)
      → Packed dst used
      → Heap dst.data_offset (fs ++ map region dst.slots)
      → used + weight appended ≤ 4024
      → Packed m (used + weight appended) × Heap m.data_offset (fs ++ map region m.slots)

Grown-Packed :
    (dst m : Node) (t : Slot) (used : ℕ) (fs : List Region)
    → Grown dst m t
    → Packed dst used
    → Heap dst.data_offset (fs ++ map region dst.slots)
    → used + bytes t ≤ 4024
    → Packed m (used + bytes t) × Heap m.data_offset (fs ++ map region m.slots)
Grown-Packed dst m t used fs g p h le =
    let o : t.offset ≡ dst.data_offset - bytes t = omega (arith, g.offset, p.1, le) in
    let d : m.data_offset ≡ dst.data_offset - bytes t = omega (arith, g.data_offset, p.1, le) in
    let a =
      Heap-append dst.data_offset m.data_offset t fs dst.slots h (omega (arith, p.1))
        (omega (arith, o, d)) (omega (arith, o, p.1, le)) in
    (
      (omega (arith, g.space_used, p.0, le), omega (arith, d, p.1, le)),
      subst (λ (x : List Slot). Heap m.data_offset (fs ++ map region x)) (sym g.slots) a,
    )

pub copy_range-Copied : (src dst : Node) (ss : List Slot) → Copied dst (copy_range src dst ss)
unfolding copy_range
copy_range-Copied src dst [] = record {
  appended = [];
  slots = sym (append-nil dst.slots);
  lower = refl;
  upper = refl;
  packed = λ used fs p h le. ((omega (arith, p.0), omega (arith, p.1)), h);
}
copy_range-Copied src dst (s ∷ ss) =
    let (t, g) = copy_slot-Grown src dst s in
    let c = copy_range-Copied src (copy_slot src dst s) ss in
    record {
      appended = t ∷ c.appended;
      slots =
          c.slots
          ∙ ap (λ (x : List Slot). x ++ c.appended) g.slots
          ∙ append_assoc dst.slots (t ∷ []) c.appended;
      lower = c.lower ∙ g.lower;
      upper = c.upper ∙ g.upper;
      packed = λ used fs p h le.
          let (q, k) = Grown-Packed dst (copy_slot src dst s) t used fs g p h (omega (arith, le)) in
          let (a, b) = c.packed (used + bytes t) fs q k (omega (arith, le)) in
          ((omega (arith, a.0), omega (arith, a.1)), b);
    }

set_fences-Packed :
    (f : Flags) (leaf : Bool) (lower upper : Option Key)
    → let m = set_fences f (fresh leaf) lower upper in
      let used = length (fence_key m.lower_fence) + length (fence_key m.upper_fence) in
      used ≤ 4024
      → Packed m used × Heap m.data_offset (fences m ++ map region m.slots) × (m.slots ≡ [])
unfolding set_fences fence_room placed_fence take_room
set_fences-Packed f leaf none none h = ((omega arith, omega arith), tt, refl)
set_fences-Packed f leaf none (some b) h =
    ((omega arith, omega arith), (omega arith, omega arith, tt, tt), refl)
set_fences-Packed f leaf (some a) none h =
    ((omega arith, omega arith), (omega arith, omega arith, tt, tt), refl)
set_fences-Packed f leaf (some a) (some b) h = (
  (omega arith, omega arith),
  (omega arith, omega arith, (inr (omega arith), tt), (omega arith, omega arith, tt, tt)),
  refl,
)

-- The bytes of a node fit in it.
abbrev pub Fits : Node → Type 0
Fits m =
    149
      + 10 * count m
      + (length (fence_key m.lower_fence) + length (fence_key m.upper_fence) + weight m.slots)
    ≤ 4024

-- A new node between two fences to which slots are copied that fit, whatever node they are from.
pub copied-SpaceOk :
    (f : Flags) (src : Node) (leaf : Bool) (lower upper : Option Key) (ss : List Slot)
    → let m = copy_range src (set_fences f (fresh leaf) lower upper) ss in
      Fits m → SpaceOk m × (m.data_offset + m.space_used ≡ 4024)
copied-SpaceOk f src leaf lower upper ss h =
    let dst = set_fences f (fresh leaf) lower upper in
    let m : Node = copy_range src dst ss in
    let c = copy_range-Copied src dst ss in
    let lo = ap (λ (x : Option Fence). length (fence_key x)) c.lower in
    let up = ap (λ (x : Option Fence). length (fence_key x)) c.upper in
    let (p, k, e) = set_fences-Packed f leaf lower upper (omega (arith, h, lo, up)) in
    let st : m.slots ≡ c.appended = c.slots ∙ ap (λ (x : List Slot). x ++ c.appended) e in
    let w = ap weight st in
    let (a, b) = c.packed _ (fences dst) p k (omega (arith, h, lo, up, w)) in
    let fs : fences dst ≡ fences m =
      ap (λ (x : Option Fence). fence_regions x ++ fence_regions dst.upper_fence) (sym c.lower)
      ∙ ap (λ (x : Option Fence). fence_regions m.lower_fence ++ fence_regions x) (sym c.upper) in
    (
      record {
        used = omega (arith, a.0, lo, up, w);
        heap = omega (arith, a.0, a.1);
        slots_end = omega (arith, a.1, h, lo, up, w);
        apart = subst (λ (x : List Region). Heap m.data_offset (x ++ map region m.slots)) fs b;
      },
      omega (arith, a.0, a.1),
    )
