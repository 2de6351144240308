-- ===== src/Btree/Node/Split/Copying.antt =====
-- `copyKeyValueRange` to a node with another prefix keeps the full keys and the payloads.
use mathlib.Core.Path.{subst}
use mathlib.Core.List.{append_assoc, append-nil}
use epsilon_db.Base.{
  ℕ, ◌≡◌, refl, List, [], ◌∷◌, ◌++◌, length, take, drop, ap, sym, ◌∙◌, ◌==◌, ==-eq, Bool-cases, inl,
  inr, take-append-drop,
}
use epsilon_db.Btree.Key.{Key}
use epsilon_db.Btree.Key.Order.{lex, lex-append}
use epsilon_db.Btree.Key.Heads.{IsBytes}
use epsilon_db.Btree.Node.{
  Slot, Node, prefix, full_key, copy_slot, copy_range, append_slot, take_room, stored_slot,
}
use epsilon_db.Btree.Node.Search.Rank.{Above, Sorted, SlotOk, AllOk}
use epsilon_db.Btree.Node.Search.Position.{IsBytes-drop}
use epsilon_db.Btree.Node.Contents.{entries_of}

-- Slots that hold the same records under another prefix.
abbrev pub Same : Key → Key → List Slot → List Slot → Type 0
Same p q [] [] = Unit {0}
Same p q [] (t ∷ ts) = ⊥
Same p q (s ∷ ss) [] = ⊥
Same p q (s ∷ ss) (t ∷ ts) =
    (q ++ t.key ≡ p ++ s.key)
    × (t.payload ≡ s.payload)
    × (t.frozen ≡ s.frozen)
    × SlotOk t
    × Same p q ss ts

pub Same-entries :
    (p q : Key) (ss ts : List Slot) → Same p q ss ts → entries_of q ts ≡ entries_of p ss
Same-entries p q [] [] m = refl
Same-entries p q [] (t ∷ ts) m = absurd m
Same-entries p q (s ∷ ss) [] m = absurd m
Same-entries p q (s ∷ ss) (t ∷ ts) m = rw (m.0, m.1, Same-entries p q ss ts m.4)

pub Same-AllOk : (p q : Key) (ss ts : List Slot) → Same p q ss ts → AllOk ts
Same-AllOk p q [] [] m = tt
Same-AllOk p q [] (t ∷ ts) m = absurd m
Same-AllOk p q (s ∷ ss) [] m = absurd m
Same-AllOk p q (s ∷ ss) (t ∷ ts) m = (m.3, Same-AllOk p q ss ts m.4)

Same-Above :
    (p q k l : Key) (ss ts : List Slot) → q ++ l ≡ p ++ k → Same p q ss ts → Above k ss → Above l ts
Same-Above p q k l [] [] e m a = tt
Same-Above p q k l [] (t ∷ ts) e m a = absurd m
Same-Above p q k l (s ∷ ss) [] e m a = absurd m
Same-Above p q k l (s ∷ ss) (t ∷ ts) e m a = (
  sym (lex-append q l t.key)
      ∙ ap (λ (x : Key). lex x (q ++ t.key)) e
      ∙ ap (lex (p ++ k)) m.0
      ∙ lex-append p k s.key
      ∙ a.0,
  Same-Above p q k l ss ts e m.4 a.1,
)

pub Same-Sorted : (p q : Key) (ss ts : List Slot) → Same p q ss ts → Sorted ss → Sorted ts
Same-Sorted p q [] [] m a = tt
Same-Sorted p q [] (t ∷ ts) m a = absurd m
Same-Sorted p q (s ∷ ss) [] m a = absurd m
Same-Sorted p q (s ∷ ss) (t ∷ ts) m a =
    (Same-Above p q s.key t.key ss ts m.0 m.4 a.0, Same-Sorted p q ss ts m.4 a.1)

take-append : (a b : Key) → take (length a) (a ++ b) ≡ a
take-append [] b = refl
take-append (x ∷ a) b = ap (λ (t : Key). x ∷ t) (take-append a b)

-- What a copy leaves of the node that it appends to.
pub record Appended (dst dst' : Node) : Type 0 where
  pub lower : dst'.lower_fence ≡ dst.lower_fence
  pub upper : dst'.upper_fence ≡ dst.upper_fence
  pub same : dst'.prefix_length ≡ dst.prefix_length

-- A key with the prefix of the node that it is copied to.
abbrev pub Fits : Key → Key → Slot → Type 0
Fits p q s = (take (length q) (p ++ s.key) ≡ q) × IsBytes (p ++ s.key) × SlotOk s

copy_slot-Same :
    (src dst : Node) (s : Slot)
    → length (prefix src) ≡ src.prefix_length
    → length (prefix dst) ≡ dst.prefix_length
    → Fits (prefix src) (prefix dst) s
    → Appended dst (copy_slot src dst s)
      × (t : Slot) × ((copy_slot src dst s).slots ≡ dst.slots ++ (t ∷ []))
      × Same (prefix src) (prefix dst) (s ∷ []) (t ∷ [])
unfolding copy_slot append_slot take_room stored_slot full_key
copy_slot-Same src dst s hs hd f =
    let key : Key = prefix src ++ s.key in
    elim (Bool-cases (src.prefix_length == dst.prefix_length)) [
      | inl e ↦
          let l : length (prefix dst) ≡ length (prefix src) =
            hd ∙ sym (==-eq src.prefix_length dst.prefix_length e) ∙ sym hs in
          let q : prefix dst ≡ prefix src =
            sym f.0 ∙ ap (λ (i : ℕ). take i key) l ∙ take-append (prefix src) s.key in
          rw (e, copy_slot)
            (
              record { lower = refl; upper = refl; same = refl },
              _,
              refl,
              (
                ap (λ (x : Key). x ++ s.key) q,
                refl,
                refl,
                record { bytes = f.2.bytes; cached = f.2.cached },
                tt,
              ),
            )
      | inr e ↦
          rw (e, copy_slot)
            (
              record { lower = refl; upper = refl; same = refl },
              _,
              refl,
              (
                ap (λ (x : Key). x ++ drop dst.prefix_length key) (sym f.0)
                    ∙ ap (λ (i : ℕ). take (length (prefix dst)) key ++ drop i key) (sym hd)
                    ∙ take-append-drop (length (prefix dst)) key,
                refl,
                refl,
                record { bytes = IsBytes-drop dst.prefix_length key f.1; cached = refl },
                tt,
              ),
            )
    ]

abbrev pub AllFit : Key → Key → List Slot → Type 0
AllFit p q [] = Unit {0}
AllFit p q (s ∷ ss) = Fits p q s × AllFit p q ss

pub Appended-prefix : (dst dst' : Node) → Appended dst dst' → prefix dst' ≡ prefix dst
Appended-prefix dst dst' a = rw (a.same, a.lower) refl

pub copy_range-Same :
    (src dst : Node) (ss : List Slot)
    → length (prefix src) ≡ src.prefix_length
    → length (prefix dst) ≡ dst.prefix_length
    → AllFit (prefix src) (prefix dst) ss
    → Appended dst (copy_range src dst ss)
      × (ts : List Slot) × ((copy_range src dst ss).slots ≡ dst.slots ++ ts)
      × Same (prefix src) (prefix dst) ss ts
unfolding copy_range
copy_range-Same src dst [] hs hd f =
    (record { lower = refl; upper = refl; same = refl }, [], sym (append-nil dst.slots), tt)
copy_range-Same src dst (s ∷ ss) hs hd f =
    let (c, t, e, m) = copy_slot-Same src dst s hs hd f.0 in
    let q = Appended-prefix dst (copy_slot src dst s) c in
    let (c2, ts, e2, m2) =
      copy_range-Same src (copy_slot src dst s) ss hs (ap length q ∙ hd ∙ sym c.same) (rw q f.1) in
    (
      record { lower = c2.lower ∙ c.lower; upper = c2.upper ∙ c.upper; same = c2.same ∙ c.same },
      t ∷ ts,
      e2 ∙ ap (λ (x : List Slot). x ++ ts) e ∙ append_assoc dst.slots (t ∷ []) ts,
      (m.0, m.1, m.2, m.3, subst (λ (x : Key). Same (prefix src) x ss ts) q m2),
    )
