-- ===== src/Btree/Node/Contents/Update.antt =====
-- `insert` and `remove` on the contents of a node.
use epsilon_db.Base.{
  ℕ, ◌-◌, ◌^◌, ◌≤◌, ◌<◌, length-append, ◌≡◌, refl, Bool, true, false, none, some, List, [], ◌∷◌,
  ◌++◌, length, take, drop, arith, ap, sym, ◌∙◌, ok, if◌then◌else◌, Bool-cases, inl, inr, get_or,
  take-append-drop,
}
use epsilon_db.Btree.Key.{Key}
use epsilon_db.Btree.Key.Order.{lex, lex-eq}
use epsilon_db.Btree.Node.Heap.{SpaceOk}
use epsilon_db.Btree.Node.Space.{insert_space_lem}
use epsilon_db.Btree.Key.Heads.{IsBytes}
use epsilon_db.Btree.Node.{
  Slot, Node, Flags, prefix, request_space_for, stored_slot, take_room, update_hint, insert_at,
  remove_slot, make_hint, space_needed, blank, can_insert,
}
use epsilon_db.Btree.Node.Search.{lower_bound, place_slot, insert, remove}
use epsilon_db.Btree.Node.Search.Rank.{SlotOk, rank, holds, Ordering-cases, below, same, above}
use epsilon_db.Btree.Node.Search.Position.{
  NodeOk, prefixed, rank-prefixed, lower_bound_lem, exact_position_lem, IsBytes-drop,
}
use epsilon_db.Btree.Node.Contents.{entries_of, contents, find, put, erase, Compressed, Moved}
use epsilon_db.Btree.Node.Contents.Compact.{Kept}
use epsilon_db.Btree.Node.Contents.Sorting.{
  Sorted-insert, AllOk-insert, entries-insert, rank-inside, Sorted-erase, AllOk-erase,
  entries-erase, find-holds,
}
use epsilon_db.Btree.Node.Contents.Hinting.{update_hint-HintsOk}
use epsilon_db.Btree.Node.Contents.Room.{
  request_space_for-Kept, Kept-prefix, Kept-Compressed, Kept-contents, length-prefix, HasPrefix,
}

-- A node in which a slot was put at its rank.
placed :
    (n m : Node) (s : Slot)
    → NodeOk n
    → SlotOk s
    → holds s.key n.slots ≡ false
    → m.hint ≡ n.hint
    → m.slots ≡ insert_at (rank s.key n.slots) s n.slots
    → NodeOk (update_hint m (rank s.key n.slots))
unfolding update_hint
placed n m s v so h hh hs = record {
  sorted = rw hs (Sorted-insert s n.slots v.sorted h);
  cached = rw hs (AllOk-insert (rank s.key n.slots) s n.slots so v.cached);
  hinted =
      update_hint-HintsOk n m (rank s.key n.slots) s v.hinted (rank-inside s.key n.slots) hh hs;
}

-- The slot of a key with the prefix.
stored :
    (f : Flags) (n : Node) (key : Key) (payload : List ℕ)
    → Compressed f n
    → IsBytes key
    → HasPrefix n key
    → SlotOk (stored_slot n key payload)
      × ((stored_slot n key payload).key ≡ drop (length (prefix n)) key)
      × (prefix n ++ (stored_slot n key payload).key ≡ key)
unfolding stored_slot
stored f n key payload h kb hp =
    let e = length-prefix f n h in
    (
      record { bytes = IsBytes-drop n.prefix_length key kb; cached = refl },
      rw e refl,
      ap (λ (x : Key). x ++ drop n.prefix_length key) (sym hp)
          ∙ ap (λ (i : ℕ). take (length (prefix n)) key ++ drop i key) (sym e)
          ∙ take-append-drop (length (prefix n)) key,
    )

find-none :
    (p k : Key) (ss : List Slot) → find (p ++ k) (entries_of p ss) ≡ none → holds k ss ≡ false
find-none p k ss h = elim (Bool-cases (holds k ss)) [
  | inl e ↦ absurd (ground (arith, find-holds p k ss))
  | inr e ↦ e
]

place_slot-contents :
    (f : Flags) (n : Node) (key : Key) (payload : List ℕ) (i : ℕ)
    → NodeOk n
    → Compressed f n
    → IsBytes key
    → HasPrefix n key
    → find key (contents n) ≡ none
    → i ≡ rank (drop (length (prefix n)) key) n.slots
    → NodeOk (place_slot n i key payload)
      × Compressed f (place_slot n i key payload)
      × (contents (place_slot n i key payload) ≡ put key payload (contents n))
unfolding place_slot update_hint take_room stored_slot
place_slot-contents f n key payload i v h kb hp hf hi =
    let s : Slot = stored_slot n key payload in
    let (so, sr, sp) = stored f n key payload h kb hp in
    let free = find-none (prefix n) s.key n.slots (ap (λ (x : Key). find x (contents n)) sp ∙ hf) in
    let e : i ≡ rank s.key n.slots = hi ∙ ap (λ (x : Key). rank x n.slots) (sym sr) in
    rw e (
      placed n _ s v so free refl refl,
      h,
      entries-insert (prefix n) s n.slots free ∙ ap (λ (x : Key). put x payload (contents n)) sp,
    )

Moved-rank :
    (p key : Key) (ss ts : List Slot)
    → Moved ss ts
    → rank key (prefixed p ts) ≡ rank key (prefixed p ss)
unfolding rank
Moved-rank p key [] [] m = refl
Moved-rank p key [] (t ∷ ts) m = absurd m
Moved-rank p key (s ∷ ss) [] m = absurd m
Moved-rank p key (s ∷ ss) (t ∷ ts) m = ground (arith, m.0, Moved-rank p key ss ts m.4)

Kept-rank :
    (n m : Node) (key : Key)
    → Kept n m
    → rank key (prefixed (prefix m) m.slots) ≡ rank key (prefixed (prefix n) n.slots)
Kept-rank n m key k = rw (Kept-prefix n m k) (Moved-rank (prefix n) key n.slots m.slots k.moved)

key-split :
    (n : Node) (key : Key) → HasPrefix n key → key ≡ prefix n ++ drop (length (prefix n)) key
key-split n key hp =
    sym (take-append-drop (length (prefix n)) key)
    ∙ ap (λ (x : Key). x ++ drop (length (prefix n)) key) hp

rank-rest :
    (n : Node) (key : Key)
    → HasPrefix n key
    → rank key (prefixed (prefix n) n.slots) ≡ rank (drop (length (prefix n)) key) n.slots
rank-rest n key hp =
    ap (λ (x : Key). rank x (prefixed (prefix n) n.slots)) (key-split n key hp)
    ∙ (rank-prefixed (prefix n) (drop (length (prefix n)) key) n.slots).0

absent :
    (n : Node) (key : Key)
    → HasPrefix n key
    → find key (contents n) ≡ none
    → holds key (prefixed (prefix n) n.slots) ≡ false
absent n key hp hf =
    let rest : Key = drop (length (prefix n)) key in
    let e = key-split n key hp in
    ap (λ (x : Key). holds x (prefixed (prefix n) n.slots)) e
    ∙ (rank-prefixed (prefix n) rest n.slots).1
    ∙ find-none (prefix n) rest n.slots (ap (λ (x : Key). find x (contents n)) (sym e) ∙ hf)

long_enough :
    (f : Flags) (n : Node) (key : Key)
    → Compressed f n
    → HasPrefix n key
    → n.prefix_length ≤ length key
long_enough f n key h hp =
    let e : length key ≡ length (prefix n ++ drop (length (prefix n)) key) =
      ap length (key-split n key hp) in
    omega (arith, e, length-append (prefix n) (drop (length (prefix n)) key), length-prefix f n h)

-- `insert` into a node in order, whose prefix is the one that its fences share and whose slots,
-- fences, keys and payloads lie apart from each other, of a key of bytes that has the node's
-- prefix and that the node does not hold, with `canInsert` true for it and its payload, the key
-- shorter than 2^15 bytes and the payload than 2^15 - 10: it succeeds, returns the key's position,
-- and yields a node in order that holds the old entries and the new one, and in which all bytes
-- lie apart again.
pub insert_lem :
    (f : Flags) (n : Node) (key : Key) (payload : List ℕ)
    → NodeOk n
    → Compressed f n
    → SpaceOk n
    → IsBytes key
    → HasPrefix n key
    → length key < 2 ^ 15
    → length payload < 2 ^ 15 - 10
    → can_insert n (length key) (length payload) ≡ true
    → find key (contents n) ≡ none
    → (m : Node) × (insert f n key payload ≡ ok (rank key (prefixed (prefix n) n.slots), m))
      × NodeOk m
      × Compressed f m
      × (contents m ≡ put key payload (contents n))
      × SpaceOk m
unfolding insert
insert_lem f n key payload v h so kb hp lk lp can hf =
    let needed : ℕ = space_needed (length key) (length payload) n.prefix_length in
    let n1 : Node = (request_space_for f n needed).1 in
    let (k, v1) = request_space_for-Kept f n needed h v in
    let e = Kept-prefix n n1 k in
    let p : Key = prefix n in
    let ep =
      exact_position_lem f n key v kb
      ∙ ap (λ (b : Bool). if b then some (rank key (prefixed p n.slots)) else none)
          (absent n key hp hf) in
    let (lb, _) = lower_bound_lem f n1 key v1 kb in
    let (c, d, w) =
      place_slot-contents f n1 key payload (lower_bound f n1 key).0 v1 (Kept-Compressed f n n1 k h)
        kb (rw e hp) (rw (Kept-contents n n1 k) hf) (lb ∙ rank-rest n1 key (rw e hp)) in
    let run : insert f n key payload
        ≡ ok (rank key (prefixed p n.slots), place_slot n1 (lower_bound f n1 key).0 key payload) =
      rw (can, ep, insert)
        (ap (λ (i : ℕ). ok (i, place_slot n1 (lower_bound f n1 key).0 key payload))
          (lb ∙ Kept-rank n n1 key k)) in
    (
      place_slot n1 (lower_bound f n1 key).0 key payload,
      run,
      c,
      d,
      w ∙ ap (put key payload) (Kept-contents n n1 k),
      insert_space_lem f n _ _ key payload so h lk lp (long_enough f n key h hp) run,
    )

removed : (n : Node) (i : ℕ) → NodeOk n → NodeOk (remove_slot n i)
unfolding remove_slot make_hint
removed n i v = record {
  sorted = Sorted-erase i n.slots v.sorted;
  cached = AllOk-erase i n.slots v.cached;
  hinted = λ h j k. refl;
}

take-append : (p k : Key) → take (length p) (p ++ k) ≡ p
take-append [] k = refl
take-append (x ∷ p) k = ap (λ (y : Key). x ∷ y) (take-append p k)

-- A key that the node holds has the prefix.
holds-HasPrefix :
    (p key : Key) (ss : List Slot) → holds key (prefixed p ss) ≡ true → take (length p) key ≡ p
unfolding holds
holds-HasPrefix p key [] h = cc
holds-HasPrefix p key (s ∷ ss) h = elim (Ordering-cases (lex (p ++ s.key) key)) [
  | below e ↦ holds-HasPrefix p key ss (rw (e, holds) at h)
  | same e ↦ ap (take (length p)) (sym (lex-eq (p ++ s.key) key e)) ∙ take-append p s.key
  | above e ↦ absurd (ground (arith, e, h))
]

-- What the node holds, by its slots with their full keys.
find-prefixed :
    (p key : Key) (ss : List Slot)
    → holds key (prefixed p ss) ≡ false
    → find key (entries_of p ss) ≡ none
unfolding holds find
find-prefixed p key [] h = refl
find-prefixed p key (s ∷ ss) h = ground (arith, h, find-prefixed p key ss)

-- `remove` of a key of bytes from a node in order, whose prefix is the one that its fences share,
-- says whether the node holds the key, whether the key has that prefix or not, and leaves a node
-- in order with all other entries.
pub remove_lem :
    (f : Flags) (n : Node) (key : Key)
    → NodeOk n
    → Compressed f n
    → IsBytes key
    → ((remove f n key).0 ≡ elim (find key (contents n)) [ none ↦ false | some _ ↦ true ])
      × NodeOk (remove f n key).1
      × Compressed f (remove f n key).1
      × (contents (remove f n key).1
          ≡ elim (find key (contents n)) [ none ↦ contents n | some _ ↦ erase key (contents n) ])
unfolding remove remove_slot make_hint
remove_lem f n key v h kb =
    let p : Key = prefix n in
    let rest : Key = drop (length p) key in
    let ep = exact_position_lem f n key v kb in
    elim (Bool-cases (holds key (prefixed p n.slots))) [
      | inr q ↦ rw (ep, q, remove, find-prefixed p key n.slots q) (refl, v, h, refl)
      | inl hq ↦
          let hp = holds-HasPrefix p key n.slots hq in
          let e = key-split n key hp in
          let hr =
            ap (λ (x : Key). holds x (prefixed p n.slots)) e ∙ (rank-prefixed p rest n.slots).1 in
          let fh = ap (λ (x : Key). find x (contents n)) e ∙ find-holds p rest n.slots in
          let q : holds rest n.slots ≡ true = sym hr ∙ hq in
          let fq =
            fh
            ∙ ap
                (λ (b : Bool). elim b [
                  | true ↦ some (get_or n.slots (rank rest n.slots) blank).payload
                  | false ↦ none
                ])
                q in
          rw (ep, hq, remove, rank-rest n key hp, fq)
            (
              refl,
              removed n (rank rest n.slots) v,
              h,
              entries-erase p rest n.slots q ∙ ap (λ (x : Key). erase x (contents n)) (sym e),
            )
    ]
