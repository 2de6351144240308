-- ===== src/Partition/HashTable/Stacks.antt =====
-- The table is a stack of frames for each key.
use epsilon_db.Base.{
  ℕ, zero, suc, ◌≡◌, ◌≢◌, refl, true, false, none, some, List, [], ◌∷◌, ◌++◌, ◌==◌, if◌then◌else◌,
  take, drop, ok, fail, arith, ap, sym, ◌∙◌, ℕ_discrete, ==-true, ==-false, undefined_behaviour,
  Bool-cases, inl, inr, Option-cases,
}
use epsilon_db.Partition.HashTable.{
  IoFrame, new_frame, Entry, HashTable, position, set_bucket, insert, entry_index, lookup,
  remove_at, remove, has_key, has,
}

-- The frames of a key, the newest first.
abbrev pub frames_in : ℕ → List Entry → List IoFrame
frames_in key [] = []
frames_in key (e ∷ es) = if e.key == key then e.value ∷ frames_in key es else frames_in key es

abbrev pub frames : HashTable → ℕ → List IoFrame
frames t key = frames_in key (t.entries (position t key))

abbrev pub rest_of : List IoFrame → List IoFrame
rest_of [] = []
rest_of (f ∷ fs) = fs

set_bucket-frames :
    (t : HashTable) (key j : ℕ) (es : List Entry)
    → frames (set_bucket t (position t key) es) j
      ≡ (if position t j == position t key then frames_in j es else frames t j)
unfolding set_bucket position
set_bucket-frames t key j es = elim (Bool-cases (position t j == position t key)) [
  | inl e ↦ rw (e, position) refl
  | inr e ↦ rw (e, position) refl
]

-- `insert` puts a new frame on the stack of its key, and leaves those of other keys.
pub insert_frame_lem :
    (t : HashTable) (key j : ℕ)
    → frames (insert t key) j ≡ (if j == key then new_frame ∷ frames t key else frames t j)
unfolding insert
insert_frame_lem t key j =
    set_bucket-frames t key j (record { key = key; value = new_frame } ∷ t.entries (position t key))
    ∙ elim (ℕ_discrete j key) [
      | yes e ↦
          rw
            (
              ==-true (position t j) (position t key) (ap (position t) e),
              ==-true key j (sym e),
              ==-true j key e,
            )
            (ap (λ (x : ℕ). new_frame ∷ frames_in x (t.entries (position t key))) e)
      | no ne ↦ elim (ℕ_discrete (position t j) (position t key)) [
        | yes p ↦
            rw
              (
                ==-true (position t j) (position t key) p,
                ==-false key j (λ h. ne (sym h)),
                ==-false j key ne,
              )
              (ap (λ (b : ℕ). frames_in j (t.entries b)) (sym p))
        | no np ↦ rw (==-false (position t j) (position t key) np, ==-false j key ne) refl
      ]
    ]

-- The entries without one that `entry_index` found.
frames-removed :
    (key j : ℕ) (es : List Entry) (i : ℕ)
    → entry_index key es ≡ some i
    → frames_in j (take i es ++ drop (suc i) es)
      ≡ (if j == key then rest_of (frames_in key es) else frames_in j es)
unfolding entry_index
frames-removed key j [] i h = cc
frames-removed key j (e ∷ es) zero h = elim (ℕ_discrete e.key key) [
  | yes k ↦ ground (arith, k)
  | no n ↦ elim (Option-cases (entry_index key es)) [
    | inl q ↦ ground (arith, q)
    | inr (a, q) ↦ ground (arith, q)
  ]
]
frames-removed key j (e ∷ es) (suc i) h = elim (ℕ_discrete e.key key) [
  | yes k ↦ ground (arith, k)
  | no n ↦ elim (Option-cases (entry_index key es)) [
    | inl q ↦ ground (arith, q)
    | inr (a, q) ↦ ground (arith, q, frames-removed key j es i)
  ]
]

some_ne : (i : ℕ) → some i ≢ none
some_ne i h = cc

true_ne_false : true ≢ false
true_ne_false h = cc

-- A key has frames exactly where its entry is found.
frames-found :
    (key : ℕ) (es : List Entry)
    → (entry_index key es ≡ none → frames_in key es ≡ [])
      × (has_key key es ≡ elim (entry_index key es) [ none ↦ false | some _ ↦ true ])
unfolding entry_index has_key
frames-found key [] = ((λ h. refl), refl)
frames-found key (e ∷ es) =
    let (a, b) = frames-found key es in
    elim (ℕ_discrete e.key key) [
      | yes k ↦ rw (==-true e.key key k) ((λ h. cc), refl)
      | no n ↦ rw (==-false e.key key n) (elim (Option-cases (entry_index key es)) [
        | inl q ↦ ((λ h. a q), b ∙ rw q refl)
        | inr (i, q) ↦ ((λ h. absurd (some_ne (suc i) (sym (rw q refl) ∙ h))), b ∙ rw q refl)
      ])
    ]

removed_frames :
    (t : HashTable) (key j i : ℕ)
    → entry_index key (t.entries (position t key)) ≡ some i
    → frames (remove_at t (position t key, i)) j
      ≡ (if j == key then rest_of (frames t key) else frames t j)
unfolding remove_at
removed_frames t key j i q =
    let es : List Entry = t.entries (position t key) in
    let r = frames-removed key j es i q in
    set_bucket-frames t key j (take i es ++ drop (suc i) es)
    ∙ elim (ℕ_discrete (position t j) (position t key)) [
      | yes p ↦ rw (==-true (position t j) (position t key) p) (
          r
          ∙ ap
              (λ (b : ℕ).
                if j == key then rest_of (frames_in key es) else frames_in j (t.entries b))
              (sym p))
      | no np ↦
          rw
            (
              ==-false (position t j) (position t key) np,
              ==-false j key (λ e. np (ap (position t) e)),
            )
            refl
    ]

-- `remove` takes the newest frame of a key off its stack, leaves those of other keys, and finds
-- one exactly where `has` says that the key is there.
pub remove_frame_lem :
    (t : HashTable) (key j : ℕ)
    → (has t key ≡ true
        → (u : HashTable) × (remove t key ≡ ok u)
          × (frames u j ≡ (if j == key then rest_of (frames t key) else frames t j)))
      × (has t key ≡ false → (remove t key ≡ fail undefined_behaviour) × (frames t key ≡ []))
unfolding remove lookup has
remove_frame_lem t key j =
    let (a, b) = frames-found key (t.entries (position t key)) in
    elim (Option-cases (entry_index key (t.entries (position t key)))) [
      | inl q ↦
          ((λ h. absurd (true_ne_false (sym h ∙ b ∙ rw q refl))), (λ h. (rw (q, remove) refl, a q)))
      | inr (i, q) ↦ (
        (λ h. (remove_at t (position t key, i), rw (q, remove) refl, removed_frames t key j i q)),
        (λ h. absurd (true_ne_false (sym (b ∙ rw q refl) ∙ h))),
      )
    ]
