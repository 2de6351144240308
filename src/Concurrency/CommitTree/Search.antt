-- ===== src/Concurrency/CommitTree/Search.antt =====
-- The search of the commit tree: what LCBUnsafe finds.
use mathlib.Core.List.{Memᴰ}
use mathlib.Core.List.Memᴰ
use mathlib.Core.List.Memᴰ.{head, tail}
use epsilon_db.Base.{
  ℕ, zero, suc, ◌+◌, ◌-◌, ◌/◌, ◌≤◌, ◌<◌, ◌≡◌, inl, inr, refl, sym, ◌∙◌, Bool, true, false, Option,
  none, some, List, [], ◌∷◌, ◌==◌, ltb, length, get_elem?, arith, Bool-cases, ==-eq, ltb→lt, lt→ltb,
  Option-cases,
}
use epsilon_db.Concurrency.CommitTree.{
  Commit, lower_bound, before, in_front, lcb_unsafe, lcb, start_or_zero,
}

-- The entries are in the order of their commits.
abbrev pub Above : Commit → List Commit → Type 0
Above c [] = Unit {0}
Above c (d ∷ ds) = (c.commit_ts < d.commit_ts) × Above c ds

abbrev pub Ascending : List Commit → Type 0
Ascending [] = Unit {0}
Ascending (c ∷ cs) = Above c cs × Ascending cs

-- The same search by looking at every entry, from the last one on.
unfoldable pub latest_before : List Commit → ℕ → Option Commit
latest_before [] ts = none
latest_before (c ∷ cs) ts = elim (latest_before cs ts) [
  | some d ↦ some d
  | none ↦ elim (ltb c.commit_ts ts) [ true ↦ some c | false ↦ none ]
]

true_ne_false : true ≡ false → ⊥
true_ne_false h = cc

-- Where the test changes from true to false, in `len` elements from `first` on.
lower_bound_lem :
    (fuel : ℕ) (p : ℕ → Bool) (first len n : ℕ)
    → len ≤ fuel
    → first + len ≤ n
    → ((i j : ℕ) → i ≤ j → j < n → p j ≡ true → p i ≡ true)
    → ((i : ℕ) → i < first → p i ≡ true)
    → ((i : ℕ) → first + len ≤ i → i < n → p i ≡ false)
    → let r = lower_bound fuel p first len in
      (r ≤ n) × ((i : ℕ) → i < r → p i ≡ true) × ((i : ℕ) → r ≤ i → i < n → p i ≡ false)
unfolding lower_bound
lower_bound_lem zero p first len n h k m lo hi = (omega arith, lo, λ i a b. hi i (omega arith) b)
lower_bound_lem (suc fuel) p first len n h k m lo hi = elim (Bool-cases (len == 0)) [
  | inl e ↦
      let z = ==-eq len 0 e in rw (e, lower_bound) (omega arith, lo, λ i a b. hi i (omega arith) b)
  | inr e ↦
      let ne : 0 < len = ground arith in
      elim (Bool-cases (p (first + len / 2))) [
        | inl q ↦
            rw (e, q, lower_bound)
              (lower_bound_lem fuel p (first + len / 2 + 1) (len - len / 2 - 1) n (omega arith)
                (omega arith) m (λ i a. m i (first + len / 2) (omega arith) (omega arith) q)
                (λ i a b. hi i (omega arith) b))
        | inr q ↦
            rw (e, q, lower_bound)
              (lower_bound_lem fuel p first (len / 2) n (omega arith) (omega arith) m lo (λ i a b.
                elim (Bool-cases (p i)) [
                  | inr f ↦ f
                  | inl t ↦ absurd (true_ne_false (sym (m (first + len / 2) i a b t) ∙ q))
                ]))
      ]
]

before-Above :
    (c : Commit) (cs : List Commit) (ts i : ℕ)
    → Above c cs
    → before cs ts i ≡ true
    → ltb c.commit_ts ts ≡ true
unfolding before
before-Above c [] ts i a h = cc
before-Above c (d ∷ ds) ts zero a h =
    lt→ltb c.commit_ts ts (omega (arith, a.0, ltb→lt d.commit_ts ts h))
before-Above c (d ∷ ds) ts (suc i) a h = before-Above c ds ts i a.1 h

before_mono :
    (cs : List Commit) (ts i j : ℕ)
    → Ascending cs
    → i ≤ j
    → before cs ts j ≡ true
    → before cs ts i ≡ true
unfolding before
before_mono [] ts i j a h k = cc
before_mono (c ∷ cs) ts zero zero a h k = k
before_mono (c ∷ cs) ts zero (suc j) a h k = before-Above c cs ts j a.0 k
before_mono (c ∷ cs) ts (suc i) zero a h k = absurd (omega (arith, h))
before_mono (c ∷ cs) ts (suc i) (suc j) a h k = before_mono cs ts i j a.1 (omega arith) k

before-none : (cs : List Commit) (ts i : ℕ) → get_elem? cs i ≡ none → before cs ts i ≡ false
unfolding before
before-none cs ts i e = rw (e, before) refl

in_front-lem :
    (cs : List Commit) (ts r : ℕ)
    → r ≤ length cs
    → ((i : ℕ) → i < r → before cs ts i ≡ true)
    → ((i : ℕ) → r ≤ i → i < length cs → before cs ts i ≡ false)
    → in_front cs r ≡ latest_before cs ts
unfolding in_front latest_before before
in_front-lem [] ts zero h lo hi = refl
in_front-lem [] ts (suc r) h lo hi = absurd (omega (arith, h))
in_front-lem (c ∷ cs) ts zero h lo hi =
    let ih =
      in_front-lem cs ts zero (omega arith) (λ i a. absurd (omega (arith, a)))
        (λ i a b. hi (suc i) (omega arith) (omega arith)) in
    rw (← ih, hi 0 (omega arith) (omega arith)) refl
in_front-lem (c ∷ cs) ts (suc zero) h lo hi =
    let ih =
      in_front-lem cs ts zero (omega arith) (λ i a. absurd (omega (arith, a)))
        (λ i a b. hi (suc i) (omega arith) (omega arith)) in
    rw (← ih, lo 0 (omega arith)) refl
in_front-lem (c ∷ cs) ts (suc (suc r)) h lo hi =
    let ih =
      in_front-lem cs ts (suc r) (omega arith) (λ i a. lo (suc i) (omega arith))
        (λ i a b. hi (suc i) (omega arith) (omega arith)) in
    elim (Option-cases (get_elem? cs r)) [
      | inl e ↦ absurd (true_ne_false (sym (lo (suc r) (omega arith)) ∙ before-none cs ts r e))
      | inr (d, e) ↦ rw (← ih, e) refl
    ]

-- On pairs in the order of their commits, LCBUnsafe with its binary search finds the last one
-- with a commit timestamp before the given one, as looking at every pair from the last one on does.
pub lcb_unsafe-latest_before :
    (cs : List Commit) (ts : ℕ) → Ascending cs → lcb_unsafe cs ts ≡ latest_before cs ts
unfolding lcb_unsafe
lcb_unsafe-latest_before cs ts a =
    let found =
      lower_bound_lem (length cs) (before cs ts) 0 (length cs) (length cs) (omega arith)
        (omega arith) (λ i j h k. before_mono cs ts i j a h) (λ i h. absurd (omega (arith, h)))
        (λ i h k. absurd (omega (arith, h, k))) in
    in_front-lem cs ts _ found.0 found.1 found.2

-- What the last commit before a timestamp is.
abbrev pub IsLatest : List Commit → ℕ → Option Commit → Type 0
IsLatest cs ts none = (c : Commit) → Memᴰ c cs → ts ≤ c.commit_ts
IsLatest cs ts (some c) =
    Memᴰ c cs
    × (c.commit_ts < ts)
    × ((d : Commit) → Memᴰ d cs → d.commit_ts < ts → d.commit_ts ≤ c.commit_ts)

pub Above-lt :
    (c : Commit) (cs : List Commit)
    → Above c cs
    → (d : Commit) → Memᴰ d cs
    → c.commit_ts < d.commit_ts
Above-lt c [] a d m = absurd (Memᴰ.not-nil m)
Above-lt c (e ∷ es) a d (head q) = rw q a.0
Above-lt c (e ∷ es) a d (tail m) = Above-lt c es a.1 d m

extend-IsLatest :
    (c : Commit) (cs : List Commit) (ts : ℕ) (o : Option Commit)
    → Above c cs
    → IsLatest cs ts o
    → IsLatest (c ∷ cs) ts (elim o [
      | some d ↦ some d
      | none ↦ elim (ltb c.commit_ts ts) [ true ↦ some c | false ↦ none ]
    ])
extend-IsLatest c cs ts (some d) a h = (
  tail h.0,
  h.1,
  λ e m l. elim (Memᴰ.cases_cons m) [
    | inl q ↦ rw q (omega (arith, Above-lt c cs a d h.0))
    | inr n ↦ h.2 e n l
  ],
)
extend-IsLatest c cs ts none a h = elim (Bool-cases (ltb c.commit_ts ts)) [
  | inl e ↦ rw e (
    head refl,
    ltb→lt c.commit_ts ts e,
    λ d m l. elim (Memᴰ.cases_cons m) [
      | inl q ↦ rw q (omega arith)
      | inr n ↦ absurd (omega (arith, h d n, l))
    ],
  )
  | inr e ↦ rw e (λ d m. elim (Memᴰ.cases_cons m) [ inl q ↦ rw q (ground arith) | inr n ↦ h d n ])
]

pub latest_before-IsLatest :
    (cs : List Commit) (ts : ℕ) → Ascending cs → IsLatest cs ts (latest_before cs ts)
unfolding latest_before
latest_before-IsLatest [] ts a = λ c m. absurd (Memᴰ.not-nil m)
latest_before-IsLatest (c ∷ cs) ts a =
    extend-IsLatest c cs ts (latest_before cs ts) a.0 (latest_before-IsLatest cs ts a.1)

-- When a part of the entries has the last one before a timestamp, it gives the same answer.
pub lcb-within :
    (xs ys : List Commit) (ts : ℕ)
    → Ascending xs
    → Ascending ys
    → ((c : Commit) → Memᴰ c ys → Memᴰ c xs)
    → ((c d : Commit) → Memᴰ c xs → Memᴰ d xs → c.commit_ts ≡ d.commit_ts → c.start_ts ≡ d.start_ts)
    → ((c : Commit) → latest_before xs ts ≡ some c → Memᴰ c ys)
    → lcb ys ts ≡ lcb xs ts
unfolding lcb start_or_zero
lcb-within xs ys ts a b w u k =
    rw (lcb_unsafe-latest_before xs ts a, lcb_unsafe-latest_before ys ts b)
      (compare (latest_before xs ts) (latest_before ys ts) (latest_before-IsLatest xs ts a)
        (latest_before-IsLatest ys ts b) k)
  where
    compare :
        (o p : Option Commit)
        → IsLatest xs ts o
        → IsLatest ys ts p
        → ((c : Commit) → o ≡ some c → Memᴰ c ys)
        → start_or_zero p ≡ start_or_zero o
    compare none none h h' k' = refl
    compare none (some d) h h' k' = absurd (omega (arith, h d (w d h'.0), h'.1))
    compare (some c) none h h' k' = absurd (omega (arith, h' c (k' c refl), h.1))
    compare (some c) (some d) h h' k' =
        u d c (w d h'.0) h.0 (omega (arith, h.2 d (w d h'.0) h'.1, h'.2 c (k' c refl) h.1))
