-- ===== src/Concurrency/Snapshots/Cleaning.antt =====
-- cleanIfNecessary of the owner keeps the invariant.
use mathlib.Core.Path.{subst}
use mathlib.Core.List.{Memᴰ}
use mathlib.Core.List.Memᴰ
use mathlib.Core.List.Memᴰ.{head, tail}
use epsilon_db.Base.{
  dec_lt, if◌then◌else◌, waiting, ℕ, zero, suc, ◌≤◌, ◌<◌, ◌≡◌, ◌≢◌, ◌⊎◌, inl, inr, refl, sym, ◌∙◌,
  ap, Bool, true, false, some, List, [], ◌∷◌, length, get_elem?, arith, ℕ_discrete, ok, fail,
  ok-injective,
}
use epsilon_db.Concurrency.CommitTree.{
  Commit, CommitTree, clean_if_necessary, load_unlatched, is_latched, clean_bits,
}
use epsilon_db.Concurrency.CommitTree.Answers.{Cleaned, clean_lem}
use epsilon_db.Concurrency.Snapshots.{
  Phase, idle, latched, drawn, published, running, System, set_phase, set_tree, InTransaction, Saw,
}
use epsilon_db.Concurrency.Snapshots.Invariant.{WordOk, WorkerOk, SystemOk, Same-WorkerOk}
use epsilon_db.Concurrency.Snapshots.Moves.{put_self, put_ne}

get_elem?-some {ℓ} :
    {A : Type ℓ} (xs : List A) (i : ℕ) → i < length xs → (x : A) × (get_elem? xs i ≡ some x)
get_elem?-some [] i h = absurd (omega (arith, h))
get_elem?-some (x ∷ xs) zero h = (x, refl)
get_elem?-some (x ∷ xs) (suc i) h = get_elem?-some xs i (omega arith)

-- Either every commit is before a timestamp, or one is not.
all_before :
    (xs : List Commit) (ts : ℕ)
    → ((c : Commit) → Memᴰ c xs → c.commit_ts < ts)
      ⊎ ((c : Commit) × Memᴰ c xs × (ts ≤ c.commit_ts))
all_before [] ts = inl (λ c m. absurd (Memᴰ.not-nil m))
all_before (x ∷ xs) ts = elim (dec_lt x.commit_ts ts) [
  | no ne ↦ inr (x, head refl, omega (arith, ne))
  | yes h ↦ elim (all_before xs ts) [
    | inr (c, m, l) ↦ inr (c, tail m, l)
    | inl f ↦ inl (λ c m. elim (Memᴰ.cases_cons m) [ inl e ↦ rw e h | inr k ↦ f c k ])
  ]
]

waited : (b : Bool) (x ts : ℕ) → (if b then fail waiting else ok x) ≡ ok ts → (b ≡ false) × (x ≡ ts)
waited true x ts h = cc
waited false x ts h = (refl, ok-injective h)

-- A word that ends the wait is not latched.
unlatched :
    (word ts : ℕ)
    → load_unlatched (word ∷ []) ≡ ok ts
    → (is_latched word ≡ false) × (clean_bits word ≡ ts)
unfolding load_unlatched
unlatched word ts h = waited (is_latched word) (clean_bits word) ts h

true_ne_false : true ≡ false → ⊥
true_ne_false h = cc

-- The worker has published its start timestamp.
seen :
    (p : Phase) (word ts : ℕ)
    → InTransaction p
    → WordOk p word ts
    → is_latched word ≡ false
    → clean_bits word ≡ ts
seen idle word ts k w e = absurd k
seen latched word ts k w e = absurd k
seen drawn word ts k w e = absurd (true_ne_false (sym w ∙ e))
seen published word ts k w e = w
seen running word ts k w e = w

-- The snapshot that the owner read is that of the worker, unless it drew after the last commit.
read_snapshot :
    (n owner : ℕ) (s : System) (snapshots : List (List ℕ)) (j : ℕ) (loads : List ℕ) (c : Commit)
    → SystemOk n owner s
    → Saw n owner s snapshots
    → get_elem? snapshots j ≡ some loads
    → j ≢ owner
    → InTransaction (s.phase j)
    → Memᴰ c s.history
    → s.start_ts j ≤ c.commit_ts
    → load_unlatched loads ≡ ok (s.start_ts j)
read_snapshot n owner s snapshots j loads c v saw f ne k m l =
    let r = saw.ready j loads f in
    let u = unlatched (s.snapshot j) r.0 (sym (saw.stable j loads c f ne k m l) ∙ r.1) in
    r.1
    ∙ ap (λ x. ok x)
        (sym u.1 ∙ seen (s.phase j) (s.snapshot j) (s.start_ts j) k (v.worker j).word u.0)

module _ (n owner : ℕ) (s : System) (v : SystemOk n owner s) (b : owner < n) where
  Cleaned-SystemOk :
      (snapshots : List (List ℕ))
      → s.phase owner ≡ published
      → Saw n owner s snapshots
      → (k : Cleaned owner snapshots s.tree)
      → SystemOk n owner (set_phase owner running (set_tree k.tree s))
  unfolding set_phase set_tree
  Cleaned-SystemOk snapshots p saw k =
      let in_tx : InTransaction (s.phase owner) = subst InTransaction (sym p) tt in
      let old = v.tree in
      record {
        clock_positive = v.clock_positive;
        clock_bound = v.clock_bound;
        worker = λ j. elim (ℕ_discrete owner j) [
          | no ne ↦
              Same-WorkerOk s _ j (omega arith)
                (record {
                  phase = put_ne s.phase owner j running ne;
                  snapshot = refl;
                  start_ts = refl;
                })
                (v.worker j)
          | yes e ↦ subst (WorkerOk (set_phase owner running (set_tree k.tree s))) e (record {
            drawn_before = (v.worker owner).drawn_before;
            word = rw (put_self s.phase owner running) (
                subst (λ x. WordOk x (s.snapshot owner) (s.start_ts owner)) p
                  (v.worker owner).word);
            positive = λ h. (v.worker owner).positive in_tx;
          })
        ];
        tree = record {
          capacity = k.same_capacity ∙ old.capacity;
          fits = omega (arith, k.room);
          ascending = k.ascending;
          within = λ c m. old.within c (k.within c m);
          history_ascending = old.history_ascending;
          past = old.past;
          started = old.started;
          positive = old.positive;
          starts = old.starts;
        };
        later = λ j ts h ne all.
            let l = get_elem?-some snapshots j (rw saw.every h) in
            k.later j ts l.0 l.1 ne (λ c m. all c (old.within c m)) ∙ v.later j ts h ne all;
        answers = λ j h ne. rw (put_ne s.phase owner j running (λ e. ne (sym e))) (λ t.
            let l = get_elem?-some snapshots j (rw saw.every h) in
            let ts = s.start_ts j in
            elim (all_before s.history ts) [
              | inl all ↦
                  k.later j ts l.0 l.1 ne (λ c m. all c (old.within c m)) ∙ v.later j ts h ne all
              | inr (c, m, q) ↦
                  k.snapshot j ts l.0 l.1 ne
                    (read_snapshot n owner s snapshots j l.0 c v saw l.1 ne t m q)
                    (λ z. omega (arith, z, (v.worker j).positive t))
                  ∙ v.answers j h ne t
            ]);
        owner_drew = λ h. v.owner_drew in_tx;
        owner_room = λ h. k.room;
      }

  pub clean-SystemOk :
      (snapshots : List (List ℕ)) (t : CommitTree)
      → s.phase owner ≡ published
      → Saw n owner s snapshots
      → clean_if_necessary owner snapshots s.tree ≡ ok t
      → SystemOk n owner (set_phase owner running (set_tree t s))
  clean-SystemOk snapshots t p saw e =
      let k =
        clean_lem owner n snapshots s.tree b saw.every v.tree.capacity v.tree.fits v.tree.ascending
          saw.ready in
      subst (λ x. SystemOk n owner (set_phase owner running (set_tree x s)))
        (ok-injective (sym k.runs ∙ e)) (Cleaned-SystemOk snapshots p saw k)
