-- ===== src/Concurrency/Snapshots/Committing.antt =====
-- The commit of the owner keeps the invariant.
use mathlib.Core.Path.{subst}
use mathlib.Core.List.{Memᴰ}
use mathlib.Core.List.Memᴰ
use mathlib.Core.List.Memᴰ.{head}
use epsilon_db.Base.{
  ℕ, ◌+◌, ◌%◌, ◌^◌, ◌≤◌, ◌<◌, ◌≡◌, ◌⊎◌, inl, inr, refl, sym, ◌∙◌, ap, List, [], ◌∷◌, ◌++◌, length,
  arith, ltb-true, ℕ_discrete, ok, ok-injective, length-append,
}
use epsilon_db.Concurrency.CommitTree.{Commit, CommitTree, commit}
use epsilon_db.Concurrency.CommitTree.Append.{Ascending-append, lcb-old, lcb-new}
use epsilon_db.Concurrency.Snapshots.{idle, running, System, committed, InTransaction}
use epsilon_db.Concurrency.Snapshots.Invariant.{WorkerOk, SystemOk, Same-WorkerOk}
use epsilon_db.Concurrency.Snapshots.Moves.{put_self, put_ne}

append-cases : (xs : List Commit) (d c : Commit) → Memᴰ c (xs ++ d ∷ []) → Memᴰ c xs ⊎ (c ≡ d)
append-cases xs d c m = elim (Memᴰ.append_cases xs m) [
  | inl k ↦ inl k
  | inr k ↦ inr (Memᴰ.eq_of_singleton k)
]

-- A new commit is the newest of the history, and started after every earlier commit.
starts-append :
    (xs : List Commit) (d : Commit)
    → ((c : Commit) → Memᴰ c xs → c.commit_ts < d.start_ts)
    → d.start_ts < d.commit_ts
    → ((c : Commit) → Memᴰ c xs → c.start_ts < c.commit_ts)
    → ((c e : Commit) → Memᴰ c xs → Memᴰ e xs → c.commit_ts < e.commit_ts → c.start_ts < e.start_ts)
    → (c e : Commit) → Memᴰ c (xs ++ d ∷ [])
    → Memᴰ e (xs ++ d ∷ [])
    → c.commit_ts < e.commit_ts
    → c.start_ts < e.start_ts
starts-append xs d new own old s c e m n l = elim (append-cases xs d c m) [
  | inl k ↦ elim (append-cases xs d e n) [
    | inl k' ↦ s c e k k' l
    | inr q ↦ rw q (omega (arith, old c k, new c k))
  ]
  | inr q ↦ elim (append-cases xs d e n) [
    | inl k' ↦ absurd (omega (arith, l, ap (λ (x : Commit). x.commit_ts) q, new e k', own))
    | inr q' ↦
        absurd (
          omega (arith, l, ap (λ (x : Commit). x.commit_ts) q, ap (λ (x : Commit). x.commit_ts) q'))
  ]
]

module _ (n owner : ℕ) (s : System) (v : SystemOk n owner s) where
  abbrev pub mine : Commit
  mine = record { commit_ts = s.global_clock; start_ts = s.start_ts owner }

  -- Room for one more was made before the transaction ran.
  pub commit-room :
      s.phase owner ≡ running
      → s.global_clock + 1 < 2 ^ 61
      → commit s.global_clock s.tree (s.start_ts owner)
        ≡ ok (record s.tree { entries = s.tree.entries ++ mine ∷ [] }, s.global_clock + 1)
  unfolding commit
  commit-room p b =
      let clock : (s.global_clock + 1) % 2 ^ 64 ≡ s.global_clock + 1 = omega arith in
      rw (ltb-true (length s.tree.entries) s.tree.capacity (v.owner_room p), clock) refl

  appended : System
  appended =
      committed owner (record s.tree { entries = s.tree.entries ++ mine ∷ [] }, s.global_clock + 1)
        s

  appended-SystemOk :
      s.phase owner ≡ running → s.global_clock + 1 < 2 ^ 61 → SystemOk n owner appended
  unfolding appended committed
  appended-SystemOk p b =
      let old = v.tree in
      let in_tx : InTransaction (s.phase owner) = subst InTransaction (sym p) tt in
      let xs = s.tree.entries in
      let new_of : (c : Commit) → Memᴰ c xs → c.commit_ts < s.global_clock =
        λ c m. old.past c (old.within c m) in
      record {
        clock_positive = omega arith;
        clock_bound = b;
        worker = λ j. elim (ℕ_discrete owner j) [
          | no ne ↦
              Same-WorkerOk s _ j (omega arith)
                (record {
                  phase = put_ne s.phase owner j idle ne;
                  snapshot = refl;
                  start_ts = refl;
                })
                (v.worker j)
          | yes e ↦ subst (WorkerOk appended) e (record {
            drawn_before = omega (arith, (v.worker owner).drawn_before);
            word = rw (put_self s.phase owner idle) tt;
            positive = rw (put_self s.phase owner idle) (λ k. absurd k);
          })
        ];
        tree = record {
          capacity = old.capacity;
          fits = omega (arith, v.owner_room p, length-append xs (mine ∷ []));
          ascending = Ascending-append xs mine old.ascending new_of;
          within = λ c m. elim (append-cases xs mine c m) [
            | inl k ↦ Memᴰ.append_left (mine ∷ []) (old.within c k)
            | inr e ↦ Memᴰ.append_right s.history (head e)
          ];
          history_ascending = Ascending-append s.history mine old.history_ascending old.past;
          past = λ c m. elim (append-cases s.history mine c m) [
            | inl k ↦ omega (arith, old.past c k)
            | inr e ↦ rw e (omega arith)
          ];
          started = λ c m. elim (append-cases s.history mine c m) [
            | inl k ↦ old.started c k
            | inr e ↦ rw e (v.worker owner).drawn_before
          ];
          positive = λ c m. elim (append-cases s.history mine c m) [
            | inl k ↦ old.positive c k
            | inr e ↦ rw e ((v.worker owner).positive in_tx)
          ];
          starts =
              starts-append s.history mine (v.owner_drew in_tx) (v.worker owner).drawn_before
                old.started old.starts;
        };
        later = λ j ts h ne all.
            let after = all mine (Memᴰ.append_right s.history (head refl)) in
            lcb-new xs mine ts old.ascending new_of after
            ∙ sym (lcb-new s.history mine ts old.history_ascending old.past after);
        answers = λ j h ne. rw (put_ne s.phase owner j idle (λ e. ne (sym e))) (λ t.
            let ts = s.start_ts j in
            let before : ts ≤ s.global_clock = omega (arith, (v.worker j).drawn_before) in
            lcb-old xs mine ts old.ascending new_of before
            ∙ v.answers j h ne t
            ∙ sym (lcb-old s.history mine ts old.history_ascending old.past before));
        owner_drew = rw (put_self s.phase owner idle) (λ h. absurd h);
        owner_room = rw (put_self s.phase owner idle) (λ h. cc);
      }

  pub commit-SystemOk :
      (r : CommitTree × ℕ)
      → s.phase owner ≡ running
      → s.global_clock + 1 < 2 ^ 61
      → commit s.global_clock s.tree (s.start_ts owner) ≡ ok r
      → SystemOk n owner (committed owner r s)
  unfolding appended
  commit-SystemOk r p b e =
      subst (λ x. SystemOk n owner (committed owner x s)) (ok-injective (sym (commit-room p b) ∙ e))
        (appended-SystemOk p b)
