-- ===== src/Concurrency/Watermark/Refresh.antt =====
-- What refreshGlobalState stores is at most what every snapshot and every commit tree says.
use mathlib.Core.Path.{subst}
use mathlib.Core.List.{Memᴰ}
use epsilon_db.Base.{
  ℕ, zero, suc, ◌≤◌, ◌<◌, ◌≡◌, inl, inr, sym, ◌∙◌, ap, Bool, false, not, ◌&&◌, Option, none, some,
  List, [], ◌∷◌, ◌==◌, get_elem?, arith, ℕ_discrete, ok, Bool-cases, ok-injective, >>=-eq-ok,
  some_injective,
}
use epsilon_db.Concurrency.CommitTree.{Commit, lcb, start_or_zero, clean_bits}
use epsilon_db.Concurrency.CommitTree.Search.{
  Ascending, IsLatest, latest_before, latest_before-IsLatest, lcb_unsafe-latest_before,
}
use epsilon_db.Concurrency.CommitTree.Answers.{Ascending-Functional}
use epsilon_db.Concurrency.Watermark.{
  Globals, WorkerState, load_settled, Oldest, is_rc, is_olap, see, see_all, Buffers, its_lwm,
  its_lwms,
}

-- A commit tree's pairs in the order of their commits, whose start timestamps never descend; a
-- transaction below snapshot isolation may commit with the start timestamp of an earlier one.
pub record Ordered (xs : List Commit) : Type 0 where
  pub ascending : Ascending xs
  pub starts :
      (c d : Commit) → Memᴰ c xs → Memᴰ d xs → c.commit_ts < d.commit_ts → c.start_ts ≤ d.start_ts

-- A later timestamp has a later last commit before it.
pub lcb_mono :
    (xs : List Commit) (ts later : ℕ) → Ordered xs → ts ≤ later → lcb xs ts ≤ lcb xs later
unfolding lcb start_or_zero
lcb_mono xs ts later o h =
    rw (lcb_unsafe-latest_before xs ts o.ascending, lcb_unsafe-latest_before xs later o.ascending)
      (compare (latest_before xs ts) (latest_before xs later)
        (latest_before-IsLatest xs ts o.ascending) (latest_before-IsLatest xs later o.ascending))
  where
    compare :
        (p q : Option Commit)
        → IsLatest xs ts p
        → IsLatest xs later q
        → start_or_zero p ≤ start_or_zero q
    compare none q k l = omega arith
    compare (some c) none k l = absurd (omega (arith, k.1, h, l c k.0))
    compare (some c) (some d) k l = elim (ℕ_discrete c.commit_ts d.commit_ts) [
      | yes e ↦ omega (arith, Ascending-Functional xs o.ascending c d k.0 l.0 e)
      | no ne ↦
          omega (arith, o.starts c d k.0 l.0 (omega (arith, ne, l.2 c k.0 (omega (arith, k.1, h)))))
    ]

see_lem :
    (word : ℕ) (o : Oldest)
    → ((see word o).oldest_tx ≤ o.oldest_tx)
      × (is_rc word ≡ false → (see word o).oldest_tx ≤ clean_bits word)
      × (o.oldest_tx ≤ o.oldest_oltp → (see word o).oldest_tx ≤ (see word o).oldest_oltp)
unfolding see
see_lem word o = elim (Bool-cases (is_rc word)) [
  | inl e ↦ rw e (omega arith, (λ k. cc), λ h. h)
  | inr e ↦ elim (Bool-cases (is_olap word)) [
    | inl f ↦ rw (e, f) (omega arith, (λ k. omega arith), λ h. omega (arith, h))
    | inr f ↦ rw (e, f) (omega arith, (λ k. omega arith), λ h. omega (arith, h))
  ]
]

-- What the first loop ends with, against every worker's snapshot.
pub see_all_lem :
    (start_ts : ℕ) (snapshots : List (List ℕ)) (o r : Oldest)
    → see_all start_ts snapshots o ≡ ok r
    → (r.oldest_tx ≤ o.oldest_tx)
      × ((i word : ℕ) (loads : List ℕ)
          → get_elem? snapshots i ≡ some loads
          → load_settled start_ts loads ≡ ok word
          → is_rc word ≡ false
          → r.oldest_tx ≤ clean_bits word)
      × (o.oldest_tx ≤ o.oldest_oltp → r.oldest_tx ≤ r.oldest_oltp)
unfolding see_all
see_all_lem start_ts [] o r e =
    let q = ok-injective e in
    (omega (arith, ap (λ (x : Oldest). x.oldest_tx) q), (λ i word loads f. cc), λ h. rw⁻¹ q h)
see_all_lem start_ts (loads ∷ rest) o r e =
    let (word, l, k) =
      >>=-eq-ok (load_settled start_ts loads) (λ w. see_all start_ts rest (see w o)) e in
    let one = see_lem word o in
    let ih = see_all_lem start_ts rest (see word o) r k in
    (omega (arith, one.0, ih.0), at_worker word l one.1 ih.0 ih.1, λ h. ih.2 (one.2 h))
  where
    at_worker :
        (w : ℕ)
        → load_settled start_ts loads ≡ ok w
        → (is_rc w ≡ false → (see w o).oldest_tx ≤ clean_bits w)
        → r.oldest_tx ≤ (see w o).oldest_tx
        → ((i word : ℕ) (l : List ℕ)
            → get_elem? rest i ≡ some l
            → load_settled start_ts l ≡ ok word
            → is_rc word ≡ false
            → r.oldest_tx ≤ clean_bits word)
        → (i word : ℕ) (l : List ℕ) → get_elem? (loads ∷ rest) i ≡ some l
        → load_settled start_ts l ≡ ok word
        → is_rc word ≡ false
        → r.oldest_tx ≤ clean_bits word
    at_worker w lw first below h zero word l f g nrc =
        let same = ok-injective (sym lw ∙ ap (load_settled start_ts) (some_injective f) ∙ g) in
        subst (λ x. r.oldest_tx ≤ clean_bits x) same
          (omega (arith, first (subst (λ x. is_rc x ≡ false) (sym same) nrc), below))
    at_worker w lw first below h (suc i) word l f g nrc = h i word l f g nrc

-- What the second loop does for one worker.
its_lwm_lem :
    (olap_mode : Bool) (g : Globals) (b : Buffers) (w : WorkerState)
    → let r = its_lwm olap_mode g b w in
      (r.0.all_lwm ≤ b.all_lwm)
      × (r.0.skipped_a_worker ≡ false
          → (b.skipped_a_worker ≡ false)
            × (r.0.all_lwm ≤ lcb w.commit_tree.entries g.global_oldest_all_start_ts))
unfolding its_lwm
its_lwm_lem olap_mode g b w =
    elim (Bool-cases (w.local_latest_lwm_for_tx == w.local_latest_write_tx)) [
      | inl e ↦ rw (e, its_lwm) (omega arith, λ k. cc)
      | inr e ↦
          elim (Bool-cases
            (olap_mode && not (g.global_oldest_all_start_ts == g.global_oldest_oltp_start_ts))) [
              | inl f ↦ rw (e, f, its_lwm) (omega arith, λ k. (k, omega arith))
              | inr f ↦ rw (e, f, its_lwm) (omega arith, λ k. (k, omega arith))
            ]
    ]

-- With no worker skipped, the low watermark is at most what every tree says.
pub its_lwms_lem :
    (olap_mode : Bool) (g : Globals) (b : Buffers) (ws : List WorkerState)
    → let r = its_lwms olap_mode g b ws in
      (r.0.all_lwm ≤ b.all_lwm)
      × (r.0.skipped_a_worker ≡ false
          → (b.skipped_a_worker ≡ false)
            × ((i : ℕ) (w : WorkerState)
                → get_elem? ws i ≡ some w
                → r.0.all_lwm ≤ lcb w.commit_tree.entries g.global_oldest_all_start_ts))
unfolding its_lwms
its_lwms_lem olap_mode g b [] = (omega arith, λ k. (k, λ i w h. cc))
its_lwms_lem olap_mode g b (w ∷ ws) =
    let one = its_lwm_lem olap_mode g b w in
    let ih = its_lwms_lem olap_mode g (its_lwm olap_mode g b w).0 ws in
    (
      omega (arith, one.0, ih.0),
      λ k. let rest = ih.1 k in let mine = one.1 rest.0 in (mine.0, at_worker _ mine.1 ih.0 rest.1),
    )
  where
    at_worker :
        (r : ℕ) {a : ℕ}
        → a ≤ lcb w.commit_tree.entries g.global_oldest_all_start_ts
        → r ≤ a
        → ((i : ℕ) (x : WorkerState)
            → get_elem? ws i ≡ some x
            → r ≤ lcb x.commit_tree.entries g.global_oldest_all_start_ts)
        → (i : ℕ) (x : WorkerState) → get_elem? (w ∷ ws) i ≡ some x
        → r ≤ lcb x.commit_tree.entries g.global_oldest_all_start_ts
    at_worker r first below h zero x f =
        subst (λ (y : WorkerState). r ≤ lcb y.commit_tree.entries g.global_oldest_all_start_ts)
          (some_injective f) (omega (arith, first, below))
    at_worker r first below h (suc i) x f = h i x f
