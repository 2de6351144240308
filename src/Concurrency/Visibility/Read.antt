-- ===== src/Concurrency/Visibility/Read.antt =====
-- isVisibleForMe against the history of the other worker's commits, and getCommitTimestamp.
use mathlib.Core.Path.{subst}
use mathlib.Core.List.{Memᴰ}
use epsilon_db.Base.{
  ℕ, ◌^◌, ◌≤◌, ◌<◌, ◌≡◌, ◌≢◌, inl, inr, ◌↔◌, refl, sym, ◌∙◌, ap, Bool, true, false, not, ◌&&◌, ◌||◌,
  leb, if◌then◌else◌, List, ◌==◌, ltb, arith, ltb-false, ltb-true, dec_lt, ok, fail, Bool-cases,
  ltb→lt, ==-eq, ==-true, ==-false, leb→le, unreachable,
}
use epsilon_db.Concurrency.CommitTree.{Commit, CommitTree, lcb}
use epsilon_db.Concurrency.Snapshots.Invariant.{TreeOk}
use epsilon_db.Concurrency.Snapshots.Safety.{committed_before}
use epsilon_db.Concurrency.Visibility.{
  has_msb, mask_msb, IsolationLevel, is_read_uncommitted, is_read_committed, at_least_si,
  read_uncommitted, read_committed, snapshot_isolation, serializable, ReadView, set_cache,
  read_committed_visible, snapshot_visible, is_visible_for_me,
}

-- What the reader has cached about another worker, against the start timestamp of its last commit
-- before the reader's snapshot.
pub record ViewOk (v : ReadView) (other latest : ℕ) : Type 0 where
  pub low_watermark : v.local_global_all_lwm_cache ≤ latest
  pub cached : v.local_snapshot_cache other ≤ latest
  pub current : v.local_snapshot_cache_ts other ≡ v.start_ts → v.local_snapshot_cache other ≡ latest

mask_msb_small : (ts : ℕ) → ts < 2 ^ 63 → (has_msb ts ≡ false) × (mask_msb ts ≡ ts)
unfolding has_msb mask_msb
mask_msb_small ts h = (ground arith, omega arith)

leb-true : (a b : ℕ) → a ≤ b → leb a b ≡ true
leb-true a b h = ground arith

leb-false : (a b : ℕ) → b < a → leb a b ≡ false
leb-false a b h = ground arith

set_cache-ViewOk :
    (v : ReadView) (other latest : ℕ)
    → ViewOk v other latest
    → ViewOk (set_cache v other latest v.start_ts) other latest
unfolding set_cache
set_cache-ViewOk v other latest k = record {
  low_watermark = k.low_watermark;
  cached = rw (==-true other other refl) (omega arith);
  current = λ e. rw (==-true other other refl) refl;
}

-- However much of it comes from the caches, the answer is the comparison with the last commit.
pub snapshot_visible_lem :
    (trees : ℕ → CommitTree) (v : ReadView) (other tx_ts : ℕ)
    → 0 < tx_ts
    → tx_ts < 2 ^ 63
    → let latest = lcb (trees other).entries v.start_ts in
      ViewOk v other latest
      → ((snapshot_visible trees v other tx_ts).0 ≡ leb tx_ts latest)
        × ViewOk (snapshot_visible trees v other tx_ts).1 other latest
unfolding snapshot_visible
snapshot_visible_lem trees v other tx_ts p b k =
    let latest = lcb (trees other).entries v.start_ts in
    let small = mask_msb_small tx_ts b in
    rw (snapshot_visible, small.0, small.1)
      (elim (Bool-cases (ltb tx_ts v.local_global_all_lwm_cache)) [
        | inl e ↦ rw e (
          sym (
              leb-true tx_ts latest
                (omega (arith, k.low_watermark, ltb→lt tx_ts v.local_global_all_lwm_cache e))),
          k,
        )
        | inr e ↦ elim (Bool-cases (v.local_snapshot_cache_ts other == v.start_ts)) [
          | inl q ↦
              rw (e, q)
                (
                  ap (leb tx_ts) (k.current (==-eq (v.local_snapshot_cache_ts other) v.start_ts q)),
                  k,
                )
          | inr q ↦ elim (Bool-cases (leb tx_ts (v.local_snapshot_cache other))) [
            | inl c ↦
                rw (e, q, c)
                  (
                    sym (
                        leb-true tx_ts latest
                          (omega (arith, k.cached, leb→le tx_ts (v.local_snapshot_cache other) c))),
                    k,
                  )
            | inr c ↦ elim (Bool-cases (latest == 0)) [
              | inl z ↦
                  rw (e, q, c, z)
                    (sym (leb-false tx_ts latest (omega (arith, p, ==-eq latest 0 z))), k)
              | inr z ↦ rw (e, q, c, z) (refl, set_cache-ViewOk v other latest k)
            ]
          ]
        ]
      ])

-- At snapshot isolation the levels do not matter, nor does what the read is for.
pub visible_for_me-snapshot :
    (global_clock : ℕ) (trees : ℕ → CommitTree) (v : ReadView) (other tx_ts : ℕ) (to_write : Bool)
    → at_least_si v.isolation_level ≡ true
    → v.worker_id ≢ other
    → is_visible_for_me global_clock trees v other tx_ts to_write
      ≡ ok (snapshot_visible trees v other tx_ts)
unfolding is_visible_for_me at_least_si is_read_uncommitted is_read_committed
visible_for_me-snapshot clock trees v other tx_ts to_write s ne =
    level v.isolation_level to_write (true, v) s (==-false v.worker_id other ne)
  where
    level :
        (l : IsolationLevel) (w : Bool) (a : Bool × ReadView) {m : Bool} {b : Bool × ReadView}
        → at_least_si l ≡ true
        → m ≡ false
        → (if not w && is_read_uncommitted l
            then ok a
            else (if m
                then ok a
                else (if is_read_committed l || is_read_uncommitted l
                    then ok (read_committed_visible clock trees v other tx_ts)
                    else (if at_least_si l then ok b else fail unreachable))))
          ≡ ok b
    level read_uncommitted w a e m = cc
    level read_committed w a e m = cc
    level snapshot_isolation true a e m = rw m refl
    level snapshot_isolation false a e m = rw m refl
    level serializable true a e m = rw m refl
    level serializable false a e m = rw m refl

-- A transaction of at least snapshot isolation that reads another worker's tuple. All of that
-- worker's transactions commit at snapshot isolation too: each drew a start timestamp of its own,
-- above 0, before its commit timestamp, the history has them in the order of both timestamps, all
-- below 2 ^ 63, and the worker's tree has some of them, in that order, within its capacity of one
-- more than the workers. Where the tree answers for the reader's start timestamp as its whole
-- history does, and what the reader has cached is right, isVisibleForMe never fails, keeps the
-- caches right, and says of the start timestamp of a committed transaction whether it committed
-- before the reader started, and of a start timestamp below 2 ^ 63 after those of all that did
-- that it is not visible.
pub visible_for_me_lem :
    (n clock global_clock : ℕ) (trees : ℕ → CommitTree) (history : List Commit) (v : ReadView)
    (other : ℕ) (to_write : Bool)
    → at_least_si v.isolation_level ≡ true
    → v.worker_id ≢ other
    → TreeOk n (trees other) history clock
    → clock < 2 ^ 63
    → lcb (trees other).entries v.start_ts ≡ lcb history v.start_ts
    → ViewOk v other (lcb history v.start_ts)
    → ((c : Commit)
        → Memᴰ c history
        → (after : ReadView) × (is_visible_for_me global_clock trees v other c.start_ts to_write
            ≡ ok (ltb c.commit_ts v.start_ts, after))
          × ViewOk after other (lcb history v.start_ts))
      × ((tx_ts : ℕ)
          → tx_ts < 2 ^ 63
          → lcb history v.start_ts < tx_ts
          → (after : ReadView) × (is_visible_for_me global_clock trees v other tx_ts to_write
              ≡ ok (false, after))
            × ViewOk after other (lcb history v.start_ts))
visible_for_me_lem n clock global_clock trees history v other to_write s ne t b e k =
    let k' = subst (ViewOk v other) (sym e) k in
    let shown =
      λ (tx : ℕ) (p : 0 < tx) (l : tx < 2 ^ 63). snapshot_visible_lem trees v other tx p l k' in
    (
      (λ c m.
          let r = shown c.start_ts (t.positive c m) (omega (arith, t.started c m, t.past c m, b)) in
          (
            (snapshot_visible trees v other c.start_ts).1,
            visible_for_me-snapshot global_clock trees v other c.start_ts to_write s ne
                ∙ ap (λ x. ok (x, (snapshot_visible trees v other c.start_ts).1))
                    (r.0
                      ∙ ap (leb c.start_ts) e
                      ∙ same c.start_ts (lcb history v.start_ts) c.commit_ts v.start_ts
                          (committed_before n (trees other) history clock v.start_ts c t m)),
            subst (ViewOk (snapshot_visible trees v other c.start_ts).1 other) e r.1,
          )),
      λ tx l h.
          let r = shown tx (omega (arith, h)) l in
          (
            (snapshot_visible trees v other tx).1,
            visible_for_me-snapshot global_clock trees v other tx to_write s ne
                ∙ ap (λ x. ok (x, (snapshot_visible trees v other tx).1))
                    (r.0 ∙ ap (leb tx) e ∙ leb-false tx (lcb history v.start_ts) h),
            subst (ViewOk (snapshot_visible trees v other tx).1 other) e r.1,
          ),
    )
  where
    same : (a l c x : ℕ) → (c < x) ↔ (a ≤ l) → leb a l ≡ ltb c x
    same a l c x h = elim (dec_lt c x) [
      | yes q ↦ leb-true a l (h.0 q) ∙ sym (ltb-true c x q)
      | no q ↦ elim (dec_lt l a) [
        | yes r ↦ leb-false a l r ∙ sym (ltb-false c x q)
        | no r ↦ absurd (q (h.1 (omega (arith, r))))
      ]
    ]
