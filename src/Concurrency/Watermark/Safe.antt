-- ===== src/Concurrency/Watermark/Safe.antt =====
-- isVisibleForAll against isVisibleForMe of every worker, and the ensure of garbageCollection.
use mathlib.Core.Path.{subst}
use epsilon_db.Base.{
  ℕ, suc, ◌^◌, ◌≤◌, ◌<◌, ◌≡◌, ◌≢◌, inl, inr, refl, sym, ◌∙◌, ap, Bool, true, false, not, ◌&&◌, leb,
  some, List, [], ◌∷◌, ◌==◌, ltb, get_elem?, arith, ltb-true, ok, Bool-cases, ok-injective, ltb→lt,
  ==-false, >>=-eq-ok,
}
use epsilon_db.Concurrency.CommitTree.{CommitTree, lcb, clean_bits}
use epsilon_db.Concurrency.Watermark.{
  Globals, WorkerState, load_settled, is_rc, see_all, Buffers, its_lwm, its_lwms, refresh,
  no_oldest, no_buffers, store_oldest, store_lwms,
}
use epsilon_db.Concurrency.Visibility.{
  has_msb, mask_msb, at_least_si, ReadView, snapshot_visible, is_visible_for_me, is_visible_for_all,
}
use epsilon_db.Concurrency.Visibility.Read.{ViewOk, snapshot_visible_lem, visible_for_me-snapshot}
use epsilon_db.Concurrency.Watermark.Refresh.{Ordered, lcb_mono, see_all_lem, its_lwms_lem}

its_lwm-none_skipped :
    (olap_mode : Bool) (g : Globals) (b : Buffers) (w : WorkerState)
    → w.local_latest_lwm_for_tx ≢ w.local_latest_write_tx
    → (its_lwm olap_mode g b w).0.skipped_a_worker ≡ b.skipped_a_worker
unfolding its_lwm
its_lwm-none_skipped olap_mode g b w ne =
    elim (Bool-cases
      (olap_mode && not (g.global_oldest_all_start_ts == g.global_oldest_oltp_start_ts))) [
        | inl f ↦
            rw (==-false w.local_latest_lwm_for_tx w.local_latest_write_tx ne, f, its_lwm) refl
        | inr f ↦
            rw (==-false w.local_latest_lwm_for_tx w.local_latest_write_tx ne, f, its_lwm) refl
      ]

its_lwms-none_skipped :
    (olap_mode : Bool) (g : Globals) (b : Buffers) (ws : List WorkerState)
    → b.skipped_a_worker ≡ false
    → ((i : ℕ) (w : WorkerState)
        → get_elem? ws i ≡ some w
        → w.local_latest_lwm_for_tx ≢ w.local_latest_write_tx)
    → (its_lwms olap_mode g b ws).0.skipped_a_worker ≡ false
unfolding its_lwms
its_lwms-none_skipped olap_mode g b [] s h = s
its_lwms-none_skipped olap_mode g b (w ∷ ws) s h =
    its_lwms-none_skipped olap_mode g (its_lwm olap_mode g b w).0 ws
      (its_lwm-none_skipped olap_mode g b w (h 0 w refl) ∙ s) (λ i x f. h (suc i) x f)

store_lwms_lem :
    (g : Globals) (b : Buffers)
    → b.skipped_a_worker ≡ false
    → ((store_lwms g b).global_oldest_all_start_ts ≡ g.global_oldest_all_start_ts)
      × ((store_lwms g b).global_all_lwm ≡ b.all_lwm)
unfolding store_lwms
store_lwms_lem g b h = rw (h, store_lwms) (refl, refl)

-- What a refresh that skips no worker leaves: a low watermark below every tree's last commit
-- before a snapshot, for every snapshot that is not of read committed.
refresh_lem :
    (olap_mode : Bool) (start_ts : ℕ) (snapshots : List (List ℕ)) (g : Globals)
    (ws : List WorkerState) (r : Globals × List WorkerState)
    → refresh olap_mode start_ts snapshots g ws ≡ ok r
    → ((i : ℕ) (w : WorkerState)
        → get_elem? ws i ≡ some w
        → w.local_latest_lwm_for_tx ≢ w.local_latest_write_tx)
    → (i j word : ℕ) (w : WorkerState) (loads : List ℕ) → get_elem? ws i ≡ some w
    → get_elem? snapshots j ≡ some loads
    → load_settled start_ts loads ≡ ok word
    → is_rc word ≡ false
    → Ordered w.commit_tree.entries
    → (r.0.global_oldest_all_start_ts ≤ clean_bits word)
      × (r.0.global_all_lwm ≤ lcb w.commit_tree.entries (clean_bits word))
unfolding refresh store_oldest store_lwms
refresh_lem olap_mode start_ts snapshots g ws r e none_skipped i j word w loads fw fl l nrc o =
    let (old, eo, er) = >>=-eq-ok (see_all start_ts snapshots no_oldest) _ e in
    let skipped =
      its_lwms-none_skipped olap_mode (store_oldest g old) no_buffers ws refl none_skipped in
    let before = (see_all_lem start_ts snapshots no_oldest old eo).1 j word loads fl l nrc in
    let lwm = ((its_lwms_lem olap_mode (store_oldest g old) no_buffers ws).1 skipped).1 i w fw in
    let q = ap (λ (x : Globals × List WorkerState). x.0) (ok-injective er) in
    let stored =
      store_lwms_lem (store_oldest g old) (its_lwms olap_mode (store_oldest g old) no_buffers ws).0
        skipped in
    (
      subst (λ (x : Globals). x.global_oldest_all_start_ts ≤ clean_bits word) q
          (rw stored.0 before),
      subst (λ (x : Globals). x.global_all_lwm ≤ lcb w.commit_tree.entries (clean_bits word)) q
          (rw stored.1 (
            omega (
              arith,
              lwm,
              lcb_mono w.commit_tree.entries old.oldest_tx (clean_bits word) o before,
            ))),
    )

small_of_no_msb : (ts : ℕ) → ts < 2 ^ 64 → has_msb ts ≡ false → ts < 2 ^ 63
unfolding has_msb
small_of_no_msb ts h e = ground arith

leb-true : (a b : ℕ) → a ≤ b → leb a b ≡ true
leb-true a b h = ground arith

by_kind :
    (oldest lwm ts : ℕ)
    → (has_msb ts ≡ true → is_visible_for_all oldest lwm ts ≡ ltb (mask_msb ts) oldest)
      × (has_msb ts ≡ false → is_visible_for_all oldest lwm ts ≡ ltb ts lwm)
unfolding is_visible_for_all
by_kind oldest lwm ts =
    ((λ e. rw (e, is_visible_for_all) refl), λ e. rw (e, is_visible_for_all) refl)

visible_below :
    (trees : ℕ → CommitTree) (v : ReadView) (i ts oldest lwm : ℕ)
    → oldest ≤ v.start_ts
    → lwm ≤ lcb (trees i).entries v.start_ts
    → ViewOk v i (lcb (trees i).entries v.start_ts)
    → 0 < ts
    → ts < 2 ^ 64
    → is_visible_for_all oldest lwm ts ≡ true
    → (snapshot_visible trees v i ts).0 ≡ true
unfolding snapshot_visible
visible_below trees v i ts oldest lwm ho hl k p b vis = elim (Bool-cases (has_msb ts)) [
  | inl e ↦
      let before = ltb→lt (mask_msb ts) oldest (sym ((by_kind oldest lwm ts).0 e) ∙ vis) in
      rw (e, snapshot_visible) (ltb-true (mask_msb ts) v.start_ts (omega (arith, before, ho)))
  | inr e ↦
      let before = ltb→lt ts lwm (sym ((by_kind oldest lwm ts).1 e) ∙ vis) in
      (snapshot_visible_lem trees v i ts p (small_of_no_msb ts b e) k).0
      ∙ leb-true ts (lcb (trees i).entries v.start_ts) (omega (arith, before, hl))
]

-- After a refresh that skips no worker, a timestamp of 64 bits, not 0, that isVisibleForAll takes
-- for visible is visible to the transaction of every worker whose snapshot was read and is not of
-- read committed: isVisibleForMe returns true for it there, for a tuple of any worker but the
-- reader's own. The reader is of at least snapshot isolation, has the start timestamp that was
-- read, and what it has cached is right; the tree of the tuple's worker is as it was at the
-- refresh, its pairs in the order of their commits with start timestamps that never descend.
pub visible_for_all-visible_for_me :
    (olap_mode : Bool) (start_ts : ℕ) (snapshots : List (List ℕ)) (g : Globals)
    (ws : List WorkerState) (r : Globals × List WorkerState)
    → refresh olap_mode start_ts snapshots g ws ≡ ok r
    → ((i : ℕ) (w : WorkerState)
        → get_elem? ws i ≡ some w
        → w.local_latest_lwm_for_tx ≢ w.local_latest_write_tx)
    → (i j word : ℕ) (w : WorkerState) (loads : List ℕ) → get_elem? ws i ≡ some w
    → get_elem? snapshots j ≡ some loads
    → load_settled start_ts loads ≡ ok word
    → is_rc word ≡ false
    → Ordered w.commit_tree.entries
    → (trees : ℕ → CommitTree) (v : ReadView) (global_clock ts : ℕ) (to_write : Bool)
    → trees i ≡ w.commit_tree
    → v.start_ts ≡ clean_bits word
    → v.worker_id ≢ i
    → at_least_si v.isolation_level ≡ true
    → ViewOk v i (lcb (trees i).entries v.start_ts)
    → 0 < ts
    → ts < 2 ^ 64
    → is_visible_for_all r.0.global_oldest_all_start_ts r.0.global_all_lwm ts ≡ true
    → (after : ReadView) × (is_visible_for_me global_clock trees v i ts to_write ≡ ok (true, after))
visible_for_all-visible_for_me olap_mode start_ts snapshots g ws r e none_skipped i j word w loads
      fw fl l nrc o trees v global_clock ts to_write et es ne si k p b vis =
    let (oldest, lwm) =
      refresh_lem olap_mode start_ts snapshots g ws r e none_skipped i j word w loads fw fl l nrc
        o in
    (
      (snapshot_visible trees v i ts).1,
      visible_for_me-snapshot global_clock trees v i ts to_write si ne
          ∙ ap (λ b. ok (b, (snapshot_visible trees v i ts).1))
              (visible_below trees v i ts r.0.global_oldest_all_start_ts r.0.global_all_lwm
                (rw es oldest) (rw (et, es) lwm) k p b vis),
    )
