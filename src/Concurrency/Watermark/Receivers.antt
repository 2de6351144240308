-- ===== src/Concurrency/Watermark/Receivers.antt =====
-- What a worker receives, and the ensure of garbageCollection.
use mathlib.Core.Path.{subst}
use epsilon_db.Base.{
  ℕ, zero, suc, ◌%◌, ◌≤◌, ◌≡◌, inl, inr, refl, ◌∙◌, ap, Bool, true, false, not, ◌&&◌, leb, some,
  List, [], ◌∷◌, ◌==◌, get_elem?, arith, ok, Bool-cases, ok-injective, ==-true, ==-false, >>=-eq-ok,
  some_injective,
}
use epsilon_db.Concurrency.Watermark.{
  Globals, WorkerState, see_all, Buffers, receive, its_lwm, its_lwms, refresh, sync_lwm, no_oldest,
  no_buffers, store_oldest,
}
use epsilon_db.Concurrency.Watermark.Refresh.{Ordered, lcb_mono, see_all_lem}

-- What a worker last received, with no writer at it.
pub record Received (w : WorkerState) : Type 0 where
  pub in_order : w.all_lwm_receiver ≤ w.oltp_lwm_receiver
  pub unlatched : w.local_lwm_latch % 2 ≡ 0

its_lwm-Received :
    (olap_mode : Bool) (g : Globals) (b : Buffers) (w : WorkerState)
    → g.global_oldest_all_start_ts ≤ g.global_oldest_oltp_start_ts
    → Ordered w.commit_tree.entries
    → Received w
    → Received (its_lwm olap_mode g b w).1
unfolding its_lwm receive
its_lwm-Received olap_mode g b w h o k =
    elim (Bool-cases (w.local_latest_lwm_for_tx == w.local_latest_write_tx)) [
      | inl e ↦ rw (e, its_lwm) k
      | inr e ↦
          elim (Bool-cases
            (olap_mode && not (g.global_oldest_all_start_ts == g.global_oldest_oltp_start_ts))) [
              | inl f ↦
                  rw (e, f, its_lwm)
                    (record {
                      in_order = lcb_mono w.commit_tree.entries _ _ o h;
                      unlatched = omega (arith, k.unlatched);
                    })
              | inr f ↦
                  rw (e, f, its_lwm)
                    (record { in_order = omega arith; unlatched = omega (arith, k.unlatched) })
            ]
    ]

its_lwms-Received :
    (olap_mode : Bool) (g : Globals) (b : Buffers) (ws : List WorkerState)
    → g.global_oldest_all_start_ts ≤ g.global_oldest_oltp_start_ts
    → ((i : ℕ) (w : WorkerState)
        → get_elem? ws i ≡ some w
        → Ordered w.commit_tree.entries × Received w)
    → (i : ℕ) (w : WorkerState) → get_elem? (its_lwms olap_mode g b ws).1 i ≡ some w
    → Received w
unfolding its_lwms
its_lwms-Received olap_mode g b [] h k i w f = cc
its_lwms-Received olap_mode g b (x ∷ xs) h k zero w f =
    let (o, c) = k 0 x refl in
    subst Received (some_injective f) (its_lwm-Received olap_mode g b x h o c)
its_lwms-Received olap_mode g b (x ∷ xs) h k (suc i) w f =
    its_lwms-Received olap_mode g (its_lwm olap_mode g b x).0 xs h (λ j y. k (suc j) y) i w f

leb-true : (a b : ℕ) → a ≤ b → leb a b ≡ true
leb-true a b h = ground arith

synced :
    (mode : Bool) (x : WorkerState)
    → Received x
    → sync_lwm mode x.local_lwm_latch x.local_lwm_latch x
      ≡ ok (record x { local_all_lwm = x.all_lwm_receiver; local_oltp_lwm = x.oltp_lwm_receiver })
unfolding sync_lwm
synced true x c =
    rw
      (
        ==-false (x.local_lwm_latch % 2) 1 (λ e. omega (arith, e, c.unlatched)),
        ==-true x.local_lwm_latch x.local_lwm_latch refl,
        leb-true x.all_lwm_receiver x.oltp_lwm_receiver c.in_order,
      )
      refl
synced false x c =
    rw
      (
        ==-false (x.local_lwm_latch % 2) 1 (λ e. omega (arith, e, c.unlatched)),
        ==-true x.local_lwm_latch x.local_lwm_latch refl,
      )
      refl

-- The two low watermarks that refreshGlobalState hands every worker are in order and its latch
-- is released, if both were so before for every worker and every worker's commit tree has its
-- pairs in the order of their commits, with start timestamps that never descend. A round of
-- garbageCollection that no refresh interrupts then takes them over: its ensure on their order
-- holds.
pub sync_lwm-refresh :
    (olap_mode : Bool) (start_ts : ℕ) (snapshots : List (List ℕ)) (g : Globals)
    (ws : List WorkerState) (r : Globals × List WorkerState)
    → refresh olap_mode start_ts snapshots g ws ≡ ok r
    → ((i : ℕ) (w : WorkerState)
        → get_elem? ws i ≡ some w
        → Ordered w.commit_tree.entries × Received w)
    → (i : ℕ) (w : WorkerState) → get_elem? r.1 i ≡ some w
    → Received w
      × (sync_lwm olap_mode w.local_lwm_latch w.local_lwm_latch w
          ≡ ok (record w {
            local_all_lwm = w.all_lwm_receiver;
            local_oltp_lwm = w.oltp_lwm_receiver;
          }))
unfolding refresh store_oldest
sync_lwm-refresh olap_mode start_ts snapshots g ws r e k i w f =
    let (old, eo, er) = >>=-eq-ok (see_all start_ts snapshots no_oldest) _ e in
    let order = (see_all_lem start_ts snapshots no_oldest old eo).2 (omega arith) in
    let q = ap (λ (x : Globals × List WorkerState). x.1) (ok-injective er) in
    let c =
      its_lwms-Received olap_mode (store_oldest g old) no_buffers ws order k i w
        (ap (λ x. get_elem? x i) q ∙ f) in
    (c, synced olap_mode w c)
