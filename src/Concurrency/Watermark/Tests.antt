-- ===== src/Concurrency/Watermark/Tests.antt =====
-- Two workers whose snapshots are refreshed.
use mathlib.Core.Path.{subst}
use mathlib.Core.List.{Memᴰ}
use mathlib.Core.List.Memᴰ
use mathlib.Core.List.Memᴰ.{head, tail}
use epsilon_db.Base.{
  ◌⊎◌, ℕ, zero, suc, ◌≡◌, ◌≢◌, inl, inr, refl, sym, true, false, some, List, [], ◌∷◌, get_elem?,
  arith, ok, fail, waiting, some_injective, ap,
}
use epsilon_db.Concurrency.CommitTree.{
  Commit, CommitTree, lower_bound, before, in_front, lcb_unsafe, start_or_zero, lcb, clean_bits,
  is_latched,
}
use epsilon_db.Concurrency.Tests.{three, three-Ascending}
use epsilon_db.Concurrency.Visibility.{
  at_least_si, snapshot_isolation, ReadView, is_visible_for_me, is_visible_for_all, has_msb,
}
use epsilon_db.Concurrency.Visibility.Read.{ViewOk}
use epsilon_db.Concurrency.Watermark.{
  Globals, WorkerState, load_settled, is_rc, is_olap, see, see_all, receive, its_lwm, its_lwms,
  refresh, max, sync_lwm, store_oldest, store_lwms, refresh_global_state,
}
use epsilon_db.Concurrency.Watermark.Refresh.{Ordered}
use epsilon_db.Concurrency.Watermark.Safe.{visible_for_all-visible_for_me}
use epsilon_db.Concurrency.Watermark.Receivers.{Received, sync_lwm-refresh}

abbrev no_globals : Globals
no_globals = record {
  global_newest_olap_start_ts = 0;
  global_oldest_oltp_start_ts = 0;
  global_oldest_all_start_ts = 0;
  global_all_lwm = 0;
  global_oltp_lwm = 0;
}

abbrev worker : CommitTree → ℕ → WorkerState
worker t latest = record {
  commit_tree = t;
  local_latest_write_tx = latest;
  local_latest_lwm_for_tx = 0;
  local_lwm_latch = 0;
  all_lwm_receiver = 0;
  oltp_lwm_receiver = 0;
  local_all_lwm = 0;
  local_oltp_lwm = 0;
  cleaned_untill_oltp_lwm = 0;
}

abbrev tree_0 : CommitTree
tree_0 = record { capacity = 3; entries = three }

abbrev tree_1 : CommitTree
tree_1 = record { capacity = 3; entries = record { commit_ts = 262; start_ts = 261 } ∷ [] }

abbrev ws : List WorkerState
ws = worker tree_0 270 ∷ worker tree_1 262 ∷ []

abbrev snapshots : List (List ℕ)
snapshots = (275 ∷ []) ∷ (280 ∷ []) ∷ []

abbrev received : CommitTree → ℕ → ℕ → WorkerState
received t latest lwm = record (worker t latest) {
  local_latest_lwm_for_tx = latest;
  local_lwm_latch = 2;
  all_lwm_receiver = lwm;
  oltp_lwm_receiver = lwm;
}

abbrev refreshed : Globals × List WorkerState
refreshed = (
  record {
    global_newest_olap_start_ts = 0;
    global_oldest_oltp_start_ts = 275;
    global_oldest_all_start_ts = 275;
    global_all_lwm = 261;
    global_oltp_lwm = 18446744073709551615;
  },
  received tree_0 270 265 ∷ received tree_1 262 261 ∷ [],
)

refresh_runs : refresh true 280 snapshots no_globals ws ≡ ok refreshed
unfolding refresh see_all load_settled is_latched clean_bits see is_rc is_olap store_oldest
    store_lwms its_lwms its_lwm receive lcb lcb_unsafe lower_bound before in_front start_or_zero
refresh_runs = refl

refresh_global_state_runs :
    (refresh_global_state true true true 280 snapshots no_globals ws ≡ ok refreshed)
    × (refresh_global_state false true true 280 snapshots no_globals ws ≡ ok (no_globals, ws))
unfolding refresh_global_state
refresh_global_state_runs = (refresh_runs, refl)

max_runs : max 3 4 ≡ 4
unfolding max
max_runs = refl

none_skipped :
    (i : ℕ) (w : WorkerState)
    → get_elem? ws i ≡ some w
    → w.local_latest_lwm_for_tx ≢ w.local_latest_write_tx
none_skipped zero w f e =
    let q = some_injective f in
    omega (
      arith,
      e,
      ap (λ (x : WorkerState). x.local_latest_lwm_for_tx) q,
      ap (λ (x : WorkerState). x.local_latest_write_tx) q,
    )
none_skipped (suc zero) w f e =
    let q = some_injective f in
    omega (
      arith,
      e,
      ap (λ (x : WorkerState). x.local_latest_lwm_for_tx) q,
      ap (λ (x : WorkerState). x.local_latest_write_tx) q,
    )
none_skipped (suc (suc i)) w f e = cc

three-cases :
    (c : Commit)
    → Memᴰ c three
    → ((c.commit_ts ≡ 257) × (c.start_ts ≡ 256))
      ⊎ ((c.commit_ts ≡ 260) × (c.start_ts ≡ 258))
      ⊎ ((c.commit_ts ≡ 270) × (c.start_ts ≡ 265))
three-cases c (head e) = inl (ap (λ (x : Commit). x.commit_ts) e, ap (λ (x : Commit). x.start_ts) e)
three-cases c (tail (head e)) =
    inr (inl (ap (λ (x : Commit). x.commit_ts) e, ap (λ (x : Commit). x.start_ts) e))
three-cases c (tail (tail (head e))) =
    inr (inr (ap (λ (x : Commit). x.commit_ts) e, ap (λ (x : Commit). x.start_ts) e))
three-cases c (tail (tail (tail m))) = absurd (Memᴰ.not-nil m)

three-Ordered : Ordered three
three-Ordered = record {
  ascending = three-Ascending;
  starts = λ c d m n l. ground (arith, three-cases c m, three-cases d n, l);
}

one-Ordered : Ordered tree_1.entries
one-Ordered = record {
  ascending = (tt, tt);
  starts = λ c d m n l. absurd (
      omega (
        arith,
        l,
        ap (λ (x : Commit). x.commit_ts) (Memᴰ.eq_of_singleton m),
        ap (λ (x : Commit). x.commit_ts) (Memᴰ.eq_of_singleton n),
      ));
}

abbrev reader : ReadView
reader = record {
  worker_id = 1;
  isolation_level = snapshot_isolation;
  start_ts = 280;
  local_global_all_lwm_cache = 0;
  local_snapshot_cache = λ w. 0;
  local_snapshot_cache_ts = λ w. 0;
}

unfolded : (load_settled 280 (280 ∷ []) ≡ ok 280) × (is_rc 280 ≡ false) × (clean_bits 280 ≡ 280)
unfolding load_settled is_latched clean_bits is_rc
unfolded = (refl, refl, refl)

settings :
    (at_least_si snapshot_isolation ≡ true)
    × (lcb three 280 ≡ 265)
    × (is_visible_for_all 275 261 258 ≡ true)
unfolding at_least_si lcb lcb_unsafe lower_bound before in_front start_or_zero is_visible_for_all
    has_msb
settings = (refl, refl, refl)

reader-ViewOk : ViewOk reader 0 (lcb three 280)
reader-ViewOk = record {
  low_watermark = omega arith;
  cached = omega arith;
  current = λ e. absurd (omega (arith, e));
}

visible_for_all-visible_for_me_example :
    (after : ReadView) × (is_visible_for_me 300 (λ i. tree_0) reader 0 258 false ≡ ok (true, after))
visible_for_all-visible_for_me_example =
    visible_for_all-visible_for_me true 280 snapshots no_globals ws refreshed refresh_runs
      none_skipped 0 1 280 (worker tree_0 270) (280 ∷ []) refl refl unfolded.0 unfolded.1
      three-Ordered (λ i. tree_0) reader 300 258 false refl (sym unfolded.2) (omega arith)
      settings.0 reader-ViewOk (omega arith) (omega arith) settings.2

worker-Received : (t : CommitTree) (latest : ℕ) → Received (worker t latest)
worker-Received t latest = record { in_order = omega arith; unlatched = omega arith }

ws-Received :
    (i : ℕ) (w : WorkerState) → get_elem? ws i ≡ some w → Ordered w.commit_tree.entries × Received w
ws-Received zero w f =
    subst (λ (x : WorkerState). Ordered x.commit_tree.entries × Received x) (some_injective f)
      (three-Ordered, worker-Received tree_0 270)
ws-Received (suc zero) w f =
    subst (λ (x : WorkerState). Ordered x.commit_tree.entries × Received x) (some_injective f)
      (one-Ordered, worker-Received tree_1 262)
ws-Received (suc (suc i)) w f = cc

sync_lwm-refresh_example :
    Received (received tree_0 270 265)
    × (sync_lwm true 2 2 (received tree_0 270 265)
        ≡ ok (record (received tree_0 270 265) { local_all_lwm = 265; local_oltp_lwm = 265 }))
sync_lwm-refresh_example =
    sync_lwm-refresh true 280 snapshots no_globals ws refreshed refresh_runs ws-Received 0
      (received tree_0 270 265) refl

sync_lwm_waits : sync_lwm true 3 3 (received tree_0 270 265) ≡ fail waiting
unfolding sync_lwm
sync_lwm_waits = refl
