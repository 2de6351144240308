-- ===== src/Concurrency/Snapshots/Moves.antt =====
-- Every step of a worker that leaves the owner's tree alone keeps the invariant.
use mathlib.Core.Path.{subst}
use mathlib.Core.Logic.{ite}
use epsilon_db.Base.{
  ℕ, ◌+◌, ◌%◌, ◌^◌, ◌≤◌, ◌<◌, ◌≡◌, ◌≢◌, inl, inr, refl, sym, Bool, arith, ℕ_discrete,
}
use epsilon_db.Concurrency.Snapshots.{
  idle, latched, drawn, published, running, System, put, latched_word, snapshot_word, latch, draw,
  publish, set_phase, InTransaction,
}
use epsilon_db.Concurrency.Snapshots.Invariant.{
  latched_word_lem, snapshot_word_lem, WordOk, SystemOk, Moves-SystemOk,
}

pub put_self {ℓ} : {A : Type ℓ} (f : ℕ → A) (i : ℕ) (a : A) → put f i a i ≡ a
put_self f i a = elim (ℕ_discrete i i) as (λ d. ite d a (f i) ≡ a) [
  | yes e ↦ refl
  | no ne ↦ absurd (ne refl)
]

pub put_ne {ℓ} : {A : Type ℓ} (f : ℕ → A) (i j : ℕ) (a : A) → i ≢ j → put f i a j ≡ f j
put_ne f i j a h = elim (ℕ_discrete i j) as (λ d. ite d a (f j) ≡ f j) [
  | yes e ↦ absurd (h e)
  | no ne ↦ refl
]

module _ (n owner : ℕ) (s : System) (v : SystemOk n owner s) (i : ℕ) where
  start_bound : s.start_ts i < 2 ^ 61
  start_bound = omega (arith, (v.worker i).drawn_before, v.clock_bound)

  pub latch-SystemOk : s.phase i ≡ idle → SystemOk n owner (latch i s)
  unfolding latch
  latch-SystemOk p = Moves-SystemOk n owner s (latch i s) i v (record {
    tree = refl;
    history = refl;
    clock = omega arith;
    clock_bound = v.clock_bound;
    others = λ j ne. record {
      phase = put_ne s.phase i j latched ne;
      snapshot = put_ne s.snapshot i j _ ne;
      start_ts = refl;
    };
    worker = record {
      drawn_before = (v.worker i).drawn_before;
      word =
          rw (put_self s.phase i latched, put_self s.snapshot i (latched_word (s.start_ts i)))
            (latched_word_lem (s.start_ts i) start_bound);
      positive = rw (put_self s.phase i latched) (λ k. absurd k);
    };
    transaction = rw (put_self s.phase i latched) (λ k. absurd k);
    room = rw (put_self s.phase i latched) (λ e k. cc);
  })

  pub draw-SystemOk :
      s.phase i ≡ latched → s.global_clock + 1 < 2 ^ 61 → SystemOk n owner (draw i s)
  unfolding draw
  draw-SystemOk p b =
      let clock : (s.global_clock + 1) % 2 ^ 64 ≡ s.global_clock + 1 = omega arith in
      Moves-SystemOk n owner s (draw i s) i v (record {
        tree = refl;
        history = refl;
        clock = omega (arith, clock);
        clock_bound = omega (arith, clock);
        others = λ j ne. record {
          phase = put_ne s.phase i j drawn ne;
          snapshot = refl;
          start_ts = put_ne s.start_ts i j s.global_clock ne;
        };
        worker = record {
          drawn_before = rw (put_self s.start_ts i s.global_clock) (omega (arith, clock));
          word =
              rw (put_self s.phase i drawn)
                (subst (λ x. WordOk x (s.snapshot i) (s.start_ts i)) p (v.worker i).word);
          positive = rw (put_self s.start_ts i s.global_clock) (λ k. v.clock_positive);
        };
        transaction = λ k. inr (put_self s.start_ts i s.global_clock);
        room = rw (put_self s.phase i drawn) (λ e k. cc);
      })

  pub publish-SystemOk :
      (is_olap : Bool) → s.phase i ≡ drawn → SystemOk n owner (publish is_olap i s)
  unfolding publish
  publish-SystemOk is_olap p =
      let word = snapshot_word is_olap (s.start_ts i) in
      Moves-SystemOk n owner s (publish is_olap i s) i v (record {
        tree = refl;
        history = refl;
        clock = omega arith;
        clock_bound = v.clock_bound;
        others = λ j ne. record {
          phase = put_ne s.phase i j published ne;
          snapshot = put_ne s.snapshot i j word ne;
          start_ts = refl;
        };
        worker = record {
          drawn_before = (v.worker i).drawn_before;
          word =
              rw (put_self s.phase i published, put_self s.snapshot i word)
                (snapshot_word_lem is_olap (s.start_ts i) start_bound);
          positive = λ k. (v.worker i).positive (subst InTransaction (sym p) tt);
        };
        transaction = λ k. inl (subst InTransaction (sym p) tt, refl);
        room = rw (put_self s.phase i published) (λ e k. cc);
      })

  pub run-SystemOk : s.phase i ≡ published → i ≢ owner → SystemOk n owner (set_phase i running s)
  unfolding set_phase
  run-SystemOk p d = Moves-SystemOk n owner s (set_phase i running s) i v (record {
    tree = refl;
    history = refl;
    clock = omega arith;
    clock_bound = v.clock_bound;
    others =
        λ j ne. record { phase = put_ne s.phase i j running ne; snapshot = refl; start_ts = refl };
    worker = record {
      drawn_before = (v.worker i).drawn_before;
      word =
          rw (put_self s.phase i running)
            (subst (λ x. WordOk x (s.snapshot i) (s.start_ts i)) p (v.worker i).word);
      positive = λ k. (v.worker i).positive (subst InTransaction (sym p) tt);
    };
    transaction = λ k. inl (subst InTransaction (sym p) tt, refl);
    room = λ e k. absurd (d e);
  })

  pub idle-SystemOk :
      (clock : ℕ) (snapshot : ℕ → ℕ)
      → s.global_clock ≤ clock
      → clock < 2 ^ 61
      → ((j : ℕ) → i ≢ j → snapshot j ≡ s.snapshot j)
      → SystemOk n owner
          (record s { global_clock = clock; snapshot = snapshot; phase = put s.phase i idle })
  idle-SystemOk clock snapshot h b same = Moves-SystemOk n owner s _ i v (record {
    tree = refl;
    history = refl;
    clock = h;
    clock_bound = b;
    others = λ j ne. record {
      phase = put_ne s.phase i j idle ne;
      snapshot = same j ne;
      start_ts = refl;
    };
    worker = record {
      drawn_before = omega (arith, (v.worker i).drawn_before, h);
      word = rw (put_self s.phase i idle) tt;
      positive = rw (put_self s.phase i idle) (λ k. absurd k);
    };
    transaction = rw (put_self s.phase i idle) (λ k. absurd k);
    room = rw (put_self s.phase i idle) (λ e k. cc);
  })

  -- A new word of an idle worker.
  pub switch-SystemOk :
      (word : ℕ)
      → s.phase i ≡ idle
      → SystemOk n owner (record s { snapshot = put s.snapshot i word })
  switch-SystemOk word p = Moves-SystemOk n owner s _ i v (record {
    tree = refl;
    history = refl;
    clock = omega arith;
    clock_bound = v.clock_bound;
    others =
        λ j ne. record { phase = refl; snapshot = put_ne s.snapshot i j word ne; start_ts = refl };
    worker = record {
      drawn_before = (v.worker i).drawn_before;
      word = rw p tt;
      positive = (v.worker i).positive;
    };
    transaction = λ k. inl (k, refl);
    room = λ e k. k;
  })
