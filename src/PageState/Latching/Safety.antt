-- ===== src/PageState/Latching/Safety.antt =====
-- At most one thread is past a successful compare-exchange of `lock` or `tryDiscard`.
use epsilon_db.Base.{ℕ, ◌+◌, ◌^◌, ◌≤◌, ◌<◌, ◌≡◌, ◌≢◌, ◌⊎◌, true, arith, ap}
use epsilon_db.PageState.{is_locked}
use epsilon_db.PageState.Fields.{bit_and-latch_bit}
use epsilon_db.PageState.Latching.{
  Pc, idle, loaded, try_loaded, holding, update, System, Step, pick, Reach, start, later,
}
use epsilon_db.PageState.Latching.Kinds.{Free, Kind, quiet, take, give, Move-Kind}

-- The word fits; a thread that holds the latch sees the latched word that it took, unchanged; there
-- is one such thread, and there is one when the word is latched.
pub record Inv (raw : ℕ) (pc : ℕ → Pc) : Type 0 where
  pub fits : raw < 2 ^ 64
  pub kept : (i v : ℕ) → pc i ≡ holding v → raw ≡ 2 ^ 63 + v
  pub unique : (i j v u : ℕ) → pc i ≡ holding v → pc j ≡ holding u → i ≡ j
  pub held : 2 ^ 63 ≤ raw → (i : ℕ) × (v : ℕ) × (pc i ≡ holding v)

Free-ne : (p : Pc) → Free p → (v : ℕ) → p ≡ holding v → ⊥
Free-ne (holding u) f v e = f
Free-ne idle f v e = cc
Free-ne (loaded u) f v e = cc
Free-ne (try_loaded u) f v e = cc

module _ {raw : ℕ} {pc : ℕ → Pc} (inv : Inv raw pc) (i w : ℕ) {q : Pc} where
  open inv use {kept, unique, held}

  -- A holder after the step is the thread that moved, or was one before.
  holder_after :
      (j v : ℕ)
      → update pc i q j ≡ holding v
      → ((i ≡ j) × (q ≡ holding v)) ⊎ ((i ≢ j) × (pc j ≡ holding v))
  holder_after j v e = ground arith

  Kind-Inv : Kind raw (pc i) w q → Inv w (update pc i q)
  Kind-Inv (quiet e f g) = record {
    fits = omega (arith, inv.fits);
    kept = λ j v h. ground (arith, holder_after j v h, Free-ne q g v, kept j v);
    unique = λ j k v u h l. ground (
      arith,
      holder_after j v h,
      holder_after k u l,
      Free-ne q g v,
      Free-ne q g u,
      unique j k v u,
    );
    held = λ h.
        let (j, v, l) = held (omega arith) in
        (j, v, ground (arith, Free-ne (pc i) f v, ap pc {x = i} {y = j}));
  }
  Kind-Inv (take lt e eq f) = record {
    fits = omega arith;
    kept = λ j v h. ground (arith, holder_after j v h, kept j v);
    unique =
        λ j k v u h l. ground (arith, holder_after j v h, holder_after k u l, kept j v, kept k u);
    held = λ h. (i, raw, ground arith);
  }
  Kind-Inv (give v e lt g) = record {
    fits = omega arith;
    kept = λ j u h. ground (arith, holder_after j u h, Free-ne q g u, unique i j v u e);
    unique = λ j k u t h l. ground (arith, holder_after j u h, Free-ne q g u, unique i j v u e);
    held = λ h. absurd (omega arith);
  }

Step-Inv : {s t : System} → Step s t → Inv s.raw s.pc → Inv t.raw t.pc
Step-Inv (pick i mv) inv = Kind-Inv inv i _ (Move-Kind inv.fits mv)

pub Reach-Inv : {raw : ℕ} {s : System} → raw < 2 ^ 63 → Reach raw s → Inv s.raw s.pc
Reach-Inv h start = record {
  fits = omega arith;
  kept = λ i v e. cc;
  unique = λ i j v u e f. cc;
  held = λ k. absurd (omega arith);
}
Reach-Inv h (later r st) = Step-Inv st (Reach-Inv h r)

-- In every interleaving of `lock`, `tryDiscard` and the releases, from an unlatched word, at
-- most one thread holds the latch, the word is latched exactly while one does, and until the
-- holder lets go the word is the one that it read, with the latch bit set.
pub latch_exclusive :
    {raw : ℕ} {s : System}
    → raw < 2 ^ 63
    → Reach raw s
    → ((i j v u : ℕ) → s.pc i ≡ holding v → s.pc j ≡ holding u → i ≡ j)
      × ((i v : ℕ) → s.pc i ≡ holding v → (is_locked s.raw ≡ true) × (s.raw ≡ 2 ^ 63 + v))
      × (is_locked s.raw ≡ true → (i : ℕ) × (v : ℕ) × (s.pc i ≡ holding v))
unfolding is_locked
latch_exclusive {s = s} h r =
    let inv = Reach-Inv h r in
    (
      inv.unique,
      (λ i v e. ground (arith, inv.kept i v e, inv.fits, bit_and-latch_bit s.raw)),
      (λ e. inv.held (ground (arith, inv.fits, bit_and-latch_bit s.raw))),
    )
