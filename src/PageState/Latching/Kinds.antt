-- ===== src/PageState/Latching/Kinds.antt =====
-- What a step does to the latch: nothing, take it, or give it back.
use epsilon_db.Base.{ℕ, ◌+◌, ◌^◌, ◌<◌, ◌≡◌, refl, true, ok, some, arith, ap}
use Prim.Native.Nat.{bit_or}
use epsilon_db.PageState.{lock_round, may_discard, compare_exchange, latch_bit, unlock}
use epsilon_db.PageState.Fields.{bit_and-latch_bit, bit_or-latch_bit, bit_and-latch_mask}
use epsilon_db.PageState.Publish.{unlock_clean-lt, unlock_bf-lt}
use epsilon_db.PageState.Discard.{discarded_word-lt}
use epsilon_db.PageState.Latching.{
  Pc, holding, Move, load, retry, latch, try_load, refuse, lose, try_latch, release, release_clean,
  release_bf, release_discarded,
}

abbrev pub Free : Pc → Type 0
Free (holding _) = ⊥
Free _ = Unit {0}

pub data Kind (raw : ℕ) (p : Pc) (w : ℕ) (q : Pc) : Type 0 where
  quiet : w ≡ raw → Free p → Free q → Kind raw p w q
  take : raw < 2 ^ 63 → w ≡ 2 ^ 63 + raw → q ≡ holding raw → Free p → Kind raw p w q
  give : (v : ℕ) → p ≡ holding v → w < 2 ^ 63 → Free q → Kind raw p w q

lock_round-eq-some :
    (v raw r w : ℕ)
    → raw < 2 ^ 64
    → lock_round v raw ≡ some (r, w)
    → (raw < 2 ^ 63) × (w ≡ 2 ^ 63 + raw) × (r ≡ raw)
unfolding lock_round compare_exchange
lock_round-eq-some v raw r w h e =
    ground
      (arith, bit_and-latch_bit raw, bit_or-latch_bit raw, bit_or-latch_bit v, bit_and-latch_bit v)

try_latch-eq-some :
    (v raw w : ℕ)
    → raw < 2 ^ 64
    → may_discard v ≡ true
    → compare_exchange raw v (bit_or v latch_bit) ≡ some w
    → (raw < 2 ^ 63) × (w ≡ 2 ^ 63 + raw) × (v ≡ raw)
unfolding may_discard compare_exchange
try_latch-eq-some v raw w h m e =
    ground
      (arith, bit_and-latch_bit raw, bit_or-latch_bit raw, bit_or-latch_bit v, bit_and-latch_bit v)

unlock-lt : (raw w : ℕ) → unlock raw ≡ ok w → w < 2 ^ 63
unfolding unlock
unlock-lt raw w h = ground (arith, bit_and-latch_mask raw)

pub Move-Kind : {raw w : ℕ} {p q : Pc} → raw < 2 ^ 64 → Move raw p w q → Kind raw p w q
Move-Kind h load = quiet refl tt tt
Move-Kind h (retry e) = quiet refl tt tt
Move-Kind {raw} h (latch {v} {r} {w} e) =
    let (a, b, c) = lock_round-eq-some v raw r w h e in take a b (ap holding c) tt
Move-Kind h try_load = quiet refl tt tt
Move-Kind h (refuse e) = quiet refl tt tt
Move-Kind h (lose e) = quiet refl tt tt
Move-Kind {raw} h (try_latch {v} {w} m e) =
    let (a, b, c) = try_latch-eq-some v raw w h m e in take a b (ap holding c) tt
Move-Kind {raw} h (release {v} {w} e) = give v refl (unlock-lt raw w e) tt
Move-Kind h (release_clean {v} {w} skip lsn log_id dc k e) =
    give v refl (unlock_clean-lt skip lsn log_id dc w k e) tt
Move-Kind h (release_bf {v} {w} bf k e) = give v refl (unlock_bf-lt bf w k e) tt
Move-Kind h (release_discarded {v} {w} b ptr lsns count log_id dc last h1 h2 h3 h4 h5 e) =
    give v refl (discarded_word-lt b ptr lsns count log_id dc last h1 h2 h3 h4 h5 w e) tt
