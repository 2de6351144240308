-- ===== src/SsdLayout/Regions.antt =====
-- The regions that computeSSDLayout hands out are aligned and in order on the device.
use epsilon_db.Base.{
  ℕ, ◌+◌, ◌-◌, ◌*◌, ◌/◌, ◌%◌, ◌^◌, ◌≤◌, ◌<◌, ◌≡◌, ◌≢◌, refl, sym, ap, ◌∙◌, arith, Bool, true, false,
  not, ◌&&◌, ◌==◌, ok, Result, if◌then◌else◌, ◌>>◌, >>=-eq-ok, ok-injective, Bool-cases, inl, inr,
  leb, ltb, ==-false,
}
use epsilon_db.Align.{up_align, down_align, down_align_4096, up_align_multiple}
use epsilon_db.RuEpoch.{size_for}
use epsilon_db.SsdLayout.{
  Doubles, Config, Plan, LogRegion, refuse_if, carve_log, shared_log, separate_log, database_gib,
  overprovisioned, state_blocks, place_regions, compute_ssd_layout,
}

-- What the code relies on: a result that is not larger than a number of bytes has at most its
-- pages, and a percentage is at most the whole.
pub record DoublesOk (d : Doubles) : Type 0 where
  pub pages_fit :
      (x : d.Double) (n : ℕ) → n < 2 ^ 53 → d.gib_exceeds x n ≡ false → d.gib_pages x * 4096 ≤ n
  pub percent_fits :
      (n : ℕ) (x : d.Double) → n < 2 ^ 53 → d.out_of_percent x ≡ false → d.percent_of n x ≤ n

true_ne_false : true ≡ false → ⊥
true_ne_false h = cc

not_zero : (n : ℕ) → (n == 0) ≡ false → n ≢ 0
not_zero n h e = ground arith

refused {ℓ} :
    {Value : Type ℓ} (b : Bool) (m : Result Value) {x : Value}
    → (refuse_if b >> m) ≡ ok x
    → (b ≡ false) × (m ≡ ok x)
unfolding refuse_if
refused true m h = cc
refused false m h = (refl, h)

if-true {ℓ} : {A : Type ℓ} (b : Bool) (x y : A) → b ≡ true → (if b then x else y) ≡ x
if-true b x y e = rw e refl

if-false {ℓ} : {A : Type ℓ} (b : Bool) (x y : A) → b ≡ false → (if b then x else y) ≡ y
if-false b x y e = rw e refl

-- The log region ends with the device, or is on its own.
pub record LogOk (same : Bool) (ssd_bytes : ℕ) (log : LogRegion) : Type 0 where
  pub if_shared :
      same ≡ true
      → (log.offset + log.size ≡ ssd_bytes) × (0 < log.size) × (log.db_region_end ≡ log.offset)
  pub separate : same ≡ false → log.offset ≡ 0
  pub aligned : log.size % 4096 ≡ 0

module _ (d : Doubles) (k : DoublesOk d) (c : Config d) where
  shared_log_lem :
      (ssd_bytes : ℕ) (log : LogRegion)
      → ssd_bytes < 2 ^ 53
      → shared_log d c ssd_bytes ≡ ok log
      → (log.offset + log.size ≡ ssd_bytes)
        × (0 < log.size)
        × (log.db_region_end ≡ log.offset)
        × (log.size % 4096 ≡ 0)
  unfolding shared_log
  shared_log_lem ssd_bytes log b h =
      let n = d.percent_of ssd_bytes c.log_space_pct in
      let size = down_align n 4096 in
      let r1 = refused (ssd_bytes == 0) _ h in
      let r2 = refused (d.out_of_percent c.log_space_pct) _ r1.1 in
      let r3 = refused (size == 0) _ r2.1 in
      let r4 = refused _ _ r3.1 in
      let q = ok-injective r4.1 in
      let fits = k.percent_fits ssd_bytes c.log_space_pct b r2.0 in
      let down = down_align_4096 n in
      let ne : size ≢ 0 = not_zero size r3.0 in
      let qs = ap (λ (x : LogRegion). x.size) q in
      let qo = ap (λ (x : LogRegion). x.offset) q in
      (
        omega (arith, qs, qo, fits, down),
        omega (arith, ne, qs),
        sym (ap (λ (x : LogRegion). x.db_region_end) q) ∙ qo,
        omega (arith, qs, down),
      )

  carve_log_lem :
      (ssd_bytes : ℕ) (log : LogRegion)
      → ssd_bytes < 2 ^ 53
      → carve_log d c ssd_bytes ≡ ok log
      → LogOk c.log_same_namespace ssd_bytes log
  unfolding carve_log separate_log
  carve_log_lem ssd_bytes log b h = elim (Bool-cases c.log_same_namespace) [
    | inr e ↦
        let q =
          ok-injective (sym (if-false c.log_same_namespace (shared_log d c ssd_bytes) _ e) ∙ h) in
        record {
          if_shared = λ e'. absurd (true_ne_false (sym e' ∙ e));
          separate = λ e'. sym (ap (λ (x : LogRegion). x.offset) q);
          aligned =
              omega (arith, ap (λ (x : LogRegion). x.size) q, down_align_4096 c.log_device_bytes);
        }
    | inl e ↦
        let r =
          shared_log_lem ssd_bytes log b
            (sym (if-true c.log_same_namespace _ (ok (separate_log d c ssd_bytes)) e) ∙ h) in
        record {
          if_shared = λ e'. (r.0, r.1, r.2);
          separate = λ e'. absurd (true_ne_false (sym e ∙ e'));
          aligned = r.3;
        }
  ]

-- Where a layout puts the database and the persistent RU state of a device with that many pages.
pub record PlacedOk (d : Doubles) (c : Config d) (log : LogRegion) (blocks : ℕ) (p : Plan d)
    : Type 0 where
  pub state_pages : ℕ
  pub state_size :
      state_pages * 4096 ≡ up_align (size_for p.max_open_ru_epochs c.lba_chain_heads) 4096
  pub db_start : p.layout.db_start ≡ 0
  pub db_positive : 0 < p.layout.db_size
  pub db_aligned : p.layout.db_size % 4096 ≡ 0
  pub state_offset : p.layout.persistant_ru_state_offset ≡ p.layout.db_size
  pub whole : p.layout.db_size + state_pages * 4096 ≡ blocks * 4096
  pub below_log : c.log_same_namespace ≡ true → p.layout.db_size + state_pages * 4096 ≤ log.offset
  pub log_offset : p.layout.log_offset ≡ log.offset
  pub log_size : p.layout.log_size ≡ log.size

below : (same : Bool) (a b : ℕ) → (same && ltb a b) ≡ false → same ≡ true → b ≤ a
below true a b h e = ground arith
below false a b h e = cc

above : (a b : ℕ) → leb a b ≡ false → b < a
above a b h = ground arith

module _ (d : Doubles) (c : Config d) where
  place_regions_lem :
      (log : LogRegion) (gib : d.Double) (blocks : ℕ) (p : Plan d)
      → blocks < 2 ^ 41
      → place_regions d c log gib blocks ≡ ok p
      → PlacedOk d c log blocks p
  unfolding place_regions state_blocks
  place_regions_lem log gib blocks p b h =
      let max_open = (blocks / c.ru_size + overprovisioned d c (blocks / c.ru_size)) % 2 ^ 64 in
      let m = up_align_multiple (size_for max_open c.lba_chain_heads) in
      let state = state_blocks d c max_open in
      let r1 = refused (leb blocks (state * 100 % 2 ^ 64)) _ h in
      let r2 = refused _ _ r1.1 in
      let q = ok-injective r2.1 in
      let more = above blocks (state * 100 % 2 ^ 64) r1.0 in
      let small : state * 100 < blocks = omega (arith, more, m.0) in
      let size : (blocks - state) * 4096 % 2 ^ 64 ≡ (blocks - state) * 4096 = omega (arith, b) in
      let ends : ((blocks - state) * 4096 % 2 ^ 64 + state * 4096) % 2 ^ 64 ≡ blocks * 4096 =
        omega (arith, b, small) in
      let db = ap (λ (x : Plan d). x.layout.db_size) q in
      record {
        state_pages = state;
        state_size =
            omega (arith, m.1)
            ∙ ap (λ (x : Plan d). up_align (size_for x.max_open_ru_epochs c.lba_chain_heads) 4096)
                q;
        db_start = sym (ap (λ (x : Plan d). x.layout.db_start) q);
        db_positive = omega (arith, db, size, small);
        db_aligned = omega (arith, db, size);
        state_offset = sym (ap (λ (x : Plan d). x.layout.persistant_ru_state_offset) q) ∙ db;
        whole = omega (arith, db, size, small);
        below_log = λ e.
            omega (arith, below c.log_same_namespace log.offset _ r2.0 e, ends, db, size, small);
        log_offset = sym (ap (λ (x : Plan d). x.layout.log_offset) q);
        log_size = sym (ap (λ (x : Plan d). x.layout.log_size) q);
      }

-- The database pages, the persistent RU state and the log follow each other on the device.
pub record InOrder (d : Doubles) (c : Config d) (device : ℕ) (p : Plan d) (state_size : ℕ)
    : Type 0 where
  pub db_start : p.layout.db_start ≡ 0
  pub db_positive : 0 < p.layout.db_size
  pub db_aligned : p.layout.db_size % 4096 ≡ 0
  pub state_offset : p.layout.persistant_ru_state_offset ≡ p.layout.db_size
  pub on_device : p.layout.persistant_ru_state_offset + state_size ≤ device
  pub log_above :
      c.log_same_namespace ≡ true
      → (p.layout.persistant_ru_state_offset + state_size ≤ p.layout.log_offset)
        × (p.layout.log_offset + p.layout.log_size ≡ device)
        × (0 < p.layout.log_size)
  pub log_alone : c.log_same_namespace ≡ false → p.layout.log_offset ≡ 0
  pub log_aligned : p.layout.log_size % 4096 ≡ 0

-- On a device of known size below 2 ^ 53 bytes, with doubles that keep what fits, the plan of
-- computeSSDLayout has the database pages at 0, whole pages and at least one; the persistent RU
-- state follows them and ends on the device; a log of whole pages on the same device, not empty,
-- begins behind the state and ends with the device's pages, and a log of its own begins at 0.
pub compute_ssd_layout_lem :
    (d : Doubles) (c : Config d) (p : Plan d)
    → DoublesOk d
    → 4096 ≤ c.ssd_bytes
    → c.ssd_bytes < 2 ^ 53
    → compute_ssd_layout d c ≡ ok p
    → InOrder d c
        (c.ssd_bytes / 4096 * 4096)
        p
        (up_align (size_for p.max_open_ru_epochs c.lba_chain_heads) 4096)
unfolding compute_ssd_layout
compute_ssd_layout_lem d c p k known b h =
    let device = down_align c.ssd_bytes 4096 in
    let down = down_align_4096 c.ssd_bytes in
    let (log, carved, h1) = >>=-eq-ok (carve_log d c device) _ h in
    let l = carve_log_lem d k c device log (omega (arith, down, b)) carved in
    let gib = database_gib d c device log in
    let r1 = refused (d.not_positive gib) _ h1 in
    let r2 = refused _ _ r1.1 in
    let r3 = refused (c.ru_size == 0) _ r2.1 in
    let fits = k.pages_fit gib device (omega (arith, down, b)) (
      second (device == 0) (d.gib_exceeds gib device)
        (==-false device 0 (λ z. omega (arith, z, down, known))) r2.0) in
    let r = place_regions_lem d c log gib (d.gib_pages gib) p (omega (arith, fits, down, b)) r3.1 in
    record {
      db_start = r.db_start;
      db_positive = r.db_positive;
      db_aligned = r.db_aligned;
      state_offset = r.state_offset;
      on_device = omega (arith, r.state_offset, r.whole, r.state_size, fits, down);
      log_above = λ e.
          let s = l.if_shared e in
          (
            omega (arith, r.state_offset, r.below_log e, r.state_size, r.log_offset),
            omega (arith, r.log_offset, r.log_size, s.0, down),
            omega (arith, r.log_size, s.1),
          );
      log_alone = λ e. r.log_offset ∙ l.separate e;
      log_aligned = omega (arith, r.log_size, l.aligned);
    }
  where
    second : (z x : Bool) → z ≡ false → (not z && x) ≡ false → x ≡ false
    second true x e f = cc
    second false x e f = f
