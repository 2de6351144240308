-- ===== src/SsdLayout.antt =====
-- storage/buffer-manager/SSDLayout.{hpp,cpp}: where the database pages, the persistent RU state
-- and the log stand on the device. The floating point operations are a parameter, a type of
-- doubles with the results that the code takes of them, and so are to_string and stoull, the
-- printing and parsing of numbers.
pub mod Regions
pub mod Stored
pub mod Tests
use epsilon_db.Base.{
  ℕ, ◌+◌, ◌-◌, ◌*◌, ◌/◌, ◌%◌, ◌^◌, ◌≤◌, ◌≡◌, ◌==◌, Bool, true, false, not, ◌&&◌, ◌||◌, leb, ltb,
  List, [], ◌∷◌, ◌++◌, Option, none, some, Result, ok, fail, setup_failed, if◌then◌else◌, ◌>>=◌,
  ◌>>◌,
}
use epsilon_db.Align.{up_align, down_align}
use epsilon_db.RuEpoch.{size_for}
use epsilon_db.CompressedSpace.Cpid.{page_size}

-- What the code computes with doubles.
pub record Doubles : Type 1 where
  pub Double : Type 0
  pub is_zero : Double → Bool  -- x == 0
  pub not_positive : Double → Bool  -- x <= 0
  pub out_of_percent : Double → Bool  -- x <= 0 || x >= 100
  pub percent_of : ℕ → Double → ℕ  -- static_cast<u64>(n * (x / 100.0))
  pub gib_exceeds : Double → ℕ → Bool  -- x * GIB > n
  pub in_gib : ℕ → Double  -- n / GIB
  pub whole : ℕ → Double  -- static_cast<double>(n)
  pub gib_pages : Double → ℕ  -- static_cast<u64>((x * GIB) / PAGE_SIZE)
  pub share : ℕ → Double → ℕ  -- static_cast<u32>(n * x)

pub record SsdLayout : Type 0 where
  pub db_start : ℕ
  pub db_size : ℕ
  pub persistant_ru_state_offset : ℕ
  pub log_offset : ℕ
  pub log_size : ℕ
  pub log_same_namespace : Bool

unfoldable pub db_pages : SsdLayout → ℕ
db_pages l = l.db_size / page_size

-- incompatibilityWith: the fields that differ, in the order in which they are named.
pub data Field : Type 0 where
  db_start_field db_size_field persistant_ru_state_offset_field log_offset_field log_size_field
        log_same_namespace_field :
      Field

unfoldable pub cmp : Field → Bool → List Field
cmp name equal = if not equal then name ∷ [] else []

unfoldable pub same_bool : Bool → Bool → Bool
same_bool a b = if a then b else not b

-- The comparisons of the log's fields.
unfoldable pub log_fields : SsdLayout → SsdLayout → List Field
log_fields l persisted =
    cmp log_offset_field (l.log_offset == persisted.log_offset)
    ++ cmp log_size_field (l.log_size == persisted.log_size)

unfoldable pub incompatibility_with : SsdLayout → SsdLayout → List Field
incompatibility_with l persisted =
    cmp log_same_namespace_field (same_bool l.log_same_namespace persisted.log_same_namespace)
    ++ (cmp db_start_field (l.db_start == persisted.db_start)
        ++ (cmp db_size_field (l.db_size == persisted.db_size)
            ++ (cmp persistant_ru_state_offset_field
                  (l.persistant_ru_state_offset == persisted.persistant_ru_state_offset)
                ++ (if l.log_same_namespace && persisted.log_same_namespace
                    then log_fields l persisted
                    else []))))

-- A check that ends in SetupFailed.
unfoldable pub refuse_if : Bool → Result (Unit {0})
refuse_if b = if b then fail setup_failed else ok tt

-- The log region, and the end of what is below it.
pub record LogRegion : Type 0 where
  pub offset : ℕ
  pub size : ℕ
  pub db_region_end : ℕ

module _ (d : Doubles) where
  -- SSDLayoutConfig.
  pub record Config : Type 0 where
    pub ssd_bytes : ℕ
    pub ssd_gib : d.Double
    pub log_same_namespace : Bool
    pub log_space_pct : d.Double
    pub log_device_bytes : ℕ
    pub ru_size : ℕ
    pub overprovisioning_ru_epochs : ℕ
    pub overprovisioning_ratio : d.Double
    pub lba_chain_heads : Bool

  -- SSDLayoutPlan.
  pub record Plan : Type 0 where
    pub layout : SsdLayout
    pub max_open_ru_epochs : ℕ
    pub overprovisioning_ru_epochs : ℕ
    pub ssd_gib : d.Double

  -- The two branches of the first part.
  unfoldable pub shared_log : Config → ℕ → Result LogRegion
  shared_log c ssd_bytes =
      let size = down_align (d.percent_of ssd_bytes c.log_space_pct) page_size in
      let offset = (ssd_bytes + 2 ^ 64 - size) % 2 ^ 64 in
      refuse_if (ssd_bytes == 0)
      >> (refuse_if (d.out_of_percent c.log_space_pct)
          >> (refuse_if (size == 0)
              >> (refuse_if (d.gib_exceeds c.ssd_gib offset)
                  >> ok (record { offset = offset; size = size; db_region_end = offset }))))

  unfoldable pub separate_log : Config → ℕ → LogRegion
  separate_log c ssd_bytes = record {
    offset = 0;
    size = down_align c.log_device_bytes page_size;
    db_region_end = ssd_bytes;
  }

  unfoldable pub carve_log : Config → ℕ → Result LogRegion
  carve_log c ssd_bytes =
      if c.log_same_namespace then shared_log c ssd_bytes else ok (separate_log c ssd_bytes)

  unfoldable pub database_gib : Config → ℕ → LogRegion → d.Double
  database_gib c ssd_bytes log =
      if d.is_zero c.ssd_gib
      then (if c.log_same_namespace
          then d.in_gib log.db_region_end
          else d.whole (ssd_bytes / 1073741824))
      else c.ssd_gib

  unfoldable pub overprovisioned : Config → ℕ → ℕ
  overprovisioned c max_open_ru_epochs =
      if c.overprovisioning_ru_epochs == 0
      then d.share max_open_ru_epochs c.overprovisioning_ratio
      else c.overprovisioning_ru_epochs

  unfoldable pub state_blocks : Config → ℕ → ℕ
  state_blocks c max_open_ru_epochs =
      up_align (size_for max_open_ru_epochs c.lba_chain_heads) page_size / page_size

  unfoldable pub place_regions : Config → LogRegion → d.Double → ℕ → Result Plan
  place_regions c log gib blocks =
      let base = blocks / c.ru_size in
      let extra = overprovisioned c base in
      let max_open = (base + extra) % 2 ^ 64 in
      let state = state_blocks c max_open in
      let pages = blocks - state in
      let db_size = pages * page_size % 2 ^ 64 in
      let state_end = (db_size + state * page_size) % 2 ^ 64 in
      refuse_if (leb blocks (state * 100 % 2 ^ 64))
      >> (refuse_if (c.log_same_namespace && ltb log.offset state_end)
          >> ok (record {
            layout = record {
              db_start = 0;
              db_size = db_size;
              persistant_ru_state_offset = db_size;
              log_offset = log.offset;
              log_size = log.size;
              log_same_namespace = c.log_same_namespace;
            };
            max_open_ru_epochs = max_open;
            overprovisioning_ru_epochs = extra;
            ssd_gib = d.in_gib (pages * page_size % 2 ^ 64);
          }))

  unfoldable pub compute_ssd_layout : Config → Result Plan
  compute_ssd_layout c =
      let ssd_bytes = down_align c.ssd_bytes page_size in
      carve_log c ssd_bytes >>= λ log.
      let gib = database_gib c ssd_bytes log in
      refuse_if (d.not_positive gib)
      >> (refuse_if (not (ssd_bytes == 0) && d.gib_exceeds gib ssd_bytes)
          >> (refuse_if (c.ru_size == 0) >> place_regions c log gib (d.gib_pages gib)))
