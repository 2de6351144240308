-- ===== src/SsdLayout/Tests.antt =====
-- A device of 64 MiB. Doubles are stood in for by whole numbers of bytes, and strings by numbers.
use epsilon_db.Base.{
  ℕ, ◌+◌, ◌*◌, ◌/◌, ◌≤◌, ◌≡◌, ◌↔◌, ◌||◌, ◌==◌, refl, arith, true, false, ok, fail, [], ◌∷◌, some,
  ltb, leb, setup_failed,
}
use native.Mathlib.Nat.{mul-le-mul_left}
use epsilon_db.Align.{up_align, down_align}
use epsilon_db.RuEpoch.{size_for, chain_heads_offset}
use epsilon_db.SsdLayout.{
  Doubles, SsdLayout, Config, Plan, refuse_if, carve_log, shared_log, separate_log, database_gib,
  overprovisioned, state_blocks, place_regions, compute_ssd_layout, db_size_field, log_offset_field,
  cmp, same_bool, incompatibility_with, log_fields, db_pages,
}
use epsilon_db.SsdLayout.Regions.{DoublesOk, InOrder, compute_ssd_layout_lem}
use epsilon_db.SsdLayout.Stored.{
  Printing, PrintingOk, serialize, deserialize, number_at, at, same_field, Agree,
  incompatibility_with-deserialize,
}

abbrev in_bytes : Doubles
in_bytes = record {
  Double = ℕ;
  is_zero = λ x. x == 0;
  not_positive = λ x. x == 0;
  out_of_percent = λ x. (x == 0) || leb 100 x;
  percent_of = λ n x. n * x / 100;
  gib_exceeds = λ x n. ltb n x;
  in_gib = λ n. n;
  whole = λ n. n * 1073741824;
  gib_pages = λ x. x / 4096;
  share = λ n x. n * x / 100;
}

at_most : (n x : ℕ) → ltb n x ≡ false → x ≤ n
at_most n x h = ground arith

below_100 : (x : ℕ) → ((x == 0) || leb 100 x) ≡ false → x ≤ 99
below_100 x h = ground arith

in_bytes-DoublesOk : DoublesOk in_bytes
in_bytes-DoublesOk = record {
  pages_fit = λ x n b h. omega (arith, at_most n x h);
  percent_fits = λ n x b h. omega (arith, mul-le-mul_left n (below_100 x h));
}

abbrev config : Config in_bytes
config = record {
  ssd_bytes = 67108864 + 100;
  ssd_gib = 0;
  log_same_namespace = true;
  log_space_pct = 10;
  log_device_bytes = 0;
  ru_size = 1000;
  overprovisioning_ru_epochs = 0;
  overprovisioning_ratio = 20;
  lba_chain_heads = true;
}

abbrev plan : Plan in_bytes
plan = record {
  layout = record {
    db_start = 0;
    db_size = 60391424;
    persistant_ru_state_offset = 60391424;
    log_offset = 60399616;
    log_size = 6709248;
    log_same_namespace = true;
  };
  max_open_ru_epochs = 16;
  overprovisioning_ru_epochs = 2;
  ssd_gib = 60391424;
}

plan_runs : compute_ssd_layout in_bytes config ≡ ok plan
unfolding compute_ssd_layout carve_log shared_log refuse_if database_gib place_regions
    overprovisioned state_blocks size_for chain_heads_offset up_align down_align
plan_runs = refl

compute_ssd_layout_lem_example :
    InOrder in_bytes config 67108864 plan (up_align (size_for 16 true) 4096)
compute_ssd_layout_lem_example =
    compute_ssd_layout_lem in_bytes config plan in_bytes-DoublesOk (omega arith) (omega arith)
      plan_runs

-- A device that is too small for the state, an RU size of 0, a log of its own, and one that takes
-- everything.
refusals_run :
    (compute_ssd_layout in_bytes
        (record config { ssd_bytes = 65536; log_same_namespace = false; ssd_gib = 65536 })
      ≡ fail setup_failed)
    × (compute_ssd_layout in_bytes (record config { ru_size = 0 }) ≡ fail setup_failed)
    × (compute_ssd_layout in_bytes (record config { log_space_pct = 100 }) ≡ fail setup_failed)
    × (compute_ssd_layout in_bytes (record config { ssd_gib = 67108864 }) ≡ fail setup_failed)
    × (separate_log in_bytes (record config { log_device_bytes = 5000 }) 65536
        ≡ record { offset = 0; size = 4096; db_region_end = 65536 })
unfolding compute_ssd_layout carve_log shared_log separate_log refuse_if database_gib place_regions
    overprovisioned state_blocks size_for chain_heads_offset up_align down_align
refusals_run = (refl, refl, refl, refl, refl)

abbrev numbers : Printing
numbers = record {
  String = ℕ;
  to_string = λ n. n;
  stoull = λ n. some n;
  one_string = 1;
  zero_string = 0;
  is_one = λ n. n == 1;
}

numbers-PrintingOk : PrintingOk numbers
numbers-PrintingOk = record { number = λ n. refl; one = refl; zero = refl }

incompatibility_with-deserialize_example :
    (q : SsdLayout) × (deserialize numbers (serialize numbers plan.layout) ≡ some q)
    × ((incompatibility_with plan.layout q ≡ []) ↔ Agree plan.layout plan.layout)
incompatibility_with-deserialize_example =
    incompatibility_with-deserialize numbers plan.layout plan.layout numbers-PrintingOk

stored_runs :
    (deserialize numbers (serialize numbers plan.layout) ≡ some plan.layout)
    × (incompatibility_with plan.layout (record plan.layout { db_size = 4096; log_offset = 0 })
        ≡ db_size_field ∷ log_offset_field ∷ [])
    × (db_pages plan.layout ≡ 14744)
unfolding deserialize serialize number_at at same_field incompatibility_with log_fields cmp
    same_bool db_pages
stored_runs = (refl, refl, refl)
