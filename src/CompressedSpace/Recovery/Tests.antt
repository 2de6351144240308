-- ===== src/CompressedSpace/Recovery/Tests.antt =====
-- A space map that is written and read back.
use epsilon_db.Base.{ℕ_discrete, ℕ, ◌≡◌, refl, some, List, [], ◌∷◌, ok, arith}
use epsilon_db.CompressedSpace.Cpid
use epsilon_db.CompressedSpace.{Space, init}
use epsilon_db.CompressedSpace.Lists.{update}
use epsilon_db.CompressedSpace.Invariant.{Inv}
use epsilon_db.CompressedSpace.Recovery.{
  values, persist, add_pages, add_raw_blocks, free_below, restored, recover_maps, recover,
  space_map_magic,
}
use epsilon_db.CompressedSpace.Recovery.Restored.{Settled, recover-Inv}

abbrev map_file : List ℕ
map_file =
    space_map_magic ∷ 4 ∷ 16 ∷ 3 ∷ 2 ∷ Cpid.make 4096 100 ∷ Cpid.make 4196 200 ∷ 7 ∷ 8 ∷ 9 ∷ []

abbrev recovered : Space
recovered =
    restored (init 4 16 2) 3 2 (Cpid.make 4096 100 ∷ Cpid.make 4196 200 ∷ []) (7 ∷ 8 ∷ 9 ∷ [])
      (update (update (update (λ _. 0) 1 100) 1 300) 2 4096)

read_back : persist recovered 2 ≡ ok map_file
unfolding persist values restored init free_below
read_back = refl

was_recovered : recover (init 4 16 2) (some map_file) (2 ∷ []) ≡ ok recovered
unfolding recover recover_maps restored init add_pages add_raw_blocks free_below Cpid.make
    Cpid.block Cpid.address Cpid.page_length Cpid.on_ssd Cpid.offset_in_block ℕ_discrete
was_recovered = refl

recover-Inv_example : Inv recovered × ((b : ℕ) → Settled recovered b)
recover-Inv_example =
    recover-Inv 4 16 2 (some map_file) (2 ∷ []) recovered (omega arith) was_recovered
