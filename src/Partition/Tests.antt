-- ===== src/Partition/Tests.antt =====
-- Runs of a partition, its hash table and its free list, and the theorems about them.
use epsilon_db.Base.{
  ◌%◌, ◌<◌, ◌≡◌, refl, true, false, none, some, [], ◌∷◌, arith, ok, fail, undefined_behaviour,
}
use epsilon_db.Partition.{
  new_partition, unmapped, take_next, take_fresh, free_page, allocated_pages, freed_pages,
}
use epsilon_db.Partition.Pids.{
  Use, Turns, allocate, give_back, start, turn, unused, occurrences, next_pid_lem,
}
use epsilon_db.Partition.HashTable.{
  HashTable, new_frame, new_table, hash_key, position, set_bucket, insert, remove, has_key, has,
}
use epsilon_db.Partition.HashTable.Stacks.{frames, remove_frame_lem}
use epsilon_db.Partition.FreeList.{push, try_pop, link}

-- The second of four partitions.
abbrev one_used : Use
one_used = record {
  partition = record { pid_distance = 4; freed_pids = []; next_pid = 5; max_pid = 100 };
  in_use = 1 ∷ [];
}

abbrev one_freed : Use
one_freed = record {
  partition = record {
    pid_distance = 4;
    freed_pids = unmapped 1 ∷ [];
    next_pid = 5;
    max_pid = 100;
  };
  in_use = [];
}

turns : Turns (unused 1 4 100) one_freed
unfolding take_next take_fresh new_partition free_page
turns =
    turn
      (turn (start (unused 1 4 100)) (allocate (unused 1 4 100) (λ h. absurd (omega (arith, h)))))
      (give_back one_used [] [] (unmapped 1) refl)

next_pid_lem_example :
    (occurrences (take_next one_freed.partition).0.pid one_freed.in_use ≡ 0)
    × ((take_next one_freed.partition).0.pid < 100)
    × ((take_next one_freed.partition).0.pid % 4 ≡ 1)
unfolding take_next take_fresh
next_pid_lem_example =
    next_pid_lem 1 4 100 {u = one_freed} (omega arith) (omega arith) turns
      (λ h. absurd (omega (arith, h)))

counts : (allocated_pages one_used.partition ≡ 1) × (freed_pages one_freed.partition ≡ 1)
unfolding allocated_pages freed_pages
counts = (refl, refl)

abbrev table : HashTable
table = insert (insert (new_table 2) 7) 8

table_run :
    (has table 7 ≡ true)
    × (has table 9 ≡ false)
    × (frames table 7 ≡ new_frame ∷ [])
    × (hash_key 7 ≡ 11402072172476293544)
unfolding has has_key insert set_bucket position hash_key new_table
table_run = (refl, refl, refl, refl)

remove_frame_lem_example :
    (has table 7 ≡ true → (u : HashTable) × (remove table 7 ≡ ok u) × (frames u 8 ≡ frames table 8))
    × (has table 7 ≡ false → (remove table 7 ≡ fail undefined_behaviour) × (frames table 7 ≡ []))
remove_frame_lem_example = remove_frame_lem table 7 8

free_frames :
    ((try_pop (push (push (record { head = none; counter = 0; next_free_bf = λ _. none }) 3) 4)).0
      ≡ some 4)
    × ((try_pop (
          push
            (push (record { head = none; counter = 0; next_free_bf = λ _. none }) 3)
            4)).1.counter
        ≡ 1)
unfolding try_pop push link
free_frames = (refl, refl)
