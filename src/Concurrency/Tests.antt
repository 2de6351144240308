-- ===== src/Concurrency/Tests.antt =====
-- Runs of the concurrency control, and states where its theorems apply.
use mathlib.Core.List.{Memᴰ}
use mathlib.Core.List.Memᴰ
use epsilon_db.Base.{
  ℕ, zero, suc, ◌+◌, ◌^◌, ◌≤◌, ◌<◌, ◌≡◌, ◌↔◌, refl, sym, true, false, none, List, [], ◌∷◌, ◌++◌,
  arith, ok, some_injective, ap, ℕ_discrete,
}
use epsilon_db.Concurrency.CommitTree.{
  Commit, CommitTree, is_latched, clean_bits, new_tree, commit, lower_bound, before, in_front,
  lcb_unsafe, start_or_zero, lcb, pair_less, set_insert, insert_element, insert_found,
  load_unlatched, keep_for, gather, clean_if_necessary,
}
use epsilon_db.Concurrency.CommitTree.Search.{Ascending, latest_before, lcb_unsafe-latest_before}
use epsilon_db.Concurrency.CommitTree.Answers.{Cleaned, clean_lem}
use epsilon_db.Concurrency.CommitTree.Gather.{Ready}
use epsilon_db.Concurrency.Snapshots.{
  idle, running, System, latched_word, snapshot_word, read_committed_word, latch, draw, publish,
  set_phase, set_tree, commit_elsewhere, committed, InTransaction, Saw, start, Reach, latches,
  draws, publishes, cleans, commits, begin, step, switch_to_snapshot_isolation,
  switch_to_read_committed,
}
use epsilon_db.Concurrency.Snapshots.Safety.{read_snapshots_lem, commit-Reach}

abbrev pub three : List Commit
three =
    record { commit_ts = 257; start_ts = 256 }
    ∷ record { commit_ts = 260; start_ts = 258 }
    ∷ record { commit_ts = 270; start_ts = 265 }
    ∷ []

abbrev full_tree : CommitTree
full_tree = record { capacity = 3; entries = three }

pub three-Ascending : Ascending three
three-Ascending = ((omega arith, (omega arith, tt)), ((omega arith, tt), (tt, tt)))

lcb_unsafe-latest_before_example : lcb_unsafe three 266 ≡ latest_before three 266
lcb_unsafe-latest_before_example = lcb_unsafe-latest_before three 266 three-Ascending

lcb_runs : lcb three 266 ≡ 258
unfolding lcb lcb_unsafe lower_bound before in_front start_or_zero
lcb_runs = refl

latest_runs : latest_before three 257 ≡ none
unfolding latest_before
latest_runs = refl

-- Worker 0 cleans: worker 1 is drawing when it is first read.
abbrev loads : List (List ℕ)
loads = (0 ∷ []) ∷ (9223372036854776010 ∷ 261 ∷ []) ∷ []

loads-Ready : Ready loads
unfolding load_unlatched is_latched clean_bits
loads-Ready zero l e = (0, ap load_unlatched (sym (some_injective e)))
loads-Ready (suc zero) l e = (261, ap load_unlatched (sym (some_injective e)))
loads-Ready (suc (suc i)) l e = cc

clean_lem_example : Cleaned 0 loads full_tree
clean_lem_example =
    clean_lem 0 2 loads full_tree (omega arith) refl refl (omega arith) three-Ascending loads-Ready

clean_runs :
    clean_if_necessary 0 loads full_tree
    ≡ ok (record {
      capacity = 3;
      entries =
          record { commit_ts = 260; start_ts = 258 }
          ∷ record { commit_ts = 270; start_ts = 265 }
          ∷ [];
    })
unfolding clean_if_necessary gather load_unlatched is_latched clean_bits keep_for insert_element
    insert_found set_insert pair_less lcb_unsafe lower_bound before in_front
clean_runs = refl

-- Worker 0 commits, and worker 1 starts after that.
abbrev pub s1 : System
s1 = latch 0 (start 2)

abbrev pub s2 : System
s2 = draw 0 s1

abbrev pub s3 : System
s3 = publish false 0 s2

abbrev pub s4 : System
s4 = set_phase 0 running (set_tree (new_tree 2) s3)

abbrev pub mine : CommitTree
mine = record { capacity = 3; entries = record { commit_ts = 257; start_ts = 256 } ∷ [] }

abbrev pub s5 : System
s5 = committed 0 (mine, 258) s4

abbrev pub s6 : System
s6 = latch 1 s5

abbrev pub s7 : System
s7 = draw 1 s6

abbrev pub s8 : System
s8 = publish true 1 s7

abbrev idle_loads : List (List ℕ)
idle_loads = (0 ∷ []) ∷ (0 ∷ []) ∷ []

idle_loads-Ready : Ready idle_loads
unfolding load_unlatched is_latched clean_bits
idle_loads-Ready zero l e = (0, ap load_unlatched (sym (some_injective e)))
idle_loads-Ready (suc zero) l e = (0, ap load_unlatched (sym (some_injective e)))
idle_loads-Ready (suc (suc i)) l e = cc

saw : Saw 2 0 s3 idle_loads
unfolding start latch draw publish
saw = record {
  every = refl;
  ready = idle_loads-Ready;
  stable = λ j l c f ne k m. absurd (Memᴰ.not-nil m);
}

reach4 : Reach 2 0 s4
unfolding start latch draw publish set_tree set_phase new_tree clean_if_necessary ℕ_discrete
reach4 =
    step
      (step (step (step begin (latches 0 refl)) (draws 0 refl (omega arith)))
        (publishes 0 false refl))
      (cleans idle_loads (new_tree 2) refl saw refl)

pub reach8 : Reach 2 0 s8
unfolding start latch draw publish set_tree set_phase new_tree committed commit ℕ_discrete
reach8 =
    step
      (step (step (step reach4 (commits (mine, 258) refl (omega arith) refl)) (latches 1 refl))
        (draws 1 refl (omega arith)))
      (publishes 1 true refl)

pub worker_1 : InTransaction (s8.phase 1)
unfolding publish ℕ_discrete
worker_1 = tt

owner_runs : s4.phase 0 ≡ running
unfolding set_phase ℕ_discrete
owner_runs = refl

clock4 : s4.global_clock + 1 < 2 ^ 61
unfolding set_phase set_tree publish draw latch start
clock4 = omega arith

read_snapshots_lem_example :
    (lcb s8.tree.entries (s8.start_ts 1) ≡ lcb s8.history (s8.start_ts 1))
    × ((c : Commit)
        → Memᴰ c s8.history
        → (c.commit_ts < s8.start_ts 1) ↔ (c.start_ts ≤ lcb s8.tree.entries (s8.start_ts 1)))
read_snapshots_lem_example =
    read_snapshots_lem 2 0 s8 1 (omega arith) (omega arith) reach8 (omega arith) (omega arith)
      worker_1

commit-Reach_example :
    commit s4.global_clock s4.tree (s4.start_ts 0)
    ≡ ok (
      record s4.tree {
        entries =
            s4.tree.entries
            ++ record { commit_ts = s4.global_clock; start_ts = s4.start_ts 0 } ∷ [];
      },
      s4.global_clock + 1,
    )
commit-Reach_example = commit-Reach 2 0 s4 (omega arith) (omega arith) reach4 owner_runs clock4

words_run :
    (latched_word 256 ≡ 9223372036854776064)
    × (snapshot_word true 256 ≡ 2305843009213694208)
    × (read_committed_word 256 ≡ 4611686018427388160)
unfolding latched_word snapshot_word read_committed_word
words_run = (refl, refl, refl)

switches_run :
    ((switch_to_snapshot_isolation 1 s8).snapshot 1 ≡ s8.global_clock)
    × ((switch_to_read_committed 1 s8).snapshot 1 ≡ read_committed_word (s8.snapshot 1))
    × ((commit_elsewhere 1 s8).phase 1 ≡ idle)
unfolding switch_to_snapshot_isolation switch_to_read_committed commit_elsewhere publish ℕ_discrete
switches_run = (refl, refl, refl)
