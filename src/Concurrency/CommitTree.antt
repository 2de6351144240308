-- ===== src/Concurrency/CommitTree.antt =====
-- The commit tree of a worker (CommitTree of concurrency-recovery/Worker.hpp and
-- ConcurrencyControl.cpp): the array of its transactions by commit timestamp, which the other
-- workers search for the last commit before their snapshot. `entries` is array[0 .. cursor).
pub mod Search
pub mod Clean
pub mod Keep
pub mod Gather
pub mod Answers
pub mod Append
use epsilon_db.Base.{
  ℕ, zero, suc, ◌+◌, ◌-◌, ◌/◌, ◌%◌, ◌^◌, Bool, true, false, Option, none, some, List, [], ◌∷◌, ◌++◌,
  ◌==◌, ◌||◌, ◌&&◌, ltb, leb, if◌then◌else◌, length, get_elem?, Result, ok, fail, ◌>>=◌, waiting,
  undefined_behaviour,
}

-- The bits that a worker sets in its published snapshot; CLEAN_BITS_MASK clears all three.
abbrev pub latch_bit : ℕ
latch_bit = 2 ^ 63

abbrev pub rc_bit : ℕ
rc_bit = 2 ^ 62

abbrev pub olap_bit : ℕ
olap_bit = 2 ^ 61

unfoldable pub is_latched : ℕ → Bool
is_latched word = (word / latch_bit) % 2 == 1

unfoldable pub clean_bits : ℕ → ℕ
clean_bits word = word % olap_bit

-- A pair of the array: first is the commit timestamp, second the start timestamp.
pub record Commit : Type 0 where
  pub commit_ts : ℕ
  pub start_ts : ℕ

pub record CommitTree : Type 0 where
  pub capacity : ℕ
  pub entries : List Commit

-- The constructor, CommitTree(workers_count).
unfoldable pub new_tree : ℕ → CommitTree
new_tree workers_count = record { capacity = (workers_count + 1) % 2 ^ 64; entries = [] }

-- `commit`, with the global clock before and after; the assert is a debug check, and a write
-- past the array is undefined.
unfoldable pub commit : ℕ → CommitTree → ℕ → Result (CommitTree × ℕ)
commit global_clock t start_ts =
    if ltb (length t.entries) t.capacity
    then ok (
      record t {
        entries = t.entries ++ record { commit_ts = global_clock; start_ts = start_ts } ∷ [];
      },
      (global_clock + 1) % 2 ^ 64,
    )
    else fail undefined_behaviour

-- std::lower_bound on `len` elements from `first` on, for a test of the element at an index.
unfoldable pub lower_bound : ℕ → (ℕ → Bool) → ℕ → ℕ → ℕ
lower_bound zero before first len = first
lower_bound (suc fuel) before first len = elim (len == 0) [
  | true ↦ first
  | false ↦ elim (before (first + len / 2)) [
    | true ↦ lower_bound fuel before (first + len / 2 + 1) (len - len / 2 - 1)
    | false ↦ lower_bound fuel before first (len / 2)
  ]
]

-- The comparison of LCBUnsafe, at an index of the array.
unfoldable pub before : List Commit → ℕ → ℕ → Bool
before entries ts i = elim (get_elem? entries i) [ none ↦ false | some c ↦ ltb c.commit_ts ts ]

-- The element in front of an iterator; `none` is begin.
unfoldable pub in_front : List Commit → ℕ → Option Commit
in_front entries zero = none
in_front entries (suc i) = get_elem? entries i

unfoldable pub lcb_unsafe : List Commit → ℕ → Option Commit
lcb_unsafe entries ts =
    in_front entries (lower_bound (length entries) (before entries ts) 0 (length entries))

-- LCB, the start timestamp of the last commit before a timestamp.
unfoldable pub start_or_zero : Option Commit → ℕ
start_or_zero none = 0
start_or_zero (some c) = c.start_ts

unfoldable pub lcb : List Commit → ℕ → ℕ
lcb entries ts = start_or_zero (lcb_unsafe entries ts)

-- std::set of pairs, as the list of its elements in order.
unfoldable pub pair_less : Commit → Commit → Bool
pair_less a b =
    ltb a.commit_ts b.commit_ts || ((a.commit_ts == b.commit_ts) && ltb a.start_ts b.start_ts)

unfoldable pub set_insert : Commit → List Commit → List Commit
set_insert c [] = c ∷ []
set_insert c (d ∷ ds) =
    let rest = set_insert c ds in
    if pair_less c d then c ∷ d ∷ ds else if pair_less d c then d ∷ rest else d ∷ ds

unfoldable pub insert_element : Option Commit → List Commit → Result (List Commit)
insert_element none s = fail undefined_behaviour
insert_element (some c) s = ok (set_insert c s)

unfoldable pub insert_found : Option Commit → List Commit → List Commit
insert_found none s = s
insert_found (some c) s = set_insert c s

-- The loop that reads a worker's snapshot until it is not latched, on the words that it loads.
unfoldable pub load_unlatched : List ℕ → Result ℕ
load_unlatched [] = fail waiting
load_unlatched (word ∷ words) =
    let rest = load_unlatched words in if is_latched word then rest else ok (clean_bits word)

-- What the loop of cleanIfNecessary puts in the set for one other worker.
unfoldable pub keep_for : List Commit → ℕ → List Commit → Result (List Commit)
keep_for entries its_start_ts set = do
  set ← insert_element (get_elem? entries (length entries - 1)) set
  if its_start_ts == 0
      then insert_element (get_elem? entries 0) set
      else ok (insert_found (lcb_unsafe entries its_start_ts) set)

-- The loop of cleanIfNecessary over the workers from `w` on, with the words that it loads of
-- each one's snapshot.
unfoldable pub gather : ℕ → List Commit → ℕ → List (List ℕ) → List Commit → Result (List Commit)
gather my_worker_id entries w [] set = ok set
gather my_worker_id entries w (loads ∷ rest) set = elim (w == my_worker_id) [
  | true ↦ gather my_worker_id entries (suc w) rest set
  | false ↦ do
    its_start_ts ← load_unlatched loads
    set ← keep_for entries its_start_ts set
    gather my_worker_id entries (suc w) rest set
]

unfoldable pub clean_if_necessary : ℕ → List (List ℕ) → CommitTree → Result CommitTree
clean_if_necessary my_worker_id snapshots t =
    if ltb (length t.entries) t.capacity
    then ok t
    else do set ← gather my_worker_id t.entries 0 snapshots []; ok (record t { entries = set })
