-- ===== src/PageState/Tests.antt =====
-- Runs of the page state at concrete words, and the theorems at concrete inputs.
use epsilon_db.Base.{
  ℕ, ◌+◌, ◌/◌, ◌%◌, ◌*◌, ◌^◌, ◌≡◌, refl, true, false, arith, ok, fail, List, [], ◌∷◌, ensure_failed,
  ℕ_discrete, if◌then◌else◌, ◌>>=◌, ◌&&◌, ◌==◌,
}
use epsilon_db.Units.{lsn_offset, is_regular_lsn}
use epsilon_db.PageState.{
  clean, discarded, fits_in_page_state, encode_discard_count, is_locked, get_state, is_free,
  get_log_id, get_discard_count, get_locked_fields, as_lsn, may_discard, unlock_clean, unlock_bf,
  lock_round, compare_exchange, status_of, holds_lsn_array, is_hot, is_clean, is_discarded,
  try_discard, discarded_word, discarded_head, discarded_location, encode_lsn_array,
}
use epsilon_db.PageState.Word.{word}
use epsilon_db.PageState.Publish.{clean_lsn, unlock_clean_round_trip}
use epsilon_db.PageState.Discard.{
  try_discard_round_trip, try_discard_branches, discarded_word_total,
}
use epsilon_db.PageState.Latching.{
  idle, loaded, holding, System, Reach, start, later, pick, load, latch, update,
}
use epsilon_db.PageState.Latching.Safety.{latch_exclusive}

-- A cached page in the frame at 0x7000.
abbrev cached : ℕ
cached = 3 * 2 ^ 61 + 0x7000

-- Two pending LSNs of log 5 in an array at 0x1000.
abbrev pending : List ℕ
pending = (5 * 2 ^ 48 + 100) ∷ (5 * 2 ^ 48 + 200) ∷ []

-- The word after both are discarded by the address of their array.
abbrev by_array : ℕ
by_array = word 1 2 5 1 0x200

discard_cached : try_discard cached cached false 0x1000 pending 2 5 1 ≡ ok (true, by_array)
unfolding try_discard may_discard compare_exchange is_hot get_state status_of discarded_word
    discarded_head discarded_location encode_discard_count encode_lsn_array
discard_cached = refl

-- A log id of 1023 is refused, although it fits the 10 bits.
discard_last_log : try_discard cached cached false 0x1000 pending 2 1023 1 ≡ fail ensure_failed
unfolding try_discard may_discard compare_exchange is_hot get_state status_of discarded_word
discard_last_log = refl

free_word : (is_free 0 ≡ true) × (is_clean 0 ≡ ok false) × (is_discarded by_array ≡ ok true)
unfolding is_free is_clean is_discarded get_state status_of
free_word = (refl, refl, refl)

try_discard_round_trip_example :
    (cached ≡ cached)
    × (is_locked cached ≡ false)
    × (is_hot cached ≡ ok true)
    × (is_locked by_array ≡ false)
    × (get_state by_array ≡ ok discarded)
    × (get_log_id by_array ≡ ok 5)
    × (get_discard_count by_array ≡ ok 1)
    × (get_locked_fields false by_array
        ≡ ((if holds_lsn_array false 2 then 0x1000 else (5 * 2 ^ 48 + 200)), 2))
try_discard_round_trip_example =
    try_discard_round_trip false 0x1000 pending 2 5 1 (5 * 2 ^ 48 + 200) (omega arith) (omega arith)
      (omega arith) (omega arith) refl cached cached by_array discard_cached

try_discard_branches_example : try_discard cached (cached + 2 ^ 63) false 0x1000 pending 2 5 1 ≡ (
    if (cached / 2 ^ 63 == 0) && (cached / 2 ^ 61 % 4 == 3) && (cached + 2 ^ 63 == cached)
    then (discarded_word false 0x1000 pending 2 5 1 >>= λ w. ok (true, w))
    else ok (false, cached + 2 ^ 63))
try_discard_branches_example =
    try_discard_branches cached (cached + 2 ^ 63) false 0x1000 pending 2 5 1 (omega arith)
      (omega arith)

discarded_word_total_example : (w : ℕ) × (discarded_word false 0x1000 pending 2 5 1 ≡ ok w)
discarded_word_total_example =
    discarded_word_total false 0x1000 pending 2 5 1 (5 * 2 ^ 48 + 200) (omega arith) (omega arith)
      (omega arith) (omega arith) (λ _. (omega arith, refl)) (λ _. refl) refl

abbrev cleaned : ℕ
cleaned = word 2 0 5 3 200

unlock_cleaned : unlock_clean false (5 * 2 ^ 48 + 200) 5 3 ≡ ok cleaned
unfolding unlock_clean fits_in_page_state encode_discard_count is_regular_lsn lsn_offset
unlock_cleaned = refl

unlock_clean_round_trip_example :
    (is_locked cleaned ≡ false)
    × (get_state cleaned ≡ ok clean)
    × (as_lsn cleaned ≡ clean_lsn (5 * 2 ^ 48 + 200))
    × (get_discard_count cleaned ≡ ok 3)
    × (get_locked_fields true cleaned ≡ (clean_lsn (5 * 2 ^ 48 + 200), 0))
unlock_clean_round_trip_example =
    unlock_clean_round_trip false true (5 * 2 ^ 48 + 200) 5 3 cleaned (omega arith) unlock_cleaned

unlock_framed : unlock_bf 0x7000 ≡ ok cached
unfolding unlock_bf
unlock_framed = refl

-- Threads 0 and 1 load the word, then thread 0 latches it.
abbrev latched : System
latched = record {
  raw = 2 ^ 63 + cached;
  pc = update (update (update (λ _. idle) 0 (loaded cached)) 1 (loaded cached)) 0 (holding cached);
}

latched-Reach : Reach cached latched
unfolding lock_round compare_exchange ℕ_discrete
latched-Reach = later (later (later start (pick 0 load)) (pick 1 load)) (pick 0 (latch refl))

latch_exclusive_example :
    ((i j v u : ℕ) → latched.pc i ≡ holding v → latched.pc j ≡ holding u → i ≡ j)
    × ((i v : ℕ)
        → latched.pc i ≡ holding v
        → (is_locked latched.raw ≡ true) × (latched.raw ≡ 2 ^ 63 + v))
    × (is_locked latched.raw ≡ true → (i : ℕ) × (v : ℕ) × (latched.pc i ≡ holding v))
latch_exclusive_example = latch_exclusive (omega arith) latched-Reach
