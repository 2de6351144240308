-- ===== src/Partition.antt =====
-- storage/buffer-manager/Partition.{hpp,cpp} and FreeList.{hpp,cpp}: the page identifiers of a
-- partition, its frames in transit (Partition/HashTable), and its free buffer frames.
pub mod HashTable
pub mod FreeList
pub mod Pids
pub mod Tests
use epsilon_db.Base.{
  ℕ, zero, suc, ◌+◌, ◌-◌, ◌/◌, ◌%◌, ◌^◌, Bool, true, false, Option, none, some, List, [], ◌∷◌, ltb,
  if◌then◌else◌, length,
}
use epsilon_db.Units.{invalid_pid}
use epsilon_db.CompressedSpace.{unmapped_ru_epoch}

-- A page identifier with the epoch and the handle of the reclaim unit where the page last was.
pub record FreedPid : Type 0 where
  pub pid : ℕ
  pub ru_epoch : ℕ
  pub ruh : ℕ

abbrev pub unmapped_ruh : ℕ
unmapped_ruh = 2 ^ 8 - 1

-- The back of the vector `freed_pids` is the front of the list.
pub record Partition : Type 0 where
  pub pid_distance : ℕ
  pub freed_pids : List FreedPid
  pub next_pid : ℕ
  pub max_pid : ℕ

-- Partition(first_pid, pid_distance, max_pid, _).
pub new_partition : ℕ → ℕ → ℕ → Partition
new_partition first_pid pid_distance max_pid = record {
  pid_distance = pid_distance;
  freed_pids = [];
  next_pid = first_pid;
  max_pid = max_pid;
}

abbrev pub unmapped : ℕ → FreedPid
unmapped pid = record { pid = pid; ru_epoch = unmapped_ru_epoch; ruh = unmapped_ruh }

-- The part of `nextPID` where no page was freed.
pub take_fresh : Partition → FreedPid × Partition
take_fresh p =
    if ltb p.next_pid p.max_pid
    then (unmapped p.next_pid, record p { next_pid = (p.next_pid + p.pid_distance) % 2 ^ 64 })
    else (unmapped invalid_pid, p)

-- `nextPID`.
pub take_next : Partition → FreedPid × Partition
take_next p = elim p.freed_pids [ f ∷ fs ↦ (f, record p { freed_pids = fs }) | [] ↦ take_fresh p ]

pub free_page : Partition → FreedPid → Partition
free_page p f = record p { freed_pids = f ∷ p.freed_pids }

pub allocated_pages : Partition → ℕ
allocated_pages p = p.next_pid / p.pid_distance

pub freed_pages : Partition → ℕ
freed_pages p = length p.freed_pids
