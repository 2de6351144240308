-- ===== src/Lib.antt =====
-- epsilonDB, an OLTP storage engine that discards dirty pages and rebuilds them from log records.
--
-- Parts of the program and the files that model them. Paths are from the root of the repository;
-- BM stands for backend/leanstore/storage/buffer-manager.
--
-- * Units.antt models shared-headers/Units.hpp: a log sequence number (LSN) is a u64 of a log id
--   and an offset.
-- * PageState.antt models BM/PageState.hpp and .cpp: where a page is (free, discarded, clean,
--   cached) in one atomic u64. The word is a native number and every operation is a function of the
--   word it reads; `compare_exchange` is a function of the word it finds. Its children are Word and
--   Fields (the word as arithmetic), Discard (tryDiscard), Publish (unlockClean, unlockBF, lock and
--   unlock), and Latching, a step relation over any number of threads whose loads and
--   compare-exchanges interleave.
-- * Swip.antt models BM/Swip.hpp: the word in a parent that is the address of a frame or, once
--   evicted, a page id with the RU epoch and the number of pending log records. Its child is
--   Transitions.
-- * CompressedSpace.antt models the class CompressedSpace of BM/CompressedSpace.hpp and .cpp:
--   which 4 KiB blocks are free, open or sealed, and how many bytes of each are live. Arrays indexed
--   by block are functions, vectors are lists, `tls_writer_thread_id` is an optional argument. Cpid
--   is the location of a page (block, offset, length in one u64). Invariant says that every block is
--   in one free list, or unused, or not free; Allocate, Reserve and Raw are about the allocations;
--   Recovery is the file that persist writes and recover reads; Ledger is the abstract view, the
--   list of the pages on the device, of which the live bytes are the sums.
-- * Packer.antt models the class BlockPacker of the same files, which packs pages into blocks that
--   it takes from a space: `place` calls `allocate_block`, `seal` calls `seal_block`. Codec is
--   compressPage and decompressPage, Fit the search for a block, Place what a call of `place` does.
-- * LbaChain.antt models BM/LBAChain.hpp and .cpp with compressed pages: the blocks written to an
--   RU epoch are recorded in a ring of chain blocks in memory, which are sealed to raw blocks of the
--   space as a linked list per RU epoch. The device is a function from PIDs to chain blocks; the
--   loops that wait for another thread are functions that say that they wait. Disk is the linked
--   list, Filling the entries of one block, Closing the writers that come to a closed one, History
--   what a reader finds of what was recorded.
--
-- * Btree.antt models the nodes of backend/leanstore/storage/btree/core: Key the comparison of keys
--   and their heads, Node the slotted node of BTreeNode.hpp and .cpp. The bytes of a slot's key and
--   payload are lists in the slot, and the offsets and sizes are kept beside them in 16 bits. Search
--   is `lowerBound` with its hints and heads, `insert` and `remove`; Contents the abstract view, the
--   sorted list of full keys with their payloads; Heap where the bytes lie, Space the room that an
--   insert takes; Split is `findSep`, `getSep`, `split` and `merge`; Payload the other operations.
--   The asserts on room that copying slots and setting fences make are `half_fits` for `split`;
--   `merge` and `compactify` leave them out.
-- * Latch.antt models backend/leanstore/sync-primitives/Latch.hpp: the hybrid latch, with guards
--   whose single accesses interleave. Invariant and Exclusion are about mutual exclusion,
--   Validation about `recheck` of an optimistic guard.
-- * Partition.antt models BM/Partition.hpp and .cpp and BM/FreeList.hpp and .cpp: Pids the page
--   identifiers of a partition, HashTable the table of frames in transit, FreeList the list of free
--   frames.
-- * Concurrency.antt models backend/leanstore/concurrency-recovery: CommitTree the tree of a
--   worker's commits (Worker.hpp, ConcurrencyControl.cpp), with its binary search (Search) and
--   cleanIfNecessary (Clean, Keep, Gather, Answers); Snapshots a step relation of any number of
--   workers whose accesses in startTX of Worker.cpp interleave with one worker's commits and
--   cleaning; Visibility what a read sees; Watermark refreshGlobalState and the part of
--   garbageCollection that takes the low watermarks over. The words that a waiting loop loads are a
--   list. `cleanIfNecessary` is one step of the relation, with what it may have read of workers
--   that went on meanwhile; transactions below snapshot isolation take no step there.
-- * RuEpoch.antt models BM/RUEpochDiscardSet.hpp and .cpp: the accounting of an RU epoch, the ring
--   of these sets (Ring), and where the persistent RU state keeps its elements (Persistent).
-- * SsdLayout.antt models BM/SSDLayout.hpp and .cpp: Regions what computeSSDLayout hands out, Stored
--   what a reopened database is checked against. Align is upAlign and downAlign of
--   backend/leanstore/utils/Misc.hpp.
--
-- Base passes on the library's names and adds Boolean tests, lists with native indices, and the
-- result type: `ensure` of the program is a failure `ensure_failed`, outOfSpace() is
-- `out_of_space`, SetupFailed is `setup_failed`, and an access out of the bounds of an array is
-- `undefined_behaviour`, a loop that has to wait longer is `waiting`, and UNREACHABLE() is
-- `unreachable`. Bits is the arithmetic of the bit operations that the words are built with.
--
-- Machine integers keep their wrap-around (`% 2 ^ 64`, `% 2 ^ 32`); signed counters that the
-- program checks to be non-negative are natural numbers with that check written out. Flags are
-- arguments. Loops are structural recursion on a list or on the number of rounds left; `readChain`
-- takes a number of rounds, and one more than the blocks of the chain is enough.
--
-- Third-party code is a parameter: zstd is a pair of functions with its round trip as a
-- hypothesis, and the RU epoch that an LBA chain returns is an argument of the packer. Doubles are
-- a type with the results that the layout takes of them, and printing a number is a function with
-- its round trip as a hypothesis.
--
-- Not modelled: I/O, the statistics counters, mutexes (an operation of the space is one step),
-- the buffer manager and its threads but for the parts the chain changes, the B-tree operations
-- above the node, logging and recovery, the history tree with the purge of old versions, and
-- aborts.
pub mod Base
pub mod Bits
pub mod Units
pub mod PageState
pub mod Swip
pub mod CompressedSpace
pub mod LbaChain
pub mod Packer
pub mod Align
pub mod Btree
pub mod Concurrency
pub mod Latch
pub mod Partition
pub mod RuEpoch
pub mod SsdLayout
