-- ===== src/Concurrency.antt =====
-- backend/leanstore/concurrency-recovery: the snapshots of the workers and what a transaction
-- sees, Worker.hpp, ConcurrencyControl.cpp, Transaction.hpp and the parts of Worker.cpp that start
-- a transaction and commit it.
pub mod CommitTree
pub mod Snapshots
pub mod Visibility
pub mod Watermark
pub mod Tests
