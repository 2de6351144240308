-- ===== src/Btree.antt =====
-- backend/leanstore/storage/btree/core: the nodes of a B-tree.
pub mod Key
pub mod Node
