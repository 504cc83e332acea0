-- ===== src/Db.antt =====
-- The key-value databases: db_simple over a red-black tree, db_lock over 255 of them.
pub mod Tree
pub mod Simple
pub mod Hash
pub mod Lock
pub mod Parallel
