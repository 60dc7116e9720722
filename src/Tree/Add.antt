-- ===== src/Tree/Add.antt =====
-- add of thread_safe_tree.c.
pub mod Steps
pub mod Insert
