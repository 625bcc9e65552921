-- ===== src/Contexts.antt =====
-- contexts/: contexts of the standard library's `context`.
pub mod Merge
