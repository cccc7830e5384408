-- ===== src/Local.antt =====
-- internal/vfs/local: the files below a directory.
pub mod Roots
pub mod Lookups
mod Tests
