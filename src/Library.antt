-- ===== src/Library.antt =====
-- The generated library on disk: api/app/library.
pub mod Journal
pub mod Health
pub mod Entries
pub mod Overrides
