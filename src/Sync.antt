-- ===== src/Sync.antt =====
-- Synchronisation with the TorBox account: api/app/sync.
pub mod Scheduler
pub mod TorboxStrm
pub mod Runs
pub mod Service
