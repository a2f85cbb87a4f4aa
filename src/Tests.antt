-- ===== src/Tests.antt =====
-- Runs of the components at concrete inputs.
mod Coordinator
mod Guard
mod Playback
mod Queue
mod Files
mod Synced
mod Account
mod Choices
mod Cached
mod Disk
mod Categories
