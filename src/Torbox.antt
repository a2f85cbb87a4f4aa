-- ===== src/Torbox.antt =====
-- api/app/providers/torbox
pub mod Runtime
pub mod ManifestCache
pub mod Files
