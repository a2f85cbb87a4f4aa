-- ===== src/Aiostreams.antt =====
-- api/app/providers/aiostreams
pub mod ResultCache
