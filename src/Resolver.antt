-- ===== src/Resolver.antt =====
-- api/app/resolver and the playback endpoint that uses it.
pub mod FailureGuard
pub mod TargetCache
pub mod Play
pub mod Recovery
