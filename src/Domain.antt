-- ===== src/Domain.antt =====
-- api/app/domain
pub mod MediaIdentity
pub mod Normalization
