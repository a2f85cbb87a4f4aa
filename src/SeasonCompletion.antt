-- ===== src/SeasonCompletion.antt =====
-- api/app/season_completion
pub mod Ranking
