-- ===== src/Utils.antt =====
-- libs/utils
pub mod ResiliencePatterns
