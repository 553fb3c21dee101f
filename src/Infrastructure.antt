-- ===== src/Infrastructure.antt =====
-- libs/infrastructure
pub mod FailoverManager
