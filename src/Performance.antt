-- ===== src/Performance.antt =====
-- libs/performance
pub mod CostCeilingManager
