-- ===== src/Reliability.antt =====
-- libs/reliability: sagas over tool adapters.
pub mod SagaManager
