-- ===== src/Clients/Http.antt =====
-- libs/clients/http
pub mod CoordinatedCancellation
pub mod TimeoutManager
pub mod RequestHedging
