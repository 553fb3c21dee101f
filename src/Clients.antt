-- ===== src/Clients.antt =====
-- The clients of libs/clients that decide by themselves.
pub mod QuotaEnforcer
pub mod Http
