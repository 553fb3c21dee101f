-- ===== src/Adapters.antt =====
-- libs/adapters: resilience patterns around calls of external tools.
pub mod CircuitBreaker
pub mod RetryPolicy
pub mod RateLimiter
pub mod Saga
