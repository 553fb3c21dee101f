-- ===== src/Tests.antt =====
-- Runs of the components on concrete inputs, and the theorems applied to them.
mod CircuitBreaker
mod RetryPolicy
mod RateLimiter
mod AdapterSaga
mod SagaManager
mod DlqHandler
mod EventStore
mod QuotaEnforcer
mod CoordinatedCancellation
mod FailoverManager
mod WorkflowLoader
mod WorkflowLoading
mod ToolAdapter
mod TimeoutManager
mod CostCeilingManager
mod RequestHedging
mod ResiliencePatterns
