-- ===== src/Resilience.antt =====
-- libs/resilience/tool_adapter_base.py: the tool adapters' base class and what it is made of.
pub mod CircuitBreaker
pub mod BulkheadPool
pub mod ToolAdapter
