-- ===== src/Workflows.antt =====
-- The workflow specifications.
pub mod Json
pub mod WorkflowLoader
