-- ===== src/Executor.antt =====
-- `ToolExecutor` of backend/app/tools.py: it runs one step of a plan by a tool client.
pub mod Execute
pub mod Once
mod Examples
