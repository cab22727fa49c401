-- ===== src/Workflow.antt =====
-- The workflow of backend/app/agent.py.
pub mod Topological
pub mod Ordered
pub mod Complete
pub mod Total
pub mod Executable
pub mod Checks
pub mod Engine
pub mod Nodes
pub mod Act
pub mod Verify
pub mod Process
pub mod Steps
pub mod Approved
pub mod Free
pub mod Reach
pub mod Writes
pub mod Rank
pub mod Advance
pub mod Limit
pub mod Ended
pub mod Returns
pub mod Verified
pub mod Executed
pub mod Start
mod Trials
mod Examples
