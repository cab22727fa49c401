-- ===== src/Approval.antt =====
-- The approval of a plan in backend/app/agent.py: the risk gate, the votes, cancelling and retrying,
-- and the principal that executes. A method reads the run, changes its copy and saves it.
pub mod Gate
pub mod Vote
pub mod Actions
pub mod Ballots
pub mod Quorum
pub mod Execution
pub mod Decide
mod Examples
