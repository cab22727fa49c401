-- ===== src/Lab.antt =====
-- The fault lab: the experiments that the tools act on, in the client of backend/app/tools.py and in the
-- service of ops_sandbox/app.py.
pub mod Faults
pub mod Memory
pub mod Replay
pub mod Service
pub mod Uses
pub mod Charges
pub mod Retry
mod Examples
