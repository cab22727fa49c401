-- ===== src/Policy.antt =====
-- The plan compiler of backend/app/policy.py and the tool registry of backend/app/tools.py.
pub mod Tools
pub mod Cycle
pub mod Acyclic
pub mod Fuel
pub mod Exact
pub mod Steps
pub mod Compiler
pub mod Legal
pub mod Accepted
pub mod Safety
mod Examples
