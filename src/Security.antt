-- ===== src/Security.antt =====
-- backend/app/security.py
pub mod Roles
pub mod Capability
pub mod Session
mod Examples
