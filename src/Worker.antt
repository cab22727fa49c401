-- ===== src/Worker.antt =====
-- backend/app/worker.py
pub mod Once
pub mod Settled
pub mod Owned
mod Examples
