-- ===== src/Adapter.antt =====
-- The model adapter: backend/app/model_adapter.py.
pub mod Naming
pub mod Router
mod Examples
