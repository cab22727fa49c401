-- ===== src/Store.antt =====
-- backend/app/store.py
pub mod Table
pub mod Db
pub mod Runs
pub mod Jobs
pub mod LifeCycle
pub mod Update
pub mod Claim
pub mod Calls
pub mod Versions
pub mod History
pub mod Fencing
pub mod Queue
pub mod Settle
pub mod LostUpdate
pub mod Postgres
pub mod Backends
mod Examples
