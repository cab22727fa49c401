-- ===== src/Schemas.antt =====
-- backend/app/schemas.py: the records of the control plane. A time is a number of microseconds.
-- Fields that only carry text for display are left out (titles, objectives, rationales, messages,
-- timestamps of audit entries); each record names the ones that it leaves out.
mod Status
mod Plan
mod Run
pub use Status.*
pub use Plan.*
pub use Run.*
