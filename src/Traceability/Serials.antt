-- ===== src/Traceability/Serials.antt =====
-- The serial half of apps/traceability/services.py.
pub mod Service
pub mod Posting
pub mod Sound
pub mod Genealogy
pub mod Lineage
mod Tests
