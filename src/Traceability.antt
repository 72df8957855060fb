-- ===== src/Traceability.antt =====
-- apps/traceability.
pub mod Lots
pub mod Serials
