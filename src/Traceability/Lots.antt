-- ===== src/Traceability/Lots.antt =====
-- The lot half of apps/traceability/services.py.
pub mod Service
pub mod Balances
pub mod Effect
pub mod Posting
pub mod Sound
mod Tests
