-- ===== src/Audit.antt =====
-- apps/integrated_scheduling/mps_decision_audit.py: the hash chain of a decision's audit events.
pub mod Chain
pub mod Append
pub mod Tamper
mod Tests
