-- ===== src/Planning.antt =====
-- apps/planning: lot sizing, and the scope of a net-change run.
pub mod Sizing
pub mod NetChange
pub mod Scope
mod Tests
