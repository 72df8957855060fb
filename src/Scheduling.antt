-- ===== src/Scheduling.antt =====
-- apps/integrated_scheduling: the calendar engine's windows.
pub mod Windows
pub mod Merging
mod Tests
