-- ===== src/Recall.antt =====
-- apps/recall: the approval, the execution and the completion of a recall.
pub mod Service
pub mod Blocking
pub mod Naming
pub mod Execution
pub mod Completion
mod Tests
