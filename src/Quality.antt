-- ===== src/Quality.antt =====
-- apps/quality: inspection of received quantities and disposition of what was rejected.
pub mod Model
pub mod Service
pub mod Writes
pub mod Orders
pub mod Results
pub mod Completion
pub mod Dispositions
pub mod Sound
mod Tests
