-- ===== src/Purchasing.antt =====
-- Receipts of purchase orders: apps/purchasing/models.py and apps/purchasing/services.py.
pub mod Service
pub mod Steps
pub mod Lines
pub mod Status
pub mod Replay
pub mod Stored
pub mod Outcome
mod Tests
