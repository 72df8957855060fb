-- ===== src/Production.antt =====
-- apps/production: the operations of a work order.
pub mod Operations
pub mod Moves
pub mod Advance
pub mod Sound
mod Tests
