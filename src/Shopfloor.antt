-- ===== src/Shopfloor.antt =====
-- apps/shopfloor: the sign-in of an operator at a terminal.
pub mod Machines
pub mod Stops
pub mod Operators
pub mod Lockout
mod Tests
