-- ===== src/Maintenance.antt =====
-- apps/maintenance: work orders of maintenance, the stops of machines that they open and close, and
-- the parts that they reserve and issue.
pub mod Model
pub mod Orders
pub mod Completion
pub mod Stops
pub mod Cycle
pub mod Lifecycle
pub mod Preventive
pub mod Coverage
pub mod Numbers
pub mod Parts
pub mod Backing
pub mod Reserving
pub mod Fulfilment
pub mod Reserved
pub mod Release
pub mod Supply
pub mod Issuing
pub mod Released
pub mod Withdrawal
pub mod Issued
mod Tests
