-- ===== src/Inventory.antt =====
-- The stock ledger: apps/inventory/models.py and apps/inventory/services.py.
pub mod Model
pub mod Service
pub mod Balances
pub mod Stages
pub mod Effect
pub mod Enter
pub mod Keys
pub mod Posting
pub mod Ledger
pub mod Issues
mod Tests
