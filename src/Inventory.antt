-- ===== src/Inventory.antt =====
-- backend/src/modules/inventory: stock quantities and their valuation.
pub mod Store
pub mod Valuation
pub mod Moves
pub mod History
