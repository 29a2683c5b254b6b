-- ===== src/Accounting.antt =====
-- backend/src/modules/accounting: the general ledger.
pub mod Entities
pub mod Chart
pub mod Moving
pub mod Tax
pub mod Store
pub mod Entries
pub mod Ledger
pub mod GeneralLedger
pub mod Statements
pub mod TrialBalance
pub mod Lifecycle
