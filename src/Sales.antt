-- ===== src/Sales.antt =====
-- backend/src/modules/sales: quotations, orders, invoices and credit notes.
pub mod Store
pub mod Orders
pub mod Lines
pub mod Submission
pub mod Posting
pub mod Restock
pub mod Numbers
pub mod Issuing
pub mod Crediting
pub mod Quantities
pub mod Effects
pub mod Lifecycle
