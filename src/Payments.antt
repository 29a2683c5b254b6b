-- ===== src/Payments.antt =====
-- backend/src/modules/payments: payments, what they settle, and what they post.
pub mod Store
pub mod Recording
pub mod Allocations
pub mod Limits
pub mod Posting
pub mod Subledger
