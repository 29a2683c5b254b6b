-- ===== src/Zatca.antt =====
-- backend/src/modules/zatca: the package of an invoice for the tax authority.
pub mod Entities
pub mod Qr
pub mod Processor
