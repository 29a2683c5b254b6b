-- ===== src/Zatca/Entities.antt =====
-- backend/src/modules/zatca/domain/entities.py: what Sales hands over and what it gets back.
use alfahd_erp_system.Prelude.{ℕ, Option, List, ℤ, String}

pub record InvoiceLineData : Type 0 where
  pub description : String
  pub quantity : ℤ
  pub unit_price : ℤ
  pub tax_rate_percent : ℤ
  pub line_total : ℤ
  pub tax_amount : ℤ

pub record InvoiceData : Type 0 where
  pub invoice_id : ℕ
  pub invoice_number : String
  pub invoice_type : String
  pub issue_datetime_iso : String
  pub seller_name : String
  pub seller_vat_number : String
  pub buyer_name : Option String
  pub buyer_vat_number : Option String
  pub currency_code : String
  pub subtotal_amount : ℤ
  pub tax_amount : ℤ
  pub total_amount : ℤ
  pub lines : List InvoiceLineData
  pub original_invoice_number : Option String

-- `INVOICE_STATUSES` of Sales, of which `SUBMISSION_STATUSES` are four.
pub data InvoiceStatus : Type 0 where
  draft pending_submission cleared reported rejected cancelled : InvoiceStatus

-- The answer of a gateway. Nothing reads the response's own text.
pub record GatewayResponse : Type 0 where
  pub status : InvoiceStatus
  pub error_message : Option String

pub record SubmissionResult : Type 0 where
  pub status : InvoiceStatus
  pub uuid_value : ℕ
  pub icv : ℕ
  pub previous_hash : String
  pub invoice_hash : String
  pub qr_payload : String
  pub xml_document : String
  pub error_message : Option String
