-- ===== src/Zatca/Processor.antt =====
-- `ZatcaInvoiceProcessor` of backend/src/modules/zatca/application/zatca_service.py with the hash chain
-- of infrastructure/hash_chain.py and the gateway of infrastructure/gateways/sandbox_gateway.py.
use text.Mathlib.Text.{◌==◌ as str_eq}
use Prim.Native.String.{◌++◌}
use alfahd_erp_system.Prelude.{
  ℕ, Bool, none, some, ltb_ℤ, pos, if◌then◌else◌, String, Result, ok, err, ◌>>=◌,
}
use alfahd_erp_system.Accounting.Entities.{Error, value_error}
use alfahd_erp_system.Zatca.Entities.{
  InvoiceData, InvoiceStatus, cleared, reported, rejected, GatewayResponse, SubmissionResult,
}
use alfahd_erp_system.Zatca.Qr.{Encodings, QrFields, build_qr_payload}

-- What the processor is built on: the text encodings, base64 of SHA-256 of a text, the stamp of the
-- signing service, and the document that `build_invoice_xml` renders for a UUID and a counter value.
pub record Toolkit : Type 0 where
  pub encodings : Encodings
  pub sha256_base64 : String → String
  pub stamp : String → String
  pub invoice_xml : InvoiceData → ℕ → ℕ → String

abbrev pub genesis_hash : Toolkit → String
genesis_hash k = k.sha256_base64 "ERP-NUCLEUS-ZATCA-GENESIS"

unfoldable pub compute_invoice_hash : Toolkit → String → String → String
compute_invoice_hash k content previous_hash = k.sha256_base64 (previous_hash ++ content)

pub record PreparedInvoice : Type 0 where
  pub uuid_value : ℕ
  pub icv : ℕ
  pub previous_hash : String
  pub invoice_hash : String
  pub qr_payload : String
  pub xml_document : String

abbrev pub qr_fields : InvoiceData → String → QrFields
qr_fields d hash = record {
  seller_name = d.seller_name;
  vat_number = d.seller_vat_number;
  timestamp_iso = d.issue_datetime_iso;
  invoice_total = d.total_amount;
  vat_amount = d.tax_amount;
  invoice_hash_b64 = hash;
  include_phase2_placeholders = Bool.false;
}

abbrev pub signed_xml : String → String → String
signed_xml xml stamp =
    xml ++ ("<!-- CryptographicStampPlaceholder(NOT_ZATCA_COMPLIANT)=\"" ++ (stamp ++ "\" -->"))

-- `prepare`, with the UUID that it makes.
unfoldable pub prepare : Toolkit → ℕ → InvoiceData → String → ℕ → Result Error PreparedInvoice
prepare k uuid d previous_hash icv =
    let xml = k.invoice_xml d uuid icv in
    let hash = compute_invoice_hash k xml previous_hash in
    do
      qr ← build_qr_payload k.encodings (qr_fields d hash)
      ok (record {
        uuid_value = uuid;
        icv = icv;
        previous_hash = previous_hash;
        invoice_hash = hash;
        qr_payload = qr;
        xml_document = signed_xml xml (k.stamp xml);
      })

-- `SandboxZatcaGateway`: both methods, which differ in the status of what they accept.
abbrev pub accept_or_reject : InvoiceStatus → InvoiceData → GatewayResponse
accept_or_reject accepted d =
    if ltb_ℤ d.total_amount (pos 0)
    then record {
      status = rejected;
      error_message = some "Simulated validation error: total amount cannot be negative";
    }
    else record { status = accepted; error_message = none }

abbrev pub clear_invoice : InvoiceData → GatewayResponse
clear_invoice = accept_or_reject cleared

abbrev pub report_invoice : InvoiceData → GatewayResponse
report_invoice = accept_or_reject reported

abbrev pub submission_result : PreparedInvoice → GatewayResponse → SubmissionResult
submission_result p r = record {
  status = r.status;
  uuid_value = p.uuid_value;
  icv = p.icv;
  previous_hash = p.previous_hash;
  invoice_hash = p.invoice_hash;
  qr_payload = p.qr_payload;
  xml_document = p.xml_document;
  error_message = r.error_message;
}

unfoldable pub submit_prepared :
    InvoiceData → PreparedInvoice → String → Result Error SubmissionResult
submit_prepared d p mode =
    if str_eq mode "clearance"
    then ok (submission_result p (clear_invoice d))
    else (if str_eq mode "reporting"
        then ok (submission_result p (report_invoice d))
        else err (value_error "Unknown submission mode"))

unfoldable pub submit :
    Toolkit → ℕ → InvoiceData → String → ℕ → String → Result Error SubmissionResult
submit k uuid d previous_hash icv mode = do
  prepared ← prepare k uuid d previous_hash icv
  submit_prepared d prepared mode
