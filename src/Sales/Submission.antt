-- ===== src/Sales/Submission.antt =====
-- The tax authority's chain of a company's invoices: `_next_icv_and_previous_hash` and
-- `_run_zatca_pipeline` of backend/src/modules/sales/application/services.py.
use alfahd_erp_system.Prelude.{
  ℕ, ◌+◌, Bool, ◌&&◌, Option, none, some, List, [], ◌∷◌, map, leb, ◌==◌, if◌then◌else◌, ℤ, ◌+ℤ◌,
  String, any, keep, Result, ok, ◌>>=◌, ◌>>◌, raise_if,
}
use alfahd_erp_system.Accounting.Entities.{Error, integrity_error}
use alfahd_erp_system.Zatca.Entities.{
  InvoiceData, InvoiceLineData, SubmissionResult, pending_submission,
}
use alfahd_erp_system.Zatca.Processor.{Toolkit, genesis_hash, PreparedInvoice, prepare, submit}
use alfahd_erp_system.Sales.Store.{SalesInvoice, SalesInvoiceLine, ZatcaSubmission, SalesBook}

-- `latest_zatca_submission_for_company`: of the submissions of the company's invoices, the one with the
-- greatest counter.
abbrev pub submits : ZatcaSubmission → ℕ → SalesInvoice → Bool
submits s c x = x.id == s.sales_invoice_id && x.company_id == c

abbrev pub of_company : ℕ → List SalesInvoice → ZatcaSubmission → Bool
of_company c invoices s = any (submits s c) invoices

abbrev pub later_of : ZatcaSubmission → Option ZatcaSubmission → ZatcaSubmission
later_of s none = s
later_of s (some t) = if leb t.icv s.icv then s else t

abbrev pub latest : List ZatcaSubmission → Option ZatcaSubmission
latest [] = none
latest (s ∷ ss) = some (later_of s (latest ss))

unfoldable pub latest_zatca_submission : ℕ → SalesBook → Option ZatcaSubmission
latest_zatca_submission c b = latest (keep (of_company c b.invoices) b.submissions)

abbrev pub after : Toolkit → Option ZatcaSubmission → ℕ × String
after k none = (1, genesis_hash k)
after k (some s) = (s.icv + 1, s.invoice_hash)

unfoldable pub next_icv_and_previous_hash : Toolkit → ℕ → SalesBook → ℕ × String
next_icv_and_previous_hash k c b = after k (latest_zatca_submission c b)

-- What the service knows about its company, and the time of the call as text.
pub record Seller : Type 0 where
  pub name : String
  pub vat_number : String
  pub toolkit : Toolkit

abbrev line_data : SalesInvoiceLine → InvoiceLineData
line_data l = record {
  description = l.description;
  quantity = l.qty;
  unit_price = l.unit_price;
  tax_rate_percent = l.tax_rate_percent;
  line_total = l.line_total;
  tax_amount = l.tax_amount;
}

abbrev pub invoice_data :
    Seller
    → String
    → SalesInvoice
    → String
    → Option String
    → List SalesInvoiceLine
    → ℤ
    → ℤ
    → InvoiceData
invoice_data seller now v partner_name partner_vat lines subtotal tax = record {
  invoice_id = v.id;
  invoice_number = v.number;
  invoice_type = v.invoice_type;
  issue_datetime_iso = now;
  seller_name = seller.name;
  seller_vat_number = seller.vat_number;
  buyer_name = some partner_name;
  buyer_vat_number = partner_vat;
  currency_code = "SAR";
  subtotal_amount = subtotal;
  tax_amount = tax;
  total_amount = subtotal +ℤ tax;
  lines = map line_data lines;
  original_invoice_number = none;
}

-- The result of an invoice that is reported later.
abbrev pub pending_result : PreparedInvoice → SubmissionResult
pending_result p = record {
  status = pending_submission;
  uuid_value = p.uuid_value;
  icv = p.icv;
  previous_hash = p.previous_hash;
  invoice_hash = p.invoice_hash;
  qr_payload = p.qr_payload;
  xml_document = p.xml_document;
  error_message = none;
}

unfoldable pub submit_or_prepare :
    Toolkit → ℕ → InvoiceData → String → ℕ → String → Bool → Result Error SubmissionResult
submit_or_prepare k uuid d previous_hash icv mode call_gateway_now =
    if call_gateway_now
    then submit k uuid d previous_hash icv mode
    else (do prepared ← prepare k uuid d previous_hash icv; ok (pending_result prepared))

abbrev pub submission_row : SalesInvoice → String → SubmissionResult → ZatcaSubmission
submission_row v mode r = record {
  company_id = v.company_id;
  sales_invoice_id = v.id;
  uuid_value = r.uuid_value;
  icv = r.icv;
  previous_hash = r.previous_hash;
  invoice_hash = r.invoice_hash;
  qr_payload = r.qr_payload;
  xml_document = r.xml_document;
  submission_mode = mode;
  status = r.status;
}

abbrev pub for_invoice : ℕ → ZatcaSubmission → Bool
for_invoice i s = s.sales_invoice_id == i

-- `_run_zatca_pipeline`; `ux_zatca_invoice` allows one submission for an invoice.
unfoldable pub run_zatca_pipeline :
    Toolkit
    → ℕ
    → InvoiceData
    → SalesInvoice
    → String
    → Bool
    → SalesBook
    → Result Error (ZatcaSubmission × SalesBook)
run_zatca_pipeline k uuid d v mode call_gateway_now b =
    let (icv, previous_hash) = next_icv_and_previous_hash k v.company_id b in
    do
      result ← submit_or_prepare k uuid d previous_hash icv mode call_gateway_now
      raise_if (any (for_invoice v.id) b.submissions) integrity_error
      let s = submission_row v mode result
      ok (s, record b { submissions = s ∷ b.submissions })
