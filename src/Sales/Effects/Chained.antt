-- ===== src/Sales/Effects/Chained.antt =====
-- What `prepare` and `submit` fill in: the counter value, the hash before and the hash.
use alfahd_erp_system.Prelude.{ℕ, ◌≡◌, Bool, true, false, arith, String, ok, bind-eq-ok}
use mathlib.Core.Path.{subst}
use alfahd_erp_system.Zatca.Entities.{InvoiceData, SubmissionResult}
use alfahd_erp_system.Zatca.Processor.{
  Toolkit, PreparedInvoice, prepare, compute_invoice_hash, submit, submit_prepared,
}
use alfahd_erp_system.Zatca.Qr.{build_qr_payload}
use alfahd_erp_system.Sales.Store.{ZatcaSubmission}
use alfahd_erp_system.Sales.Submission.{pending_result, submit_or_prepare}

-- The hash of a submission is that of the hash before it and of a document with its counter value.
abbrev pub IsHashed : Toolkit → ZatcaSubmission → Type 0
IsHashed k s =
    (d : InvoiceData) × (s.invoice_hash
      ≡ compute_invoice_hash k (k.invoice_xml d s.uuid_value s.icv) s.previous_hash)

-- What `prepare` and `submit` fill in alike.
abbrev pub IsChained : Toolkit → InvoiceData → String → ℕ → ℕ → String → ℕ → String → Type 0
IsChained k d previous_hash icv icv' previous' uuid hash =
    (icv' ≡ icv)
    × (previous' ≡ previous_hash)
    × (hash ≡ compute_invoice_hash k (k.invoice_xml d uuid icv) previous_hash)

prepare-IsChained :
    (k : Toolkit) (uuid : ℕ) (d : InvoiceData) (previous_hash : String) (icv : ℕ)
    {p : PreparedInvoice}
    → prepare k uuid d previous_hash icv ≡ ok p
    → IsChained k d previous_hash icv p.icv p.previous_hash p.uuid_value p.invoice_hash
unfolding prepare
prepare-IsChained k uuid d previous_hash icv h =
    let (qr, e, h₁) = bind-eq-ok (build_qr_payload k.encodings _) _ h in
    (ground arith, ground arith, ground arith)

submit_prepared-IsChained :
    (k : Toolkit) (d : InvoiceData) (previous_hash : String) (icv : ℕ) (p : PreparedInvoice)
    (mode : String) {r : SubmissionResult}
    → IsChained k d previous_hash icv p.icv p.previous_hash p.uuid_value p.invoice_hash
    → submit_prepared d p mode ≡ ok r
    → IsChained k d previous_hash icv r.icv r.previous_hash r.uuid_value r.invoice_hash
unfolding submit_prepared
submit_prepared-IsChained k d previous_hash icv p mode c h =
    (ground arith, ground arith, ground arith)

pub submit_or_prepare-IsChained :
    (k : Toolkit) (uuid : ℕ) (d : InvoiceData) (previous_hash : String) (icv : ℕ) (mode : String)
    (now : Bool) {r : SubmissionResult}
    → submit_or_prepare k uuid d previous_hash icv mode now ≡ ok r
    → IsChained k d previous_hash icv r.icv r.previous_hash r.uuid_value r.invoice_hash
unfolding submit_or_prepare submit
submit_or_prepare-IsChained k uuid d previous_hash icv mode false {r} h =
    let (p, e, h₁) = bind-eq-ok (prepare k uuid d previous_hash icv) _ h in
    let c = prepare-IsChained k uuid d previous_hash icv e in
    let same : pending_result p ≡ r = ground arith in
    subst
      (λ (r : SubmissionResult).
        IsChained k d previous_hash icv r.icv r.previous_hash r.uuid_value r.invoice_hash)
      same c
submit_or_prepare-IsChained k uuid d previous_hash icv mode true h =
    let (p, e, h₁) = bind-eq-ok (prepare k uuid d previous_hash icv) _ h in
    submit_prepared-IsChained k d previous_hash icv p mode
      (prepare-IsChained k uuid d previous_hash icv e) h₁
