-- ===== src/Sales/Effects/Documents.antt =====
-- What a call that issues a document leaves in the tables of Sales: one invoice more, one submission
-- more, and whatever the stock and the books went through.
use alfahd_erp_system.Prelude.{
  ℕ, ◌≡◌, refl, Bool, false, List, ◌∷◌, arith, String, any, keep, ok, bind-eq-ok, raise_if-eq-ok,
}
use alfahd_erp_system.Sales.Effects.Chained.{IsHashed, submit_or_prepare-IsChained}
use mathlib.Core.Path.{subst}
use alfahd_erp_system.Zatca.Entities.{InvoiceData}
use alfahd_erp_system.Zatca.Processor.{Toolkit}
use alfahd_erp_system.Sales.Store.{SalesInvoice, ZatcaSubmission, SalesBook}
use alfahd_erp_system.Sales.Submission.{
  submission_row, latest_zatca_submission, next_icv_and_previous_hash, for_invoice, of_company,
  latest, after, submit_or_prepare, run_zatca_pipeline,
}

-- The submission of an invoice, next in its company's chain.
pub record IsRecorded (k : Toolkit) (c i : ℕ) (is : List SalesInvoice) (ss : List ZatcaSubmission)
    (s : ZatcaSubmission) : Type 0 where
  pub fresh : any (for_invoice i) ss ≡ false
  pub owner : s.sales_invoice_id ≡ i
  pub counter : s.icv ≡ (after k (latest (keep (of_company c is) ss))).0
  pub previous : s.previous_hash ≡ (after k (latest (keep (of_company c is) ss))).1
  pub hash : IsHashed k s

pub run_zatca_pipeline-IsRecorded :
    (k : Toolkit) (uuid : ℕ) (d : InvoiceData) (v : SalesInvoice) (mode : String) (now : Bool)
    (b : SalesBook) {s : ZatcaSubmission} {b' : SalesBook}
    → run_zatca_pipeline k uuid d v mode now b ≡ ok (s, b')
    → IsRecorded k v.company_id v.id b.invoices b.submissions s
      × (b' ≡ record b { submissions = s ∷ b.submissions })
unfolding run_zatca_pipeline next_icv_and_previous_hash latest_zatca_submission
run_zatca_pipeline-IsRecorded k uuid d v mode now b {s} {b'} h =
    let x = after k (latest (keep (of_company v.company_id b.invoices) b.submissions)) in
    let (r, e, h₁) = bind-eq-ok (submit_or_prepare k uuid d x.1 x.0 mode now) _ h in
    let (fresh, h₂) = raise_if-eq-ok _ _ _ h₁ in
    let (counter, previous, hash) = submit_or_prepare-IsChained k uuid d x.1 x.0 mode now e in
    let same : (
      submission_row v mode r,
      record b { submissions = submission_row v mode r ∷ b.submissions },
    )
        ≡ (s, b') =
      ground arith in
    subst
      (λ (y : ZatcaSubmission × SalesBook).
        IsRecorded k v.company_id v.id b.invoices b.submissions y.0
        × (y.1 ≡ record b { submissions = y.0 ∷ b.submissions }))
      same
      (
        record {
          fresh = fresh;
          owner = refl;
          counter = counter;
          previous = previous;
          hash = (d, rw (counter, previous) hash);
        },
        refl,
      )
