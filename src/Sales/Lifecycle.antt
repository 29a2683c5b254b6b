-- ===== src/Sales/Lifecycle.antt =====
-- Sales over time: any sequence of calls of `QuotationService` and `SalesInvoiceService`.
pub mod Quantities
pub mod Effects
pub mod Chain
use alfahd_erp_system.Prelude.{ℕ, ◌≡◌, Bool, Option, List, String, ok}
use alfahd_erp_system.Zatca.Processor.{Toolkit}
use alfahd_erp_system.Sales.Store.{Quotation, SalesOrder, SalesInvoice, ZatcaSubmission, SalesBook}
use alfahd_erp_system.Sales.Orders.{
  LineIn, DocumentIn, create_quotation, update_quotation, confirm_to_sales_order, update_order,
  cancel_order,
}
use alfahd_erp_system.Sales.Lines.{InvoiceItem}
use alfahd_erp_system.Sales.Submission.{Seller}
use alfahd_erp_system.Sales.Posting.{Caller}
use alfahd_erp_system.Sales.Issuing.{issue_invoice_from_order}
use alfahd_erp_system.Sales.Crediting.{issue_credit_note, issue_credit_note_for_lines}

-- One committed call, by services with the tools k; the lines that an invoice asks for are such as
-- `Asks` allows. A call that raises commits nothing, so it is no step.
pub data SalesStep (k : Toolkit) (Asks : Option (List InvoiceItem) → Type 0) (b b' : SalesBook)
    : Type 0 where
  quotes :
      (wired : Bool) (uuid : ℕ → ℕ) (c branch : ℕ) (d : DocumentIn) (q : Quotation)
      → create_quotation wired uuid c branch d b ≡ ok (q, b')
      → SalesStep k Asks b b'
  edits_quotation :
      (wired : Bool) (i c : ℕ) (d : DocumentIn) (q : Quotation)
      → update_quotation wired i c d b ≡ ok (q, b')
      → SalesStep k Asks b b'
  confirms :
      (uuid : ℕ → ℕ) (i c : ℕ) (o : SalesOrder)
      → confirm_to_sales_order uuid i c b ≡ ok (o, b')
      → SalesStep k Asks b b'
  edits_order :
      (wired : Bool) (uuid : ℕ → ℕ) (i c : ℕ) (d : DocumentIn) (o : SalesOrder)
      → update_order wired uuid i c d b ≡ ok (o, b')
      → SalesStep k Asks b b'
  cancels :
      (i c : ℕ) (reason : String) (o : SalesOrder)
      → cancel_order i c reason b ≡ ok (o, b')
      → SalesStep k Asks b b'
  invoices :
      (seller : Seller) (w : Caller) (uuid : ℕ → ℕ) (now : String) (order c : ℕ)
      (items : Option (List InvoiceItem)) (v : SalesInvoice) (s : ZatcaSubmission)
      → seller.toolkit ≡ k
      → Asks items
      → issue_invoice_from_order seller w uuid now order c items b ≡ ok (v, s, b')
      → SalesStep k Asks b b'
  credits :
      (seller : Seller) (w : Caller) (uuid : ℕ → ℕ) (now : String) (today i c : ℕ) (restock : Bool)
      (v : SalesInvoice) (s : ZatcaSubmission)
      → seller.toolkit ≡ k
      → issue_credit_note seller w uuid now today i c restock b ≡ ok (v, s, b')
      → SalesStep k Asks b b'
  credits_lines :
      (seller : Seller) (w : Caller) (uuid : ℕ → ℕ) (now : String) (today partner c : ℕ)
      (lines : List LineIn) (i : Option ℕ) (restock : Bool) (v : SalesInvoice) (s : ZatcaSubmission)
      → seller.toolkit ≡ k
      → issue_credit_note_for_lines seller w uuid now today partner c lines i restock b
        ≡ ok (v, s, b')
      → SalesStep k Asks b b'

pub data SalesReach (k : Toolkit) (Asks : Option (List InvoiceItem) → Type 0) (b : SalesBook)
    : SalesBook → Type 0 where
  opening : SalesReach k Asks b b
  extended :
      {b' b'' : SalesBook}
      → SalesReach k Asks b b'
      → SalesStep k Asks b' b''
      → SalesReach k Asks b b''
