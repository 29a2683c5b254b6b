-- ===== src/Sales/Effects/Calls.antt =====
-- The three calls that issue a document, each opened.
use mathlib.Core.Path.{subst}
use alfahd_erp_system.Prelude.{
  ℕ, ◌≡◌, ap, ◌∙◌, not, false, Option, none, List, ◌∷◌, map, arith, ℤ, String, keep, ok, bind-eq-ok,
  any, raise_if-eq-ok, or_raise-eq-ok,
}
use alfahd_erp_system.MasterData.{Partner, get_partner}
use alfahd_erp_system.Sales.Store.{
  has_sales_invoice_id, SalesInvoiceLine, SalesInvoice, SalesOrderLine, ZatcaSubmission, SalesBook,
  get_order_lines, of_order,
}
use alfahd_erp_system.Sales.Orders.{require_order, is_empty}
use alfahd_erp_system.Sales.Lines.{
  InvoiceItem, select_lines, selected_line, price_lines, add_all_invoiced, subtotal_of, tax_of,
}
use alfahd_erp_system.Sales.Submission.{Seller}
use alfahd_erp_system.Sales.Posting.{Caller, deduct_stock_for_lines, record_invoice_commission}
use alfahd_erp_system.Sales.Issuing.{
  is_invoiceable, complete_invoice, add_invoice, fulfil, is_registered, issue_invoice_from_order,
  submit_and_post, new_invoice, retry,
}
use alfahd_erp_system.Sales.Numbers.{next_invoice_number}
use alfahd_erp_system.Sales.Effects.{deduct_stock_for_lines-Moves}
use alfahd_erp_system.Sales.Effects.Issued.{IsIssued, IsIssued-of, add_invoice-eq-ok}

-- The order lines after an invoice: the selected ones are counted up.
pub record IsInvoiced (items : Option (List InvoiceItem)) (order : ℕ) (b : SalesBook)
    (after : List SalesOrderLine) : Type 0 where
  pub selected : List (SalesOrderLine × ℤ)
  pub selects : select_lines items (keep (of_order order) b.order_lines) ≡ ok selected
  pub counted : after ≡ add_all_invoiced selected b.order_lines

-- The tables that a completion starts from: the caller's, with the new row.
pub record IsAdded (b mid : SalesBook) (v : SalesInvoice) : Type 0 where
  pub fresh : any (has_sales_invoice_id v.id) b.invoices ≡ false
  pub invoices : mid.invoices ≡ v ∷ b.invoices
  pub submissions : mid.submissions ≡ b.submissions
  pub stock : mid.stock ≡ b.stock
  pub books : mid.books ≡ b.books

complete_invoice-IsIssued :
    (seller : Seller) (w : Caller) (uuid : ℕ → ℕ) (now : String) (p : Partner) (v : SalesInvoice)
    (ls : List SalesInvoiceLine) (b mid : SalesBook)
    {x : SalesInvoice × ZatcaSubmission × SalesBook}
    → IsAdded b mid v
    → complete_invoice seller w uuid now p v ls mid ≡ ok x
    → IsIssued seller.toolkit b x × (x.2.order_lines ≡ mid.order_lines)
unfolding complete_invoice
complete_invoice-IsIssued seller w uuid now p v ls b mid {x} a h =
    let ((v', s, b'), e, h₁) =
      bind-eq-ok (submit_and_post seller w uuid now (is_registered p) false p v ls mid) _ h in
    let ((stock', books'), ed, h₂) =
      bind-eq-ok (deduct_stock_for_lines w uuid 4 v' ls b'.master (b'.stock, b'.books)) _ h₁ in
    let (cm, ec, h₃) =
      bind-eq-ok (record_invoice_commission w false (uuid 3) v' none b'.commissions) _ h₂ in
    let whole : (v', s, record b' { stock = stock'; books = books'; commissions = cm }) ≡ x =
      ground arith in
    subst
      (λ (y : SalesInvoice × ZatcaSubmission × SalesBook).
        IsIssued seller.toolkit b y × (y.2.order_lines ≡ mid.order_lines))
      whole
      (IsIssued-of seller w uuid now (is_registered p) false p v ls b mid b' stock' books' cm
        a.fresh a.invoices a.submissions a.stock a.books e
        (deduct_stock_for_lines-Moves w uuid 4 v' ls b'.master (b'.stock, b'.books) ed))

pub issue_invoice_from_order-IsIssued :
    (seller : Seller) (w : Caller) (uuid : ℕ → ℕ) (now : String) (order c : ℕ)
    (items : Option (List InvoiceItem)) (b : SalesBook)
    {x : SalesInvoice × ZatcaSubmission × SalesBook}
    → issue_invoice_from_order seller w uuid now order c items b ≡ ok x
    → IsIssued seller.toolkit b x × IsInvoiced items order b x.2.order_lines
unfolding issue_invoice_from_order get_order_lines fulfil
issue_invoice_from_order-IsIssued seller w uuid now order c items b {x} h =
    let (o, eo, h₁) = bind-eq-ok (require_order order c b) _ h in
    let (open', h₂) = raise_if-eq-ok (not (is_invoiceable o.status)) _ _ h₁ in
    let (p, ep, h₃) = or_raise-eq-ok (get_partner o.partner_id b.master) _ _ h₂ in
    let (sel, es, h₄) = bind-eq-ok (select_lines items (get_order_lines order b)) _ h₃ in
    let (some_there, h₅) = raise_if-eq-ok (is_empty (map selected_line sel)) _ _ h₄ in
    let (ls, el, h₆) = bind-eq-ok (price_lines c (map selected_line sel) b.master) _ h₅ in
    let v =
      new_invoice (uuid 0) w.branch_id o p (next_invoice_number c "tax" b) (subtotal_of ls)
        (tax_of ls) in
    let (added, ea, h₇) = bind-eq-ok (add_invoice retry v ls b) _ h₆ in
    let (fresh, is, ss, ol, st, bk) = add_invoice-eq-ok retry v ls b ea in
    let a : IsAdded b (fulfil o sel added) v = record {
      fresh = fresh;
      invoices = is;
      submissions = ss;
      stock = st;
      books = bk;
    } in
    let (issued, lines) =
      complete_invoice-IsIssued seller w uuid now p v ls b (fulfil o sel added) a h₇ in
    (
      issued,
      record { selected = sel; selects = es; counted = lines ∙ ap (add_all_invoiced sel) ol },
    )
