-- ===== src/Sales/Issuing.antt =====
-- `SalesInvoiceService` of backend/src/modules/sales/application/services.py: invoices from orders.
use text.Mathlib.Text.{◌==◌ as str_eq}
use alfahd_erp_system.Prelude.{
  ℕ, ◌+◌, Bool, true, false, ◌&&◌, not, Option, none, some, List, ◌∷◌, ◌++◌, map, ◌==◌,
  if◌then◌else◌, ℤ, ◌+ℤ◌, String, any, Result, ok, ◌>>=◌, ◌>>◌, raise_if, or_raise,
}
use alfahd_erp_system.Accounting.Entities.{integrity_error}
use alfahd_erp_system.MasterData.{Partner, get_partner}
use alfahd_erp_system.Zatca.Entities.{InvoiceStatus, pending_submission}
use alfahd_erp_system.Sales.Numbers.{next_invoice_number}
use alfahd_erp_system.Sales.Store.{
  has_sales_invoice_id, DocStatus, confirmed, partially_invoiced, done, SalesOrder, SalesOrderLine,
  SalesInvoice, SalesInvoiceLine, ZatcaSubmission, SalesBook, get_order_lines, replace_order,
  replace_invoice,
}
use alfahd_erp_system.Sales.Orders.{SalesError, books, value_error, is_empty, require_order}
use alfahd_erp_system.Sales.Lines.{
  InvoiceItem, select_lines, selected_line, price_lines, subtotal_of, tax_of, add_all_invoiced,
  all_invoiced, lift_books,
}
use alfahd_erp_system.Sales.Submission.{Seller, invoice_data, run_zatca_pipeline}
use alfahd_erp_system.Sales.Posting.{
  Caller, post_invoice_entry, record_invoice_commission, deduct_stock_for_lines,
}

-- `if partner.vat_number`
abbrev pub is_registered : Partner → Bool
is_registered p = elim p.vat_number [ none ↦ false | some t ↦ not (str_eq t "") ]

abbrev pub mode_of : Bool → String
mode_of clearance = if clearance then "clearance" else "reporting"

abbrev due_date_of : ℕ → Option ℕ → ℕ
due_date_of day none = day
due_date_of day (some credit_days) = day + credit_days

abbrev pub new_invoice : ℕ → ℕ → SalesOrder → Partner → String → ℤ → ℤ → SalesInvoice
new_invoice i branch o p number subtotal tax = record {
  id = i;
  company_id = o.company_id;
  branch_id = branch;
  partner_id = o.partner_id;
  sales_order_id = some o.id;
  original_invoice_id = none;
  invoice_type = if is_registered p then "tax" else "simplified";
  number = number;
  status = InvoiceStatus.draft;
  invoice_date = o.order_date;
  due_date = some (due_date_of o.order_date p.credit_days);
  subtotal_amount = subtotal;
  tax_amount = tax;
  total_amount = subtotal +ℤ tax;
  warehouse_id = o.warehouse_id;
  cost_center_id = o.cost_center_id;
  sales_rep_id = o.sales_rep_id;
  journal_entry_id = none;
}

-- `SalesInvoiceRepository.add`: `ux_sales_invoice_number` raises `number_taken`, the primary key an
-- `IntegrityError`.
abbrev has_number_of : SalesInvoice → SalesInvoice → Bool
has_number_of v x = x.company_id == v.company_id && str_eq x.number v.number

abbrev pub set_invoice_id : ℕ → SalesInvoiceLine → SalesInvoiceLine
set_invoice_id i l = record l { sales_invoice_id = i }

unfoldable pub add_invoice :
    SalesError → SalesInvoice → List SalesInvoiceLine → SalesBook → Result SalesError SalesBook
add_invoice number_taken v ls b = do
  raise_if (any (has_number_of v) b.invoices) number_taken
  raise_if (any (has_sales_invoice_id v.id) b.invoices) (books integrity_error)
  ok (record b {
    invoices = v ∷ b.invoices;
    invoice_lines = map (set_invoice_id v.id) ls ++ b.invoice_lines;
  })

abbrev pub retry : SalesError
retry = value_error "An invoice was created concurrently with the same number — please retry"

-- The quantities of the selected lines, and the order's status by its lines after that.
abbrev pub status_after : SalesOrder → List SalesOrderLine → DocStatus
status_after o ls = if all_invoiced ls then done else partially_invoiced

unfoldable pub fulfil : SalesOrder → List (SalesOrderLine × ℤ) → SalesBook → SalesBook
fulfil o selected b =
    let b' = record b { order_lines = add_all_invoiced selected b.order_lines } in
    record b' {
      orders =
          replace_order (record o { status = status_after o (get_order_lines o.id b') }) b.orders;
    }

abbrev pub is_invoiceable : DocStatus → Bool
is_invoiceable confirmed = true
is_invoiceable partially_invoiced = true
is_invoiceable _ = false

-- The authority's answer sets the status of an invoice that it clears at once.
abbrev pub status_of : Bool → ZatcaSubmission → InvoiceStatus
status_of clearance s = if clearance then s.status else pending_submission

-- What every document goes through once it is in the table: the submission, then the entry.
unfoldable pub submit_and_post :
    Seller
    → Caller
    → (ℕ → ℕ)
    → String
    → Bool
    → Bool
    → Partner
    → SalesInvoice
    → List SalesInvoiceLine
    → SalesBook
    → Result SalesError (SalesInvoice × ZatcaSubmission × SalesBook)
submit_and_post seller w uuid now clearance is_credit_note p v ls b = do
  (s, b') ← lift_books (
      run_zatca_pipeline seller.toolkit (uuid 1)
        (invoice_data seller now v p.name p.vat_number ls v.subtotal_amount v.tax_amount) v
        (mode_of clearance) clearance b)
  let v' = record v { status = status_of clearance s }
  (entry, journal) ← post_invoice_entry w is_credit_note (uuid 2) v' b'.books
  let v'' = record v' { journal_entry_id = some entry.id }
  ok (v'', s, record b' { invoices = replace_invoice v'' b'.invoices; books = journal })

-- What follows once the invoice and its order are in the tables.
unfoldable pub complete_invoice :
    Seller
    → Caller
    → (ℕ → ℕ)
    → String
    → Partner
    → SalesInvoice
    → List SalesInvoiceLine
    → SalesBook
    → Result SalesError (SalesInvoice × ZatcaSubmission × SalesBook)
complete_invoice seller w uuid now p v ls b = do
  (v', s, b') ← submit_and_post seller w uuid now (is_registered p) false p v ls b
  (stock', books') ← deduct_stock_for_lines w uuid 4 v' ls b'.master (b'.stock, b'.books)
  commissions' ← record_invoice_commission w false (uuid 3) v' none b'.commissions
  ok (v', s, record b' { stock = stock'; books = books'; commissions = commissions' })

unfoldable pub issue_invoice_from_order :
    Seller
    → Caller
    → (ℕ → ℕ)
    → String
    → ℕ
    → ℕ
    → Option (List InvoiceItem)
    → SalesBook
    → Result SalesError (SalesInvoice × ZatcaSubmission × SalesBook)
issue_invoice_from_order seller w uuid now order_id c items b = do
  o ← require_order order_id c b
  raise_if (not (is_invoiceable o.status))
      (value_error "Only a confirmed sales order can be invoiced")
  p ← or_raise (get_partner o.partner_id b.master) (value_error "Customer not found")
  selected ← select_lines items (get_order_lines order_id b)
  raise_if (is_empty (map selected_line selected)) (value_error "Nothing to invoice")
  ls ← price_lines c (map selected_line selected) b.master
  let v =
      new_invoice (uuid 0) w.branch_id o p (next_invoice_number c "tax" b) (subtotal_of ls)
        (tax_of ls)
  added ← add_invoice retry v ls b
  complete_invoice seller w uuid now p v ls (fulfil o selected added)
