-- ===== src/Sales/Crediting.antt =====
-- `SalesInvoiceService` of backend/src/modules/sales/application/services.py: credit notes.
use text.Mathlib.Text.{◌==◌ as str_eq}
use alfahd_erp_system.Prelude.{
  ℕ, Bool, true, ◌||◌, not, Option, none, some, List, ◌==◌, if◌then◌else◌, ℤ, ◌+ℤ◌, String, Result,
  ok, ◌>>=◌, ◌>>◌, raise_if, or_raise,
}
use alfahd_erp_system.Accounting.Entities.{integrity_error}
use alfahd_erp_system.MasterData.{Partner, Warehouse, get_partner, get_default_for_company}
use alfahd_erp_system.Zatca.Entities.{InvoiceStatus}
use alfahd_erp_system.Sales.Numbers.{next_invoice_number}
use alfahd_erp_system.Sales.Issuing.{is_registered, retry, submit_and_post, add_invoice}
use alfahd_erp_system.Sales.Store.{
  SalesInvoice, SalesInvoiceLine, ZatcaSubmission, SalesBook, get_sales_invoice, get_invoice_lines,
}
use alfahd_erp_system.Sales.Orders.{SalesError, books, value_error, LineIn, is_empty}
use alfahd_erp_system.Sales.Lines.{price_lines, subtotal_of, tax_of, lift_books}
use alfahd_erp_system.Sales.Submission.{Seller}
use alfahd_erp_system.Sales.Posting.{Caller, record_invoice_commission}
use alfahd_erp_system.Sales.Restock.{restock_for_credit_note, restock_for_credit_note_lines}

abbrev pub is_creditable : String → Bool
is_creditable kind = str_eq kind "tax" || str_eq kind "simplified"

unfoldable pub require_original : ℕ → ℕ → String → SalesBook → Result SalesError SalesInvoice
require_original i c wrong_type b = do
  original ← or_raise (get_sales_invoice i b) (value_error "Original invoice not found")
  raise_if (not (original.company_id == c)) (value_error "Original invoice not found")
  raise_if (not (is_creditable original.invoice_type)) (value_error wrong_type)
  ok original

abbrev pub new_credit_note :
    ℕ
    → ℕ
    → ℕ
    → ℕ
    → ℕ
    → Option SalesInvoice
    → Option ℕ
    → Option ℕ
    → String
    → ℤ
    → ℤ
    → ℤ
    → SalesInvoice
new_credit_note i c branch today partner original warehouse rep number subtotal tax total = record {
  id = i;
  company_id = c;
  branch_id = branch;
  partner_id = partner;
  sales_order_id = none;
  original_invoice_id = elim original [ none ↦ none | some v ↦ some v.id ];
  invoice_type = "credit_note";
  number = number;
  status = InvoiceStatus.draft;
  invoice_date = today;
  due_date = none;
  subtotal_amount = subtotal;
  tax_amount = tax;
  total_amount = total;
  warehouse_id = warehouse;
  cost_center_id = none;
  sales_rep_id = rep;
  journal_entry_id = none;
}

abbrev pub note_of_invoice : ℕ → Caller → ℕ → SalesInvoice → String → SalesInvoice
note_of_invoice i w today v number =
    new_credit_note i v.company_id w.branch_id today v.partner_id (some v) v.warehouse_id
      v.sales_rep_id number v.subtotal_amount v.tax_amount v.total_amount

-- What follows once the note is in the table; goods may come back.
unfoldable pub complete_credit_note :
    Seller
    → Caller
    → (ℕ → ℕ)
    → String
    → Bool
    → Partner
    → SalesInvoice
    → List SalesInvoiceLine
    → ℕ
    → Bool
    → SalesBook
    → Result SalesError (SalesInvoice × ZatcaSubmission × SalesBook)
complete_credit_note seller w uuid now clearance p v ls original restock b = do
  (v', s, b') ← submit_and_post seller w uuid now clearance true p v ls b
  commissions' ← record_invoice_commission w true (uuid 3) v' (some original) b'.commissions
  (stock', books') ←
      if restock
      then restock_for_credit_note w uuid 4 v' original (b'.stock, b'.books)
      else ok (b'.stock, b'.books)
  ok (v', s, record b' { stock = stock'; books = books'; commissions = commissions' })

-- A credit note over a whole invoice, with its lines copied.
unfoldable pub issue_credit_note :
    Seller
    → Caller
    → (ℕ → ℕ)
    → String
    → ℕ
    → ℕ
    → ℕ
    → Bool
    → SalesBook
    → Result SalesError (SalesInvoice × ZatcaSubmission × SalesBook)
issue_credit_note seller w uuid now today original_id c restock b = do
  original ←
      require_original original_id c
        "Credit notes can only be issued against a tax or simplified invoice" b
  p ← or_raise (get_partner original.partner_id b.master) (value_error "Customer not found")
  let clearance = str_eq original.invoice_type "tax"
  let ls = get_invoice_lines original_id b
  let v = note_of_invoice (uuid 0) w today original (next_invoice_number c "credit_note" b)
  added ← add_invoice (books integrity_error) v ls b
  complete_credit_note seller w uuid now clearance p v ls original.id restock added

-- The optional original of a freeform credit note.
abbrev pub optional_original :
    Option ℕ → ℕ → ℕ → SalesBook → Result SalesError (Option SalesInvoice)
optional_original none c partner b = ok none
optional_original (some i) c partner b = do
  original ← require_original i c "A credit note can only reference a tax or simplified invoice" b
  raise_if (not (original.partner_id == partner))
      (value_error "The original invoice does not belong to this customer")
  ok (some original)

abbrev warehouse_id_of : Option Warehouse → Option ℕ
warehouse_id_of none = none
warehouse_id_of (some w) = some w.id

-- The original's warehouse, or the company's default one.
abbrev default_warehouse_id : Caller → ℕ → SalesBook → Result SalesError (Option ℕ)
default_warehouse_id w c b =
    if not w.has_inventory
    then ok none
    else (do found ← lift_books (get_default_for_company c b.master); ok (warehouse_id_of found))

abbrev pub or_default_warehouse : Caller → ℕ → SalesBook → Option ℕ → Result SalesError (Option ℕ)
or_default_warehouse w c b none = default_warehouse_id w c b
or_default_warehouse w c b (some i) = ok (some i)

abbrev pub warehouse_of_original : Option SalesInvoice → Option ℕ
warehouse_of_original none = none
warehouse_of_original (some v) = v.warehouse_id

abbrev pub rep_of : Option SalesInvoice → Partner → Option ℕ
rep_of none p = p.default_sales_rep_id
rep_of (some v) p = v.sales_rep_id

abbrev pub id_of : Option SalesInvoice → Option ℕ
id_of none = none
id_of (some v) = some v.id

unfoldable pub require_customer : ℕ → ℕ → SalesBook → Result SalesError Partner
require_customer i c b = do
  p ← or_raise (get_partner i b.master) (value_error "Customer not found")
  raise_if (not (p.company_id == c)) (value_error "Customer not found")
  ok p

unfoldable pub complete_credit_note_for_lines :
    Seller
    → Caller
    → (ℕ → ℕ)
    → String
    → Partner
    → SalesInvoice
    → List SalesInvoiceLine
    → Option ℕ
    → Bool
    → SalesBook
    → Result SalesError (SalesInvoice × ZatcaSubmission × SalesBook)
complete_credit_note_for_lines seller w uuid now p v ls original restock b = do
  (v', s, b') ← submit_and_post seller w uuid now (is_registered p) true p v ls b
  commissions' ← record_invoice_commission w true (uuid 3) v' original b'.commissions
  (stock', books') ←
      if restock
      then restock_for_credit_note_lines w uuid 4 v' ls original b' (b'.stock, b'.books)
      else ok (b'.stock, b'.books)
  ok (v', s, record b' { stock = stock'; books = books'; commissions = commissions' })

unfoldable pub issue_credit_note_for_lines :
    Seller
    → Caller
    → (ℕ → ℕ)
    → String
    → ℕ
    → ℕ
    → ℕ
    → List LineIn
    → Option ℕ
    → Bool
    → SalesBook
    → Result SalesError (SalesInvoice × ZatcaSubmission × SalesBook)
issue_credit_note_for_lines seller w uuid now today partner_id c lines original_id restock b = do
  raise_if (is_empty lines) (value_error "A credit note must have at least one line")
  p ← require_customer partner_id c b
  original ← optional_original original_id c partner_id b
  ls ← price_lines c lines b.master
  warehouse ← or_default_warehouse w c b (warehouse_of_original original)
  let v =
      new_credit_note (uuid 0) c w.branch_id today partner_id original warehouse (rep_of original p)
        (next_invoice_number c "credit_note" b) (subtotal_of ls) (tax_of ls)
        (subtotal_of ls +ℤ tax_of ls)
  added ← add_invoice retry v ls b
  complete_credit_note_for_lines seller w uuid now p v ls (id_of original) restock added
