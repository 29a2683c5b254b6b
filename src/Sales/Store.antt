-- ===== src/Sales/Store.antt =====
-- The tables of backend/src/modules/sales/infrastructure/models.py and the queries of the repositories
-- over them. A quantity is in units of 10^-6, a price and an amount in units of 10^-4.
use alfahd_erp_system.Prelude.{
  ℕ, Bool, Option, List, [], ◌∷◌, ◌++◌, map, not, ◌==◌, if◌then◌else◌, ℤ, String, find?, keep,
}
use alfahd_erp_system.Accounting.Store.{Books}
use alfahd_erp_system.Commission.{CommissionBook}
use alfahd_erp_system.Inventory.Store.{Stock}
use alfahd_erp_system.MasterData.{MasterData}
use alfahd_erp_system.Zatca.Entities.{InvoiceStatus}

-- `SO_STATUSES`, of which `DOC_STATUSES` are four.
pub data DocStatus : Type 0 where
  draft confirmed partially_invoiced done cancelled : DocStatus

pub record Quotation : Type 0 where
  pub id : ℕ
  pub company_id : ℕ
  pub branch_id : ℕ
  pub partner_id : ℕ
  pub number : String
  pub status : DocStatus
  pub quote_date : ℕ
  pub total_amount : ℤ
  pub warehouse_id : Option ℕ
  pub cost_center_id : Option ℕ
  pub payment_terms : Option String
  pub sales_rep_id : Option ℕ

-- No modelled code reads the own id of a quotation line or of an invoice line.
pub record QuotationLine : Type 0 where
  pub company_id : ℕ
  pub quotation_id : ℕ
  pub product_id : ℕ
  pub qty : ℤ
  pub unit_price : ℤ
  pub tax_rate_id : ℕ

pub record SalesOrder : Type 0 where
  pub id : ℕ
  pub company_id : ℕ
  pub branch_id : ℕ
  pub partner_id : ℕ
  pub quotation_id : Option ℕ
  pub number : String
  pub status : DocStatus
  pub order_date : ℕ
  pub total_amount : ℤ
  pub warehouse_id : Option ℕ
  pub cost_center_id : Option ℕ
  pub sales_rep_id : Option ℕ
  pub cancellation_reason : Option String

pub record SalesOrderLine : Type 0 where
  pub id : ℕ
  pub company_id : ℕ
  pub sales_order_id : ℕ
  pub product_id : ℕ
  pub description : String
  pub qty : ℤ
  pub unit_price : ℤ
  pub tax_rate_id : ℕ
  pub qty_invoiced : ℤ

pub record SalesInvoice : Type 0 where
  pub id : ℕ
  pub company_id : ℕ
  pub branch_id : ℕ
  pub partner_id : ℕ
  pub sales_order_id : Option ℕ
  pub original_invoice_id : Option ℕ
  pub invoice_type : String
  pub number : String
  pub status : InvoiceStatus
  pub invoice_date : ℕ
  pub due_date : Option ℕ
  pub subtotal_amount : ℤ
  pub tax_amount : ℤ
  pub total_amount : ℤ
  pub warehouse_id : Option ℕ
  pub cost_center_id : Option ℕ
  pub sales_rep_id : Option ℕ
  pub journal_entry_id : Option ℕ

pub record SalesInvoiceLine : Type 0 where
  pub company_id : ℕ
  pub sales_invoice_id : ℕ
  pub product_id : ℕ
  pub description : String
  pub qty : ℤ
  pub unit_price : ℤ
  pub tax_rate_id : ℕ
  pub tax_rate_percent : ℤ
  pub line_total : ℤ
  pub tax_amount : ℤ

-- No modelled code reads a submission's own id.
pub record ZatcaSubmission : Type 0 where
  pub company_id : ℕ
  pub sales_invoice_id : ℕ
  pub uuid_value : ℕ
  pub icv : ℕ
  pub previous_hash : String
  pub invoice_hash : String
  pub qr_payload : String
  pub xml_document : String
  pub submission_mode : String
  pub status : InvoiceStatus

pub record SalesBook : Type 0 where
  pub quotations : List Quotation
  pub quotation_lines : List QuotationLine
  pub orders : List SalesOrder
  pub order_lines : List SalesOrderLine
  pub invoices : List SalesInvoice
  pub invoice_lines : List SalesInvoiceLine
  pub submissions : List ZatcaSubmission
  pub master : MasterData
  pub books : Books
  pub stock : Stock
  pub commissions : CommissionBook

-- `QuotationRepository`
abbrev pub has_quotation_id : ℕ → Quotation → Bool
has_quotation_id i q = q.id == i

unfoldable pub get_quotation : ℕ → SalesBook → Option Quotation
get_quotation i b = find? (has_quotation_id i) b.quotations

abbrev pub of_quotation : ℕ → QuotationLine → Bool
of_quotation i l = l.quotation_id == i

unfoldable pub get_quotation_lines : ℕ → SalesBook → List QuotationLine
get_quotation_lines i b = keep (of_quotation i) b.quotation_lines

-- `add` and `replace_lines`, which puts the new lines in place of the old ones.
abbrev set_quotation_id : ℕ → QuotationLine → QuotationLine
set_quotation_id i l = record l { quotation_id = i }

unfoldable pub add_quotation : Quotation → List QuotationLine → SalesBook → SalesBook
add_quotation q ls b = record b {
  quotations = q ∷ b.quotations;
  quotation_lines = map (set_quotation_id q.id) ls ++ b.quotation_lines;
}

unfoldable pub replace_quotation_lines : ℕ → List QuotationLine → SalesBook → SalesBook
replace_quotation_lines i ls b = record b {
  quotation_lines =
      map (set_quotation_id i) ls ++ keep (λ l. not (of_quotation i l)) b.quotation_lines;
}

-- What the unit of work writes for a changed quotation.
abbrev pub replace_quotation : Quotation → List Quotation → List Quotation
replace_quotation q [] = []
replace_quotation q (x ∷ xs) = (if x.id == q.id then q else x) ∷ replace_quotation q xs

-- `SalesOrderRepository`
abbrev pub has_order_id : ℕ → SalesOrder → Bool
has_order_id i o = o.id == i

unfoldable pub get_order : ℕ → SalesBook → Option SalesOrder
get_order i b = find? (has_order_id i) b.orders

abbrev pub of_order : ℕ → SalesOrderLine → Bool
of_order i l = l.sales_order_id == i

unfoldable pub get_order_lines : ℕ → SalesBook → List SalesOrderLine
get_order_lines i b = keep (of_order i) b.order_lines

abbrev pub set_order_id : ℕ → SalesOrderLine → SalesOrderLine
set_order_id i l = record l { sales_order_id = i }

unfoldable pub add_order : SalesOrder → List SalesOrderLine → SalesBook → SalesBook
add_order o ls b = record b {
  orders = o ∷ b.orders;
  order_lines = map (set_order_id o.id) ls ++ b.order_lines;
}

unfoldable pub replace_order_lines : ℕ → List SalesOrderLine → SalesBook → SalesBook
replace_order_lines i ls b = record b {
  order_lines = map (set_order_id i) ls ++ keep (λ l. not (of_order i l)) b.order_lines;
}

abbrev pub replace_order : SalesOrder → List SalesOrder → List SalesOrder
replace_order o [] = []
replace_order o (x ∷ xs) = (if x.id == o.id then o else x) ∷ replace_order o xs

-- `get_line_by_id_for_update`
abbrev pub has_line_id : ℕ → SalesOrderLine → Bool
has_line_id i l = l.id == i

unfoldable pub get_order_line : ℕ → SalesBook → Option SalesOrderLine
get_order_line i b = find? (has_line_id i) b.order_lines

-- `SalesInvoiceRepository`
abbrev pub has_sales_invoice_id : ℕ → SalesInvoice → Bool
has_sales_invoice_id i x = x.id == i

unfoldable pub get_sales_invoice : ℕ → SalesBook → Option SalesInvoice
get_sales_invoice i b = find? (has_sales_invoice_id i) b.invoices

abbrev of_invoice : ℕ → SalesInvoiceLine → Bool
of_invoice i l = l.sales_invoice_id == i

unfoldable pub get_invoice_lines : ℕ → SalesBook → List SalesInvoiceLine
get_invoice_lines i b = keep (of_invoice i) b.invoice_lines

abbrev pub replace_invoice : SalesInvoice → List SalesInvoice → List SalesInvoice
replace_invoice v [] = []
replace_invoice v (x ∷ xs) = (if x.id == v.id then v else x) ∷ replace_invoice v xs
