-- ===== src/Sales/Posting.antt =====
-- The effects of an invoice outside Sales: its journal entry, its stock moves with their entries, and its
-- commission (backend/src/modules/sales/application/services.py). An amount of the stock, in units of
-- 10^-12, is what a `Numeric(18, 4)` column stores of it.
use Prim.Native.String.{◌++◌ as text_append}
use alfahd_erp_system.Prelude.{
  ℕ, ◌+◌, Bool, false, not, Option, none, some, List, [], ◌∷◌, ltb_ℤ, leb_ℤ, if◌then◌else◌, ℤ, pos,
  String, Result, ok, err, ◌>>=◌, or_raise,
}
use alfahd_erp_system.Decimal.{half_up, signed}
use alfahd_erp_system.Accounting.Entities.{DomainLine}
use alfahd_erp_system.Accounting.Store.{JournalEntry, Books, get_account_by_code}
use alfahd_erp_system.Accounting.Entries.{Draft, create_draft_entry, post_entry}
use alfahd_erp_system.Commission.{
  CommissionBook, CommissionEvent, record_sales_commission, reverse_sales_commission,
}
use alfahd_erp_system.Inventory.Valuation.{StockError}
use alfahd_erp_system.Inventory.Store.{Stock}
use alfahd_erp_system.Inventory.Moves.{Alerts, Issue, issue_stock}
use alfahd_erp_system.MasterData.{
  Product, Warehouse, Location, MasterData, get_product, get_warehouse, get_default_for_company,
  list_by_warehouse,
}
use alfahd_erp_system.Sales.Store.{SalesInvoice, SalesInvoiceLine}
use alfahd_erp_system.Sales.Orders.{SalesError, stock, value_error}
use alfahd_erp_system.Sales.Lines.{lift_books}

abbrev pub not_seeded : SalesError
not_seeded = value_error "Default Chart of Accounts is not seeded for this company"

abbrev pub entry_line : ℕ → ℤ → ℤ → Option ℕ → DomainLine
entry_line account debit credit cost_center = record {
  account_id = account;
  debit = debit;
  credit = credit;
  cost_center_id = cost_center;
  description = none;
}

-- The VAT line stands last, and only if there is VAT.
abbrev pub vat_line : ℤ → DomainLine → List DomainLine
vat_line tax l = if ltb_ℤ (pos 0) tax then l ∷ [] else []

abbrev pub sale_entry_lines : SalesInvoice → ℕ → ℕ → ℕ → List DomainLine
sale_entry_lines v receivable income vat =
    entry_line receivable v.total_amount (pos 0) none
    ∷ entry_line income (pos 0) v.subtotal_amount v.cost_center_id
    ∷ vat_line v.tax_amount (entry_line vat (pos 0) v.tax_amount none)

abbrev pub credit_entry_lines : SalesInvoice → ℕ → ℕ → ℕ → List DomainLine
credit_entry_lines v receivable income vat =
    entry_line income v.subtotal_amount (pos 0) v.cost_center_id
    ∷ entry_line receivable (pos 0) v.total_amount none
    ∷ vat_line v.tax_amount (entry_line vat v.tax_amount (pos 0) none)

abbrev pub invoice_draft : Bool → ℕ → ℕ → ℕ → SalesInvoice → List DomainLine → Draft
invoice_draft checks branch created_by entry_id v lines = record {
  company_id = v.company_id;
  branch_id = some branch;
  journal_code = "SALES";
  entry_date = v.invoice_date;
  reference = some v.number;
  lines = lines;
  created_by = created_by;
  description = none;
  source_table = some "sales_invoice";
  source_id = some v.id;
  new_id = entry_id;
  checks_cost_centers = checks;
}

-- Who calls, and which of the optional collaborators the service has. `valuation_method` is `average`
-- where the company has none.
pub record Caller : Type 0 where
  pub branch_id : ℕ
  pub created_by : ℕ
  pub now : ℕ
  pub checks_cost_centers : Bool
  pub has_commission : Bool
  pub has_inventory : Bool
  pub valuation_method : String
  pub alerts : Option Alerts

-- A draft that is posted at once.
unfoldable pub create_and_post : ℕ → Draft → Books → Result SalesError (JournalEntry × Books)
create_and_post now d b = do
  (entry, b') ← lift_books (create_draft_entry d b)
  lift_books (post_entry entry.id d.company_id now b')

-- `_post_journal_entry`
unfoldable pub post_invoice_entry :
    Caller → Bool → ℕ → SalesInvoice → Books → Result SalesError (JournalEntry × Books)
post_invoice_entry w is_credit_note entry_id v b = do
  receivable ← or_raise (get_account_by_code v.company_id "1200" b) not_seeded
  income ← or_raise (get_account_by_code v.company_id "4100" b) not_seeded
  vat ← or_raise (get_account_by_code v.company_id "2200" b) not_seeded
  let lines =
      if is_credit_note
      then credit_entry_lines v receivable.id income.id vat.id
      else sale_entry_lines v receivable.id income.id vat.id
  create_and_post w.now
      (invoice_draft w.checks_cost_centers w.branch_id w.created_by entry_id v lines) b

-- `_record_sales_commission`
abbrev pub commission_event : ℕ → SalesInvoice → ℕ → CommissionEvent
commission_event i v rep = record {
  id = i;
  company_id = v.company_id;
  representative_id = rep;
  source_id = v.id;
  base_amount = v.subtotal_amount;
  transaction_date = v.invoice_date;
}

abbrev credit_commission :
    CommissionEvent → Option ℕ → CommissionBook → Result SalesError CommissionBook
credit_commission e original b = do
  (t, b') ← lift_books (reverse_sales_commission e original b)
  ok b'

abbrev commission_for :
    Bool
    → ℕ
    → SalesInvoice
    → Option ℕ
    → Option ℕ
    → CommissionBook
    → Result SalesError CommissionBook
commission_for is_credit_note i v original none b = ok b
commission_for is_credit_note i v original (some rep) b =
    if not is_credit_note
    then ok (record_sales_commission (commission_event i v rep) b).1
    else credit_commission (commission_event i v rep) original b

unfoldable pub record_invoice_commission :
    Caller → Bool → ℕ → SalesInvoice → Option ℕ → CommissionBook → Result SalesError CommissionBook
record_invoice_commission w is_credit_note i v original b =
    if not w.has_commission
    then ok b
    else commission_for is_credit_note i v original v.sales_rep_id b

-- The warehouse of the document, or the company's default one.
abbrev default_or : ℕ → MasterData → Option Warehouse → Result SalesError (Option Warehouse)
default_or c m none = lift_books (get_default_for_company c m)
default_or c m (some w) = ok (some w)

abbrev by_id : Option ℕ → MasterData → Option Warehouse
by_id none m = none
by_id (some i) m = get_warehouse i m

unfoldable pub document_warehouse : ℕ → Option ℕ → MasterData → Result SalesError (Option Warehouse)
document_warehouse c i m = default_or c m (by_id i m)

-- Its first location.
abbrev first : List Location → Option Location
first [] = none
first (l ∷ ls) = some l

abbrev pub location_of : MasterData → Option Warehouse → Option Location
location_of m none = none
location_of m (some w) = first (list_by_warehouse w.id m)

-- The error of the stock goes through.
abbrev pub lift_stock : {A : Type 0} → Result StockError A → Result SalesError A
lift_stock (ok a) = ok a
lift_stock (err e) = err (stock e)

abbrev pub delivery : Caller → SalesInvoice → ℕ → ℕ → SalesInvoiceLine → Issue
delivery w v location move_id l = record {
  company_id = v.company_id;
  product_id = l.product_id;
  location_id = location;
  qty = l.qty;
  valuation_method = w.valuation_method;
  source_table = "sales_invoice";
  source_id = v.id;
  move_type = "delivery";
  allow_negative = false;
  move_id = move_id;
  now = w.now;
}

abbrev pub to_column : ℤ → ℤ
to_column cost = signed half_up cost 100_000_000

abbrev pub two_lines : ℕ → ℕ → ℤ → List DomainLine
two_lines debited credited amount =
    entry_line debited amount (pos 0) none ∷ entry_line credited (pos 0) amount none ∷ []

abbrev pub stock_draft : Caller → Option ℕ → ℕ → SalesInvoice → String → List DomainLine → Draft
stock_draft w branch entry_id v reference lines = record {
  company_id = v.company_id;
  branch_id = branch;
  journal_code = "GEN";
  entry_date = v.invoice_date;
  reference = some (text_append reference v.number);
  lines = lines;
  created_by = w.created_by;
  description = none;
  source_table = some "sales_invoice";
  source_id = some v.id;
  new_id = entry_id;
  checks_cost_centers = w.checks_cost_centers;
}

-- A line of a stockable product leaves the location, and its cost leaves the inventory account.
unfoldable pub deliver :
    Caller
    → SalesInvoice
    → ℕ
    → ℕ
    → ℕ
    → ℕ
    → ℕ
    → SalesInvoiceLine
    → Stock × Books
    → Result SalesError (Stock × Books)
deliver w v location cogs inventory move_id entry_id l (s, b) = do
  (move, cost, s') ← lift_stock (issue_stock w.alerts (delivery w v location move_id l) s)
  if leb_ℤ cost (pos 0) then ok (s', b) else (do
    (entry, b') ←
        create_and_post w.now
          (stock_draft w (some v.branch_id) entry_id v "COGS for "
            (two_lines cogs inventory (to_column cost)))
          b
    ok (s', b'))

abbrev pub is_stocked : Option Product → Bool
is_stocked none = false
is_stocked (some p) = p.is_stockable

-- The loop over the lines; each takes two more of the call's ids.
unfoldable pub deliver_lines :
    Caller
    → (ℕ → ℕ)
    → ℕ
    → SalesInvoice
    → ℕ
    → ℕ
    → ℕ
    → List SalesInvoiceLine
    → MasterData
    → Stock × Books
    → Result SalesError (Stock × Books)
deliver_lines w uuid n v location cogs inventory [] m sb = ok sb
deliver_lines w uuid n v location cogs inventory (l ∷ ls) m sb = do
  sb' ←
      if is_stocked (get_product l.product_id m)
      then deliver w v location cogs inventory (uuid n) (uuid (n + 1)) l sb
      else ok sb
  deliver_lines w uuid (n + 2) v location cogs inventory ls m sb'

abbrev pub deduct_at :
    Caller
    → (ℕ → ℕ)
    → ℕ
    → SalesInvoice
    → List SalesInvoiceLine
    → MasterData
    → Option Location
    → Stock × Books
    → Result SalesError (Stock × Books)
deduct_at w uuid n v ls m none sb = ok sb
deduct_at w uuid n v ls m (some location) sb = do
  cogs ← or_raise (get_account_by_code v.company_id "5100" sb.1) not_seeded
  inventory ← or_raise (get_account_by_code v.company_id "1300" sb.1) not_seeded
  deliver_lines w uuid n v location.id cogs.id inventory.id ls m sb

-- `_deduct_stock_for_lines`
unfoldable pub deduct_stock_for_lines :
    Caller
    → (ℕ → ℕ)
    → ℕ
    → SalesInvoice
    → List SalesInvoiceLine
    → MasterData
    → Stock × Books
    → Result SalesError (Stock × Books)
deduct_stock_for_lines w uuid n v ls m sb = if not w.has_inventory then ok sb else (do
  warehouse ← document_warehouse v.company_id v.warehouse_id m
  deduct_at w uuid n v ls m (location_of m warehouse) sb)
