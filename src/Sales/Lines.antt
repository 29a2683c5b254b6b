-- ===== src/Sales/Lines.antt =====
-- What `SalesInvoiceService` (backend/src/modules/sales/application/services.py) invoices: the lines that
-- a call selects from an order, and their amounts.
use alfahd_erp_system.Prelude.{
  ℕ, Bool, true, ◌&&◌, Option, none, some, List, [], ◌∷◌, ◌==◌, ltb_ℤ, leb_ℤ, if◌then◌else◌, ℤ, pos,
  ◌+ℤ◌, ◌-ℤ◌, ◌*ℤ◌, String, find?, sum_of, Result, ok, err, ◌>>=◌, or_raise,
}
use alfahd_erp_system.Decimal.{half_even, signed}
use alfahd_erp_system.Accounting.Entities.{Error}
use alfahd_erp_system.MasterData.{Product, MasterData, get_product, resolve_tax_rate_percent}
use alfahd_erp_system.Sales.Store.{SalesOrderLine, SalesInvoiceLine, has_line_id}
use alfahd_erp_system.Sales.Orders.{SalesError, books, value_error, LineIn}

pub record InvoiceItem : Type 0 where
  pub sales_order_line_id : ℕ
  pub qty : ℤ

abbrev pub remaining_of : SalesOrderLine → ℤ
remaining_of l = l.qty -ℤ l.qty_invoiced

-- Every line with something left. A locked line is the row that was read: the tables are those of one
-- transaction.
unfoldable pub select_remaining : List SalesOrderLine → List (SalesOrderLine × ℤ)
select_remaining [] = []
select_remaining (l ∷ ls) =
    let rest = select_remaining ls in
    if ltb_ℤ (pos 0) (remaining_of l) then (l, remaining_of l) ∷ rest else rest

-- One round: a quantity of zero or less is passed over, more than what remains is refused.
unfoldable pub take_item :
    SalesOrderLine
    → ℤ
    → Result SalesError (List (SalesOrderLine × ℤ))
    → Result SalesError (List (SalesOrderLine × ℤ))
take_item l qty rest =
    if leb_ℤ qty (pos 0)
    then rest
    else (if ltb_ℤ (remaining_of l) qty
        then err (value_error "Cannot invoice more than remains un-invoiced on this line")
        else (do selected ← rest; ok ((l, qty) ∷ selected)))

-- The loop over the wanted lines: every round reads the quantities as they were before it.
unfoldable pub select_items :
    List InvoiceItem → List SalesOrderLine → Result SalesError (List (SalesOrderLine × ℤ))
select_items [] ls = ok []
select_items (x ∷ xs) ls =
    let rest = select_items xs ls in
    do
      locked ←
          or_raise (find? (has_line_id x.sales_order_line_id) ls)
            (value_error "Sales order line not found on this order")
      take_item locked x.qty rest

-- `lines=None` is everything that remains.
abbrev pub select_lines :
    Option (List InvoiceItem) → List SalesOrderLine → Result SalesError (List (SalesOrderLine × ℤ))
select_lines none ls = ok (select_remaining ls)
select_lines (some xs) ls = select_items xs ls

-- `(qty * unit_price).quantize(0.01)`
unfoldable pub line_amount : ℤ → ℤ → ℤ
line_amount qty price = signed half_even (qty *ℤ price) 100_000_000 *ℤ pos 100

-- `(line_total * tax_rate_percent / 100).quantize(0.01)`
unfoldable pub line_tax : ℤ → ℤ → ℤ
line_tax total rate = signed half_even (total *ℤ rate) 1_000_000 *ℤ pos 100

abbrev product_name : Option Product → String
product_name none = ""
product_name (some p) = p.name

abbrev pub invoice_line : ℕ → LineIn → ℤ → MasterData → SalesInvoiceLine
invoice_line c l rate m = record {
  company_id = c;
  sales_invoice_id = 0;
  product_id = l.product_id;
  description = product_name (get_product l.product_id m);
  qty = l.qty;
  unit_price = l.unit_price;
  tax_rate_id = l.tax_rate_id;
  tax_rate_percent = rate;
  line_total = line_amount l.qty l.unit_price;
  tax_amount = line_tax (line_amount l.qty l.unit_price) rate;
}

-- A call of the accounting services: what it raises goes through.
abbrev pub lift_books : {A : Type 0} → Result Error A → Result SalesError A
lift_books (ok a) = ok a
lift_books (err e) = err (books e)

-- One round of the loop that prices the lines.
unfoldable pub price_line : ℕ → LineIn → MasterData → Result SalesError SalesInvoiceLine
price_line c l m = do
  rate ← lift_books (resolve_tax_rate_percent l.tax_rate_id c m)
  ok (invoice_line c l rate m)

unfoldable pub price_lines :
    ℕ → List LineIn → MasterData → Result SalesError (List SalesInvoiceLine)
price_lines c [] m = ok []
price_lines c (l ∷ ls) m =
    let rest = price_lines c ls m in
    do priced ← price_line c l m; others ← rest; ok (priced ∷ others)

-- What a selected line is priced by.
abbrev pub selected_line : SalesOrderLine × ℤ → LineIn
selected_line (l, qty) = record {
  product_id = l.product_id;
  qty = qty;
  unit_price = l.unit_price;
  tax_rate_id = l.tax_rate_id;
}

abbrev pub subtotal_of : List SalesInvoiceLine → ℤ
subtotal_of ls = sum_of (λ (l : SalesInvoiceLine). l.line_total) ls

abbrev pub tax_of : List SalesInvoiceLine → ℤ
tax_of ls = sum_of (λ (l : SalesInvoiceLine). l.tax_amount) ls

-- `line.qty_invoiced += qty`, line by line.
abbrev pub add_invoiced : ℕ → ℤ → List SalesOrderLine → List SalesOrderLine
add_invoiced i qty [] = []
add_invoiced i qty (x ∷ xs) =
    (if x.id == i then record x { qty_invoiced = x.qty_invoiced +ℤ qty } else x)
    ∷ add_invoiced i qty xs

abbrev pub add_all_invoiced : List (SalesOrderLine × ℤ) → List SalesOrderLine → List SalesOrderLine
add_all_invoiced [] ls = ls
add_all_invoiced ((l, qty) ∷ rest) ls = add_all_invoiced rest (add_invoiced l.id qty ls)

abbrev pub all_invoiced : List SalesOrderLine → Bool
all_invoiced [] = true
all_invoiced (l ∷ ls) = leb_ℤ l.qty l.qty_invoiced && all_invoiced ls
