-- ===== src/Sales/Orders.antt =====
-- `QuotationService` of backend/src/modules/sales/application/services.py. The ids that a call makes by
-- `uuid4()` are the values of its argument `uuid`, each at an index of its own.
use Prim.Native.String.{◌++◌ as text_append}
use text.Mathlib.Text.{◌==◌ as str_eq}
use alfahd_erp_system.Prelude.{
  ℕ, suc, ◌+◌, Bool, true, false, ◌&&◌, ◌||◌, not, Option, none, some, List, [], ◌∷◌, map, ◌==◌,
  leb, ltb_ℤ, ℤ, pos, ◌*ℤ◌, String, any, keep, length, sum_of, Result, ok, ◌>>=◌, ◌>>◌, raise_if,
  or_raise,
}
use alfahd_erp_system.Decimal.{half_up, signed}
use alfahd_erp_system.Numbering.{codes, six_digits}
use alfahd_erp_system.Accounting.Entities.{Error}
use alfahd_erp_system.Commission.{get_representative}
use alfahd_erp_system.Inventory.Valuation.{StockError}
use alfahd_erp_system.Sales.Store.{
  DocStatus, draft, confirmed, cancelled, Quotation, QuotationLine, SalesOrder, SalesOrderLine,
  SalesBook, get_quotation, get_quotation_lines, add_quotation, add_order, replace_quotation_lines,
  replace_quotation, get_order, get_order_lines, replace_order_lines, replace_order,
}

-- What the sales services raise: their own `ValueError`s and those of the accounting services, and the
-- errors of the stock.
pub data SalesError : Type 0 where
  books : Error → SalesError
  stock : StockError → SalesError

abbrev pub value_error : String → SalesError
value_error m = books (Error.value_error m)

pub record LineIn : Type 0 where
  pub product_id : ℕ
  pub qty : ℤ
  pub unit_price : ℤ
  pub tax_rate_id : ℕ

-- What a quotation and an order are created or edited with.
pub record DocumentIn : Type 0 where
  pub partner_id : ℕ
  pub date : ℕ
  pub lines : List LineIn
  pub warehouse_id : Option ℕ
  pub cost_center_id : Option ℕ
  pub payment_terms : Option String
  pub sales_rep_id : Option ℕ

-- `_validate_sales_rep`
unfoldable pub check_sales_rep : Bool → ℕ → Option ℕ → SalesBook → Result SalesError (Unit {0})
check_sales_rep wired c none b = ok tt
check_sales_rep wired c (some i) b = do
  raise_if (not wired) (value_error "Sales representative assignment is not available")
  rep ←
      or_raise (get_representative c i b.commissions) (value_error "Sales representative not found")
  ok tt

-- The exact total, in units of 10^-10, as the `Numeric(18, 4)` column stores it.
unfoldable pub total_of_lines : List LineIn → ℤ
total_of_lines ls = signed half_up (sum_of (λ (l : LineIn). l.qty *ℤ l.unit_price) ls) 1_000_000

abbrev pub is_empty : List LineIn → Bool
is_empty [] = true
is_empty (l ∷ ls) = false

abbrev quotation_line : ℕ → LineIn → QuotationLine
quotation_line c l = record {
  company_id = c;
  quotation_id = 0;
  product_id = l.product_id;
  qty = l.qty;
  unit_price = l.unit_price;
  tax_rate_id = l.tax_rate_id;
}

-- `QuotationRepository.next_number`
abbrev quotation_of : ℕ → Quotation → Bool
quotation_of c q = q.company_id == c

unfoldable pub next_quotation_number : ℕ → SalesBook → String
next_quotation_number c b =
    text_append "QT-" (six_digits (length (keep (quotation_of c) b.quotations) + 1))

-- The primary key and `ux_quotation_number`.
abbrev pub quotation_clash : Quotation → Quotation → Bool
quotation_clash q x = x.id == q.id || x.company_id == q.company_id && str_eq x.number q.number

abbrev pub new_quotation : ℕ → ℕ → ℕ → String → DocumentIn → Quotation
new_quotation i c branch number d = record {
  id = i;
  company_id = c;
  branch_id = branch;
  partner_id = d.partner_id;
  number = number;
  status = draft;
  quote_date = d.date;
  total_amount = total_of_lines d.lines;
  warehouse_id = d.warehouse_id;
  cost_center_id = d.cost_center_id;
  payment_terms = d.payment_terms;
  sales_rep_id = d.sales_rep_id;
}

unfoldable pub create_quotation :
    Bool → (ℕ → ℕ) → ℕ → ℕ → DocumentIn → SalesBook → Result SalesError (Quotation × SalesBook)
create_quotation wired uuid c branch d b = do
  raise_if (is_empty d.lines) (value_error "A quotation needs at least one line")
  check_sales_rep wired c d.sales_rep_id b
  let q = new_quotation (uuid 0) c branch (next_quotation_number c b) d
  raise_if (any (quotation_clash q) b.quotations)
      (value_error "A quotation was created concurrently with the same number — please retry")
  ok (q, add_quotation q (map (quotation_line c) d.lines) b)

abbrev pub is_draft : DocStatus → Bool
is_draft draft = true
is_draft _ = false

-- `quotation is None or quotation.company_id != company_id`
unfoldable pub require_quotation : ℕ → ℕ → SalesBook → Result SalesError Quotation
require_quotation i c b = do
  q ← or_raise (get_quotation i b) (value_error "Quotation not found")
  raise_if (not (q.company_id == c)) (value_error "Quotation not found")
  ok q

abbrev pub edited_quotation : Quotation → DocumentIn → Quotation
edited_quotation q d = record q {
  partner_id = d.partner_id;
  quote_date = d.date;
  total_amount = total_of_lines d.lines;
  warehouse_id = d.warehouse_id;
  cost_center_id = d.cost_center_id;
  payment_terms = d.payment_terms;
  sales_rep_id = d.sales_rep_id;
}

unfoldable pub update_quotation :
    Bool → ℕ → ℕ → DocumentIn → SalesBook → Result SalesError (Quotation × SalesBook)
update_quotation wired i c d b = do
  raise_if (is_empty d.lines) (value_error "A quotation needs at least one line")
  q ← require_quotation i c b
  raise_if (not (is_draft q.status)) (value_error "Only a draft quotation can be edited")
  check_sales_rep wired c d.sales_rep_id b
  let b' = replace_quotation_lines i (map (quotation_line c) d.lines) b
  let q' = edited_quotation q d
  ok (q', record b' { quotations = replace_quotation q' b'.quotations })

abbrev pub order_line : ℕ → ℕ → ℕ → ℤ → ℤ → ℕ → SalesOrderLine
order_line i c product qty price rate = record {
  id = i;
  company_id = c;
  sales_order_id = 0;
  product_id = product;
  description = "";
  qty = qty;
  unit_price = price;
  tax_rate_id = rate;
  qty_invoiced = pos 0;
}

-- The line comprehensions: the lines take the ids from the n-th on.
abbrev pub lines_of_quotation : (ℕ → ℕ) → ℕ → ℕ → List QuotationLine → List SalesOrderLine
lines_of_quotation uuid n c [] = []
lines_of_quotation uuid n c (l ∷ ls) =
    order_line (uuid n) c l.product_id l.qty l.unit_price l.tax_rate_id
    ∷ lines_of_quotation uuid (suc n) c ls

abbrev pub lines_of_input : (ℕ → ℕ) → ℕ → ℕ → List LineIn → List SalesOrderLine
lines_of_input uuid n c [] = []
lines_of_input uuid n c (l ∷ ls) =
    order_line (uuid n) c l.product_id l.qty l.unit_price l.tax_rate_id
    ∷ lines_of_input uuid (suc n) c ls

abbrev order_of : ℕ → SalesOrder → Bool
order_of c o = o.company_id == c

unfoldable pub next_order_number : ℕ → SalesBook → String
next_order_number c b = text_append "SO-" (six_digits (length (keep (order_of c) b.orders) + 1))

abbrev pub order_clash : SalesOrder → SalesOrder → Bool
order_clash o x = x.id == o.id || x.company_id == o.company_id && str_eq x.number o.number

-- The line table's primary key: an id that is in the table, or twice among the new lines.
abbrev pub has_id_of : SalesOrderLine → SalesOrderLine → Bool
has_id_of l x = x.id == l.id

abbrev pub ids_clash : List SalesOrderLine → List SalesOrderLine → Bool
ids_clash [] xs = false
ids_clash (l ∷ ls) xs = any (has_id_of l) xs || any (has_id_of l) ls || ids_clash ls xs

abbrev pub new_order : ℕ → Quotation → String → SalesOrder
new_order i q number = record {
  id = i;
  company_id = q.company_id;
  branch_id = q.branch_id;
  partner_id = q.partner_id;
  quotation_id = some q.id;
  number = number;
  status = confirmed;
  order_date = q.quote_date;
  total_amount = q.total_amount;
  warehouse_id = q.warehouse_id;
  cost_center_id = q.cost_center_id;
  sales_rep_id = q.sales_rep_id;
  cancellation_reason = none;
}

-- The quotation's lines become the order's, and the quotation is confirmed.
unfoldable pub confirm_to_sales_order :
    (ℕ → ℕ) → ℕ → ℕ → SalesBook → Result SalesError (SalesOrder × SalesBook)
confirm_to_sales_order uuid i c b = do
  q ← require_quotation i c b
  raise_if (not (is_draft q.status)) (value_error "Only a draft quotation can be confirmed")
  let ls = lines_of_quotation uuid 1 c (get_quotation_lines i b)
  let o = new_order (uuid 0) q (next_order_number c b)
  raise_if (any (order_clash o) b.orders || ids_clash ls b.order_lines)
      (value_error "A sales order was created concurrently with the same number — please retry")
  let b' = add_order o ls b
  ok (
    o,
    record b' { quotations = replace_quotation (record q { status = confirmed }) b'.quotations },
  )

abbrev pub is_open : DocStatus → Bool
is_open draft = true
is_open confirmed = true
is_open _ = false

abbrev pub is_invoiced : SalesOrderLine → Bool
is_invoiced l = ltb_ℤ (pos 0) l.qty_invoiced

unfoldable pub require_order : ℕ → ℕ → SalesBook → Result SalesError SalesOrder
require_order i c b = do
  o ← or_raise (get_order i b) (value_error "Sales order not found")
  raise_if (not (o.company_id == c)) (value_error "Sales order not found")
  ok o

abbrev pub edited_order : SalesOrder → DocumentIn → SalesOrder
edited_order o d = record o {
  partner_id = d.partner_id;
  order_date = d.date;
  total_amount = total_of_lines d.lines;
  warehouse_id = d.warehouse_id;
  cost_center_id = d.cost_center_id;
  sales_rep_id = d.sales_rep_id;
}

-- The primary key refuses an id that another order's line has.
unfoldable pub update_order :
    Bool → (ℕ → ℕ) → ℕ → ℕ → DocumentIn → SalesBook → Result SalesError (SalesOrder × SalesBook)
update_order wired uuid i c d b = do
  raise_if (is_empty d.lines) (value_error "A sales order needs at least one line")
  o ← require_order i c b
  raise_if (not (is_open o.status))
      (value_error "Only an order with nothing invoiced yet can be edited")
  raise_if (any is_invoiced (get_order_lines i b))
      (value_error "This order has already been partially invoiced and can no longer be edited")
  check_sales_rep wired c d.sales_rep_id b
  let ls = lines_of_input uuid 0 c d.lines
  raise_if (ids_clash ls b.order_lines) (books Error.integrity_error)
  let b' = replace_order_lines i ls b
  let o' = edited_order o d
  ok (o', record b' { orders = replace_order o' b'.orders })

-- `not reason.strip()`: every character is white space of Python's.
abbrev is_space : ℕ → Bool
is_space n =
    leb 9 n && leb n 13
    || leb 28 n && leb n 32
    || n == 133
    || n == 160
    || n == 5760
    || leb 8192 n && leb n 8202
    || n == 8232
    || n == 8233
    || n == 8239
    || n == 8287
    || n == 12288

abbrev all_spaces : List ℕ → Bool
all_spaces [] = true
all_spaces (n ∷ ns) = is_space n && all_spaces ns

unfoldable pub is_blank : String → Bool
is_blank s = all_spaces (codes s)

unfoldable pub cancel_order :
    ℕ → ℕ → String → SalesBook → Result SalesError (SalesOrder × SalesBook)
cancel_order i c reason b = do
  o ← require_order i c b
  raise_if (not (is_open o.status))
      (value_error "Only an order with nothing invoiced yet can be cancelled")
  raise_if (any is_invoiced (get_order_lines i b))
      (value_error "This order has already been partially invoiced and can no longer be cancelled")
  raise_if (is_blank reason) (value_error "A cancellation reason is required")
  let o' = record o { status = cancelled; cancellation_reason = some reason }
  ok (o', record b { orders = replace_order o' b.orders })
