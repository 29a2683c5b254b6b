-- ===== src/Sales/Restock.antt =====
-- Goods that come back with a credit note: `_restock_for_credit_note`, `_restock_for_credit_note_lines`
-- and `_post_inventory_valuation_variance` of backend/src/modules/sales/application/services.py.
use text.Mathlib.Text.{◌==◌ as str_eq}
use alfahd_erp_system.Prelude.{
  ℕ, ◌+◌, Bool, ◌&&◌, not, Option, none, some, List, [], ◌∷◌, ◌==◌, ltb_ℤ, leb_ℤ, eq_ℤ,
  if◌then◌else◌, ℤ, pos, ◌+ℤ◌, ◌-ℤ◌, ◌*ℤ◌, keep, Result, ok, ◌>>=◌, or_raise,
}
use alfahd_erp_system.Decimal.{half_even, signed}
use alfahd_erp_system.Accounting.Entities.{integrity_error}
use alfahd_erp_system.Accounting.Store.{Books, get_account_by_code}
use alfahd_erp_system.Inventory.Store.{StockQuant, StockMove, Stock, get_quant}
use alfahd_erp_system.Inventory.Moves.{Receipt, receive_stock}
use alfahd_erp_system.MasterData.{MasterData, Location, get_product}
use alfahd_erp_system.Sales.Store.{SalesInvoice, SalesInvoiceLine, SalesBook, get_sales_invoice}
use alfahd_erp_system.Sales.Orders.{SalesError, books}
use alfahd_erp_system.Sales.Posting.{
  Caller, create_and_post, stock_draft, two_lines, not_seeded, lift_stock, is_stocked,
  document_warehouse, location_of,
}

-- `list_moves_for_source`, and those of a delivery.
abbrev of_source : ℕ → ℕ → StockMove → Bool
of_source c i m = m.company_id == c && str_eq m.source_table "sales_invoice" && m.source_id == i

abbrev is_delivery : ℕ → ℕ → StockMove → Bool
is_delivery c i m = of_source c i m && str_eq m.move_type "delivery"

unfoldable pub delivery_moves : ℕ → ℕ → Stock → List StockMove
delivery_moves c i s = keep (is_delivery c i) s.moves

-- What the loops add up: the stock, the cost and the variance.
pub record Restocked : Type 0 where
  pub stock : Stock
  pub total_cost : ℤ
  pub variance : ℤ

abbrev pub returned : Caller → (ℕ → ℕ) → ℕ → SalesInvoice → ℕ → ℕ → ℤ → ℤ → Receipt
returned w uuid n note product location qty cost = record {
  company_id = note.company_id;
  product_id = product;
  location_id = location;
  qty = qty;
  unit_cost = cost;
  valuation_method = w.valuation_method;
  source_table = "sales_invoice";
  source_id = note.id;
  move_type = some "return";
  layer_id = uuid n;
  move_id = uuid (n + 1);
  now = w.now;
}

-- One round: `(qty * unit_cost).quantize(0.0001)` joins the cost.
unfoldable pub take_back : Receipt → Restocked → Result SalesError Restocked
take_back r acc = do
  (move, variance, s) ← lift_stock (receive_stock r acc.stock)
  ok (record {
    stock = s;
    total_cost = acc.total_cost +ℤ signed half_even (r.qty *ℤ r.unit_cost) 100_000_000;
    variance = acc.variance +ℤ variance;
  })

-- A row of the stock needs a location.
unfoldable pub take_back_moves :
    Caller → (ℕ → ℕ) → ℕ → SalesInvoice → List StockMove → Restocked → Result SalesError Restocked
take_back_moves w uuid n note [] acc = ok acc
take_back_moves w uuid n note (m ∷ ms) acc = do
  location ← or_raise m.source_location_id (books integrity_error)
  acc' ← take_back (returned w uuid n note m.product_id location m.qty m.unit_cost) acc
  take_back_moves w uuid (n + 2) note ms acc'

-- Inventory up, cost of goods sold down.
unfoldable pub post_return : Caller → ℕ → SalesInvoice → ℤ → Books → Result SalesError Books
post_return w entry_id note cost b = do
  cogs ← or_raise (get_account_by_code note.company_id "5100" b) not_seeded
  inventory ← or_raise (get_account_by_code note.company_id "1300" b) not_seeded
  (entry, b') ←
      create_and_post w.now
        (stock_draft w (some w.branch_id) entry_id note "Inventory return for "
          (two_lines inventory.id cogs.id cost))
        b
  ok b'

-- The variance goes from the inventory account to account 5150, or back if it is negative.
unfoldable pub post_variance : Caller → ℕ → SalesInvoice → ℤ → Books → Result SalesError Books
post_variance w entry_id note variance b = do
  inventory ← or_raise (get_account_by_code note.company_id "1300" b) not_seeded
  account ← or_raise (get_account_by_code note.company_id "5150" b) not_seeded
  let lines =
      if ltb_ℤ (pos 0) variance
      then two_lines account.id inventory.id variance
      else two_lines inventory.id account.id (pos 0 -ℤ variance)
  (entry, b') ←
      create_and_post w.now
        (stock_draft w (some w.branch_id) entry_id note "Inventory valuation variance for " lines) b
  ok b'

unfoldable pub post_return_if : Caller → ℕ → SalesInvoice → ℤ → Books → Result SalesError Books
post_return_if w entry_id note cost b =
    if ltb_ℤ (pos 0) cost then post_return w entry_id note cost b else ok b

unfoldable pub post_variance_if : Caller → ℕ → SalesInvoice → ℤ → Books → Result SalesError Books
post_variance_if w entry_id note variance b =
    if eq_ℤ variance (pos 0) then ok b else post_variance w entry_id note variance b

abbrev pub nothing_yet : Stock → Restocked
nothing_yet s = record { stock = s; total_cost = pos 0; variance = pos 0 }

-- `_restock_for_credit_note`: the delivery's own moves, at their own costs.
unfoldable pub restock_for_credit_note :
    Caller → (ℕ → ℕ) → ℕ → SalesInvoice → ℕ → Stock × Books → Result SalesError (Stock × Books)
restock_for_credit_note w uuid n note original (s, b) =
    if not w.has_inventory then ok (s, b) else (do
      acc ←
          take_back_moves w uuid (n + 2) note (delivery_moves note.company_id original s)
            (nothing_yet s)
      b' ← post_return_if w (uuid n) note acc.total_cost b
      b'' ← post_variance_if w (uuid (n + 1)) note acc.variance b'
      ok (acc.stock, b''))

-- The dictionary of the original costs: a later move of a product replaces an earlier one's cost.
abbrev or_cost : Option ℤ → ℤ → ℤ
or_cost none c = c
or_cost (some d) c = d

abbrev pub original_cost : ℕ → List StockMove → Option ℤ
original_cost product [] = none
original_cost product (m ∷ ms) =
    let later = original_cost product ms in
    if m.product_id == product then some (or_cost later m.unit_cost) else later

abbrev pub moves_of_original : ℕ → Option ℕ → Stock → List StockMove
moves_of_original c none s = []
moves_of_original c (some i) s = delivery_moves c i s

abbrev average_of : Option StockQuant → ℤ
average_of none = pos 0
average_of (some q) = q.moving_avg_cost

-- The original cost of the product, or the location's average at the time.
abbrev pub return_cost : ℕ → ℕ → List StockMove → Stock → ℤ
return_cost product location ms s =
    or_cost (original_cost product ms) (average_of (get_quant product location s.quants))

unfoldable pub take_back_line :
    Caller
    → (ℕ → ℕ)
    → ℕ
    → SalesInvoice
    → ℕ
    → List StockMove
    → SalesInvoiceLine
    → MasterData
    → Restocked
    → Result SalesError Restocked
take_back_line w uuid n note location ms l m acc =
    let cost = return_cost l.product_id location ms acc.stock in
    if not (is_stocked (get_product l.product_id m))
    then ok acc
    else (if leb_ℤ cost (pos 0)
        then ok acc
        else take_back (returned w uuid n note l.product_id location l.qty cost) acc)

unfoldable pub take_back_lines :
    Caller
    → (ℕ → ℕ)
    → ℕ
    → SalesInvoice
    → ℕ
    → List StockMove
    → List SalesInvoiceLine
    → MasterData
    → Restocked
    → Result SalesError Restocked
take_back_lines w uuid n note location ms [] m acc = ok acc
take_back_lines w uuid n note location ms (l ∷ ls) m acc = do
  acc' ← take_back_line w uuid n note location ms l m acc
  take_back_lines w uuid (n + 2) note location ms ls m acc'

abbrev pub restock_at :
    Caller
    → (ℕ → ℕ)
    → ℕ
    → SalesInvoice
    → List StockMove
    → List SalesInvoiceLine
    → MasterData
    → Option Location
    → Stock × Books
    → Result SalesError (Stock × Books)
restock_at w uuid n note ms ls m none sb = ok sb
restock_at w uuid n note ms ls m (some location) (s, b) = do
  acc ← take_back_lines w uuid (n + 2) note location.id ms ls m (nothing_yet s)
  b' ← post_variance_if w (uuid n) note acc.variance b
  b'' ← post_return_if w (uuid (n + 1)) note acc.total_cost b'
  ok (acc.stock, b'')

abbrev pub warehouse_of : Option SalesInvoice → Option ℕ
warehouse_of none = none
warehouse_of (some v) = v.warehouse_id

abbrev pub find_invoice : Option ℕ → SalesBook → Option SalesInvoice
find_invoice none b = none
find_invoice (some i) b = get_sales_invoice i b

-- `_restock_for_credit_note_lines`: each line on its own, into the original's warehouse.
unfoldable pub restock_for_credit_note_lines :
    Caller
    → (ℕ → ℕ)
    → ℕ
    → SalesInvoice
    → List SalesInvoiceLine
    → Option ℕ
    → SalesBook
    → Stock × Books
    → Result SalesError (Stock × Books)
restock_for_credit_note_lines w uuid n note ls original b sb =
    if not w.has_inventory then ok sb else (do
      warehouse ←
          document_warehouse note.company_id (warehouse_of (find_invoice original b)) b.master
      restock_at w uuid n note (moves_of_original note.company_id original sb.0) ls b.master
          (location_of b.master warehouse) sb)
