-- ===== src/Inventory/Moves.antt =====
-- `InventoryValuationService` of backend/src/modules/inventory/application/services.py: receipts, issues
-- and the stock card of a product.
pub mod Average
pub mod Layers
pub mod Issues
pub mod Cardex
pub mod Override
use text.Mathlib.Text.{◌==◌ as str_eq}
use alfahd_erp_system.Prelude.{
  ℕ, Bool, true, false, not, ◌&&◌, ◌||◌, Option, none, some, List, [], ◌∷◌, ◌++◌, map, ltb_ℤ, leb_ℤ,
  eq_ℤ, if◌then◌else◌, ℤ, pos, ◌+ℤ◌, ◌-ℤ◌, ◌*ℤ◌, Result, ok, err, raise_if, ◌>>=◌, ◌>>◌, String,
}
use alfahd_erp_system.Decimal.{half_up, divide, signed}
use alfahd_erp_system.Inventory.Store.{
  StockQuant, StockLayer, StockMove, Notification, Stock, get_or_create_for_update, save_quant,
  list_available, subtract_layers, qty_on_hand_for_product,
}
use alfahd_erp_system.Inventory.Valuation.{
  StockError, insufficient_stock, stock_value_error, IssueResult, Strategy, get_valuation_strategy,
  compute_issue_cost,
}

-- The arguments of `receive_stock`. `layer_id`, `move_id` and `now` are the `uuid4()`s and the
-- database's time.
pub record Receipt : Type 0 where
  pub company_id : ℕ
  pub product_id : ℕ
  pub location_id : ℕ
  pub qty : ℤ
  pub unit_cost : ℤ
  pub valuation_method : String
  pub source_table : String
  pub source_id : ℕ
  pub move_type : Option String
  pub layer_id : ℕ
  pub move_id : ℕ
  pub now : ℕ

-- What a `Numeric(18, 4)` column keeps of a unit cost: four decimals, rounded half-up.
abbrev pub stored_cost : ℤ → ℤ
stored_cost cost = signed half_up cost 100 *ℤ pos 100

abbrev pub receipt_layer : Receipt → StockLayer
receipt_layer r = record {
  id = r.layer_id;
  company_id = r.company_id;
  product_id = r.product_id;
  location_id = r.location_id;
  qty_remaining = r.qty;
  unit_cost = stored_cost r.unit_cost;
  received_at = r.now;
}

-- `old_qty * old_avg + qty * unit_cost`
abbrev pub received_value : StockQuant → Receipt → ℤ
received_value q r = q.qty_on_hand *ℤ q.moving_avg_cost +ℤ r.qty *ℤ r.unit_cost

-- The moving average, if there is a quantity to spread the value over.
unfoldable pub average_after_receipt : StockQuant → Receipt → ℤ
average_after_receipt q r =
    let new_total_qty : ℤ = q.qty_on_hand +ℤ r.qty in
    if not (eq_ℤ new_total_qty (pos 0))
    then divide half_up (received_value q r) new_total_qty
    else q.moving_avg_cost

-- The value that no average at quantity zero can carry, with four decimals.
unfoldable pub variance_of_receipt : StockQuant → Receipt → ℤ
variance_of_receipt q r =
    let new_total_qty : ℤ = q.qty_on_hand +ℤ r.qty in
    if not (eq_ℤ new_total_qty (pos 0))
    then pos 0
    else signed half_up (received_value q r) 100_000_000

abbrev pub receipt_type : Receipt → Option String → String
receipt_type r (some t) =
    if str_eq t ""
    then (if not (str_eq r.source_table "cycle_count_line") then "receipt" else "adjustment")
    else t
receipt_type r none =
    if not (str_eq r.source_table "cycle_count_line") then "receipt" else "adjustment"

abbrev pub receipt_move : Receipt → StockMove
receipt_move r = record {
  id = r.move_id;
  company_id = r.company_id;
  product_id = r.product_id;
  source_location_id = none;
  dest_location_id = some r.location_id;
  qty = r.qty;
  unit_cost = stored_cost r.unit_cost;
  move_type = receipt_type r r.move_type;
  source_table = r.source_table;
  source_id = r.source_id;
}

abbrev pub receive_fifo : Receipt → StockQuant → List StockQuant → Stock → Stock
receive_fifo r q qs s = record s {
  quants = save_quant (record q { qty_on_hand = q.qty_on_hand +ℤ r.qty }) qs;
  layers = receipt_layer r ∷ s.layers;
  moves = receipt_move r ∷ s.moves;
}

abbrev pub receive_average : Receipt → StockQuant → List StockQuant → Stock → Stock
receive_average r q qs s = record s {
  quants =
      save_quant
        (record q {
          qty_on_hand = q.qty_on_hand +ℤ r.qty;
          moving_avg_cost = average_after_receipt q r;
        })
        qs;
  moves = receipt_move r ∷ s.moves;
}

-- Returns the move, the valuation variance (in units of 10^-4) and the tables.
unfoldable pub receive_stock : Receipt → Stock → Result StockError (StockMove × ℤ × Stock)
receive_stock r s =
    let (q, qs) = get_or_create_for_update r.company_id r.product_id r.location_id s.quants in
    if leb_ℤ r.qty (pos 0)
    then err (stock_value_error "Received quantity must be positive")
    else (if str_eq r.valuation_method "fifo"
        then ok (receipt_move r, pos 0, receive_fifo r q qs s)
        else ok (receipt_move r, variance_of_receipt q r, receive_average r q qs s))

-- The optional product, role and notification repositories: a product's reorder point (`none` for an
-- unknown product or no point) and the users with `inventory.stock.view`.
pub record Alerts : Type 0 where
  pub reorder_point : ℕ → Option ℤ
  pub recipients : ℕ → List ℕ

-- `total_before > product.reorder_point >= total_after`
abbrev pub crossed : ℤ → ℤ → ℤ → Bool
crossed total_after qty_issued point =
    ltb_ℤ point (total_after +ℤ qty_issued) && leb_ℤ total_after point

abbrev pub notify : ℕ → ℕ → ℤ → List ℕ → List Notification
notify c p total [] = []
notify c p total (u ∷ us) =
    record { company_id = c; recipient_user_id = u; product_id = p; on_hand = total }
    ∷ notify c p total us

abbrev pub notify_at : Alerts → ℕ → ℕ → ℤ → ℤ → Option ℤ → List Notification
notify_at a c p qty_issued total none = []
notify_at a c p qty_issued total (some point) =
    if crossed total qty_issued point then notify c p total (a.recipients c) else []

-- `_notify_if_crossed_low_stock`: the notifications that it adds.
unfoldable pub notify_if_crossed_low_stock :
    Option Alerts → ℕ → ℕ → ℤ → List StockQuant → List Notification
notify_if_crossed_low_stock none c p qty_issued qs = []
notify_if_crossed_low_stock (some a) c p qty_issued qs =
    notify_at a c p qty_issued (qty_on_hand_for_product c p qs) (a.reorder_point p)

pub record Issue : Type 0 where
  pub company_id : ℕ
  pub product_id : ℕ
  pub location_id : ℕ
  pub qty : ℤ
  pub valuation_method : String
  pub source_table : String
  pub source_id : ℕ
  pub move_type : String
  pub allow_negative : Bool
  pub move_id : ℕ
  pub now : ℕ

-- What the strategy is given: the layers, or one that stands for the whole quant.
abbrev pub whole_quant : Issue → StockQuant → StockLayer
whole_quant i q = record {
  id = 0;
  company_id = i.company_id;
  product_id = i.product_id;
  location_id = i.location_id;
  qty_remaining = q.qty_on_hand;
  unit_cost = q.moving_avg_cost;
  received_at = i.now;
}

abbrev pub issue_layers : Issue → StockQuant → Stock → List StockLayer
issue_layers i q s =
    if str_eq i.valuation_method "fifo"
    then list_available i.product_id i.location_id s.layers
    else whole_quant i q ∷ []

-- The handler of `InsufficientStockError`: with the override, the last known unit cost.
abbrev pub or_override :
    Issue → StockQuant → Result StockError IssueResult → Result StockError IssueResult
or_override i q (ok r) = ok r
or_override i q (err (stock_value_error m)) = err (stock_value_error m)
or_override i q (err insufficient_stock) =
    if not i.allow_negative
    then err insufficient_stock
    else ok (record {
      total_cost = i.qty *ℤ q.moving_avg_cost;
      unit_cost = q.moving_avg_cost;
      consumed = [];
    })

unfoldable pub average_after_issue : StockQuant → Issue → ℤ → ℤ
average_after_issue q i total_cost =
    let new_qty : ℤ = q.qty_on_hand -ℤ i.qty in
    if not (eq_ℤ new_qty (pos 0))
    then divide half_up (q.qty_on_hand *ℤ q.moving_avg_cost -ℤ total_cost) new_qty
    else q.moving_avg_cost

abbrev pub issued_quant : Issue → StockQuant → IssueResult → StockQuant
issued_quant i q r = record q {
  qty_on_hand = q.qty_on_hand -ℤ i.qty;
  moving_avg_cost =
      if str_eq i.valuation_method "fifo"
      then q.moving_avg_cost
      else average_after_issue q i r.total_cost;
}

abbrev pub issue_move : Issue → IssueResult → StockMove
issue_move i r = record {
  id = i.move_id;
  company_id = i.company_id;
  product_id = i.product_id;
  source_location_id = some i.location_id;
  dest_location_id = none;
  qty = i.qty;
  unit_cost = stored_cost r.unit_cost;
  move_type = i.move_type;
  source_table = i.source_table;
  source_id = i.source_id;
}

abbrev pub issued :
    Option Alerts → Issue → StockQuant → List StockQuant → IssueResult → Stock → Stock
issued a i q qs r s =
    let after = save_quant (issued_quant i q r) qs in
    record {
      quants = after;
      layers =
          if str_eq i.valuation_method "fifo"
          then subtract_layers r.consumed s.layers
          else s.layers;
      moves = issue_move i r ∷ s.moves;
      notifications =
          notify_if_crossed_low_stock a i.company_id i.product_id i.qty after ++ s.notifications;
    }

-- Returns the move, the cost of the goods and the tables.
unfoldable pub issue_stock :
    Option Alerts → Issue → Stock → Result StockError (StockMove × ℤ × Stock)
issue_stock a i s =
    let (q, qs) = get_or_create_for_update i.company_id i.product_id i.location_id s.quants in
    do
      raise_if (leb_ℤ i.qty (pos 0)) (stock_value_error "Issued quantity must be positive")
      strategy ← get_valuation_strategy i.valuation_method
      result ←
          or_override i q (compute_issue_cost strategy i.qty (issue_layers i q s) q.moving_avg_cost)
      ok (issue_move i result, result.total_cost, issued a i q qs result s)

-- `product_cardex`: the moves in the range with a running balance.
abbrev pub signed_qty : StockMove → ℤ
signed_qty m = elim m.dest_location_id [ some d ↦ m.qty | none ↦ pos 0 -ℤ m.qty ]

pub record CardexLine : Type 0 where
  pub move : StockMove
  pub signed : ℤ
  pub running_qty : ℤ

unfoldable pub cardex_lines : ℤ → List StockMove → List CardexLine × ℤ
cardex_lines running [] = ([], running)
cardex_lines running (m ∷ ms) =
    let next : ℤ = running +ℤ signed_qty m in
    let (lines, closing) = cardex_lines next ms in
    (record { move = m; signed = signed_qty m; running_qty = next } ∷ lines, closing)
