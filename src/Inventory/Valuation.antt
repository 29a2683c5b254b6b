-- ===== src/Inventory/Valuation.antt =====
-- backend/src/modules/inventory/domain/valuation: what an issue costs, by FIFO layers or at the moving
-- average.
pub mod Fifo
use text.Mathlib.Text.{◌==◌ as str_eq}
use alfahd_erp_system.Prelude.{
  ℕ, Bool, true, false, List, [], ◌∷◌, ◌++◌, ltb_ℤ, leb_ℤ, min_ℤ, if◌then◌else◌, ℤ, pos, ◌+ℤ◌, ◌-ℤ◌,
  ◌*ℤ◌, Result, ok, err, raise_if, ◌>>=◌, ◌>>◌, String, sum_of,
}
use alfahd_erp_system.Decimal.{half_even, divide, signed}
use alfahd_erp_system.Inventory.Store.{StockLayer, sorted_by_time}

pub data StockError : Type 0 where
  insufficient_stock : StockError
  stock_value_error : String → StockError

pub record IssueResult : Type 0 where
  pub total_cost : ℤ
  pub unit_cost : ℤ
  pub consumed : List (ℕ × ℤ)

-- The variables of the FIFO loop.
pub record FifoState : Type 0 where
  pub remaining : ℤ
  pub total_cost : ℤ
  pub consumed : List (ℕ × ℤ)

-- One round on a layer, when something is still wanted.
unfoldable pub take_layer : StockLayer → FifoState → FifoState
take_layer l s =
    let take : ℤ = min_ℤ l.qty_remaining s.remaining in
    if leb_ℤ take (pos 0) then s else record {
      remaining = s.remaining -ℤ take;
      total_cost = s.total_cost +ℤ take *ℤ l.unit_cost;
      consumed = s.consumed ++ ((l.id, take) ∷ []);
    }

unfoldable pub fifo_loop : List StockLayer → FifoState → FifoState
fifo_loop [] s = s
fifo_loop (l ∷ ls) s =
    let rest = fifo_loop ls (take_layer l s) in if leb_ℤ s.remaining (pos 0) then s else rest

-- The unit cost has four decimals.
abbrev pub fifo_unit_cost : ℤ → ℤ → ℤ
fifo_unit_cost total qty =
    if ltb_ℤ (pos 0) qty then divide half_even total (qty *ℤ pos 100) *ℤ pos 100 else pos 0

abbrev pub fifo_start : ℤ → FifoState
fifo_start qty = record { remaining = qty; total_cost = pos 0; consumed = [] }

-- `FifoValuationStrategy.compute_issue_cost`
unfoldable pub fifo_issue_cost : ℤ → List StockLayer → Result StockError IssueResult
fifo_issue_cost qty layers =
    let s = fifo_loop (sorted_by_time layers) (fifo_start qty) in
    if ltb_ℤ (pos 0) s.remaining
    then err insufficient_stock
    else ok (record {
      total_cost = s.total_cost;
      unit_cost = fifo_unit_cost s.total_cost qty;
      consumed = s.consumed;
    })

-- `AverageValuationStrategy.compute_issue_cost`: the total has four decimals.
unfoldable pub average_issue_cost : ℤ → List StockLayer → ℤ → Result StockError IssueResult
average_issue_cost qty layers moving_avg_cost =
    let available = sum_of (λ l. l.qty_remaining) layers in
    if ltb_ℤ available qty
    then err insufficient_stock
    else ok (record {
      total_cost = signed half_even (qty *ℤ moving_avg_cost) 100_000_000 *ℤ pos 100_000_000;
      unit_cost = moving_avg_cost;
      consumed = [];
    })

pub data Strategy : Type 0 where
  fifo average : Strategy

unfoldable pub get_valuation_strategy : String → Result StockError Strategy
get_valuation_strategy method =
    if str_eq method "fifo"
    then ok fifo
    else (if str_eq method "average"
        then ok average
        else err (stock_value_error "Unknown valuation method"))

unfoldable pub compute_issue_cost :
    Strategy → ℤ → List StockLayer → ℤ → Result StockError IssueResult
compute_issue_cost fifo qty layers avg = fifo_issue_cost qty layers
compute_issue_cost average qty layers avg = average_issue_cost qty layers avg
