-- ===== src/Tests/Stock.antt =====
-- A warehouse with one product: two receipts and an issue, by each valuation method.
use alfahd_erp_system.Prelude.{
  inl, inr, keep, true, ℕ, ◌≡◌, ◌↔◌, refl, false, none, some, List, [], ◌∷◌, arith, ℤ, pos, ◌+ℤ◌,
  ◌-ℤ◌, ◌*ℤ◌, ok, err, String, ◌<ℤ◌, map, All, ◌≤◌, ◌*◌,
}
use alfahd_erp_system.Decimal.{abs, half_up, half_even}
use alfahd_erp_system.Inventory.Store.{
  StockQuant, StockMove, StockLayer, Stock, get_quant, get_or_create_for_update, list_available,
  sorted_by_time,
}
use alfahd_erp_system.Inventory.Store.ByTime.{total_qty, IsBefore}
use alfahd_erp_system.Inventory.Store.Quants.{locked, on_hand}
use alfahd_erp_system.Inventory.Valuation.{
  insufficient_stock, IssueResult, fifo_issue_cost, fifo_loop, take_layer, compute_issue_cost,
  average_issue_cost, get_valuation_strategy,
}
use alfahd_erp_system.Inventory.Valuation.Fifo.{
  Cut, cut_cost, cut_consumed, total_value, fifo_issue_cost_cuts, fifo_issue_cost_refused,
}
use alfahd_erp_system.Inventory.Moves.{
  issue_move, receipt_move, Receipt, receive_stock, average_after_receipt, variance_of_receipt,
  Issue, issue_stock, average_after_issue, notify_if_crossed_low_stock, CardexLine, cardex_lines,
}
use alfahd_erp_system.Inventory.Moves.Average.{
  value_of, tolerance, receive_stock_conserves_value, issue_stock_conserves_value,
}
use alfahd_erp_system.Inventory.Moves.Issues.{issue_stock_takes_layers}
use alfahd_erp_system.Inventory.Moves.Override.{fifo_override_charges_nothing}
use mathlib.Core.List.{reverse}
use alfahd_erp_system.Inventory.Moves.Cardex.{is_of, cardex_closes_on_hand}
use alfahd_erp_system.Inventory.History.{
  StockReach, receives, issues, start, later, IsMovesSum, StockReach-IsMovesSum,
}

abbrev no_stock : Stock
no_stock = record { quants = []; layers = []; moves = []; notifications = [] }

abbrev receipt : String → ℕ → ℤ → ℤ → Receipt
receipt method i qty cost = record {
  company_id = 7;
  product_id = 3;
  location_id = 4;
  qty = qty;
  unit_cost = cost;
  valuation_method = method;
  source_table = "goods_receipt";
  source_id = 1;
  move_type = none;
  layer_id = i;
  move_id = i;
  now = i;
}

abbrev issue : String → ℤ → Issue
issue method qty = record {
  company_id = 7;
  product_id = 3;
  location_id = 4;
  qty = qty;
  valuation_method = method;
  source_table = "delivery";
  source_id = 2;
  move_type = "delivery";
  allow_negative = false;
  move_id = 90;
  now = 9;
}

abbrev layer : ℕ → ℤ → ℤ → StockLayer
layer i qty cost = record {
  id = i;
  company_id = 7;
  product_id = 3;
  location_id = 4;
  qty_remaining = qty;
  unit_cost = cost;
  received_at = i;
}

-- 2 units at 5, then 3 units at 6; 4 units are wanted.
abbrev two_layers : List StockLayer
two_layers =
    layer 12 (pos 3_000_000) (pos 6_000_000) ∷ layer 11 (pos 2_000_000) (pos 5_000_000) ∷ []

abbrev four_issued : IssueResult
four_issued = record {
  total_cost = pos 22_000_000_000_000;
  unit_cost = pos 5_500_000;
  consumed = (11, pos 2_000_000) ∷ (12, pos 2_000_000) ∷ [];
}

fifo_run : fifo_issue_cost (pos 4_000_000) two_layers ≡ ok four_issued
unfolding fifo_issue_cost fifo_loop take_layer ◌-ℤ◌ ◌+ℤ◌ ◌*ℤ◌ half_even
fifo_run = refl

abbrev quant : ℤ → ℤ → StockQuant
quant qty avg = record {
  company_id = 7;
  product_id = 3;
  location_id = 4;
  qty_on_hand = qty;
  moving_avg_cost = avg;
}

abbrev fifo_stock : Stock
fifo_stock = record {
  quants = quant (pos 5_000_000) (pos 0) ∷ [];
  layers = two_layers;
  moves = [];
  notifications = [];
}

abbrev fifo_left : Stock
fifo_left = record {
  quants = quant (pos 1_000_000) (pos 0) ∷ [];
  layers = layer 12 (pos 1_000_000) (pos 6_000_000) ∷ layer 11 (pos 0) (pos 5_000_000) ∷ [];
  moves = issue_move (issue "fifo" (pos 4_000_000)) four_issued ∷ [];
  notifications = [];
}

fifo_issued :
    issue_stock none (issue "fifo" (pos 4_000_000)) fifo_stock
    ≡ ok (issue_move (issue "fifo" (pos 4_000_000)) four_issued, pos 22_000_000_000_000, fifo_left)
unfolding issue_stock get_valuation_strategy compute_issue_cost fifo_issue_cost fifo_loop
    list_available take_layer ◌-ℤ◌ ◌*ℤ◌ ◌+ℤ◌ get_or_create_for_update notify_if_crossed_low_stock
    half_even
fifo_issued = refl

abbrev average_stock : Stock
average_stock = record {
  quants = quant (pos 2_000_000) (pos 5_000_000) ∷ [];
  layers = [];
  moves = [];
  notifications = [];
}

-- Three more at 6.
abbrev restock : Receipt
restock = receipt "average" 30 (pos 3_000_000) (pos 6_000_000)

abbrev restocked : Stock
restocked = record {
  quants = quant (pos 5_000_000) (pos 5_600_000) ∷ [];
  layers = [];
  moves = receipt_move restock ∷ [];
  notifications = [];
}

average_received : receive_stock restock average_stock ≡ ok (receipt_move restock, pos 0, restocked)
unfolding receive_stock variance_of_receipt get_or_create_for_update ◌+ℤ◌ average_after_receipt ◌*ℤ◌
    half_up
average_received = refl

abbrev four_sold : IssueResult
four_sold = record { total_cost = pos 22_400_000_000_000; unit_cost = pos 5_600_000; consumed = [] }

abbrev sold : Stock
sold = record {
  quants = quant (pos 1_000_000) (pos 5_600_000) ∷ [];
  layers = [];
  moves = issue_move (issue "average" (pos 4_000_000)) four_sold ∷ receipt_move restock ∷ [];
  notifications = [];
}

average_issued :
    issue_stock none (issue "average" (pos 4_000_000)) restocked
    ≡ ok (issue_move (issue "average" (pos 4_000_000)) four_sold, pos 22_400_000_000_000, sold)
unfolding issue_stock get_valuation_strategy compute_issue_cost average_issue_cost ◌+ℤ◌
    get_or_create_for_update ◌*ℤ◌ ◌-ℤ◌ average_after_issue notify_if_crossed_low_stock half_even
    half_up
average_issued = refl

receive_stock_conserves_value_example :
    let before = locked 7 3 4 average_stock in
    (after : StockQuant) × (get_quant 3 4 restocked.quants ≡ some after)
    × (after.qty_on_hand ≡ before.qty_on_hand +ℤ pos 3_000_000)
    × (2
          * abs (
              value_of after
              +ℤ pos 0 *ℤ pos 100_000_000
              -ℤ (value_of before +ℤ pos 3_000_000 *ℤ pos 6_000_000))
        ≤ tolerance after.qty_on_hand)
receive_stock_conserves_value_example =
    receive_stock_conserves_value restock average_stock refl average_received

issue_stock_conserves_value_example :
    let before = locked 7 3 4 restocked in
    (after : StockQuant) × (get_quant 3 4 sold.quants ≡ some after)
    × (after.qty_on_hand ≡ before.qty_on_hand -ℤ pos 4_000_000)
    × (2 * abs (value_of after +ℤ pos 22_400_000_000_000 -ℤ value_of before)
        ≤ tolerance after.qty_on_hand)
issue_stock_conserves_value_example =
    issue_stock_conserves_value none (issue "average" (pos 4_000_000)) restocked refl average_issued

issue_stock_takes_layers_example :
    (total_qty fifo_left.layers ≡ total_qty fifo_stock.layers -ℤ pos 4_000_000)
    × (total_value fifo_left.layers ≡ total_value fifo_stock.layers -ℤ pos 22_000_000_000_000)
issue_stock_takes_layers_example =
    issue_stock_takes_layers none (issue "fifo" (pos 4_000_000)) fifo_stock ((refl, tt), (tt, tt))
      refl refl fifo_issued

fifo_issue_cost_cuts_example :
    (c : Cut (sorted_by_time two_layers) (pos 4_000_000)) × All
      (λ (l : StockLayer). IsBefore l c.opened)
      c.older
    × All (IsBefore c.opened) c.newer
    × (four_issued.total_cost ≡ cut_cost c)
    × (four_issued.consumed ≡ cut_consumed c)
fifo_issue_cost_cuts_example =
    fifo_issue_cost_cuts (pos 4_000_000) two_layers (omega arith, (omega arith, tt)) (omega arith)
      fifo_run

fifo_issue_cost_refused_example :
    (fifo_issue_cost (pos 6_000_000) two_layers ≡ err insufficient_stock)
    ↔ (total_qty two_layers <ℤ pos 6_000_000)
fifo_issue_cost_refused_example =
    fifo_issue_cost_refused (pos 6_000_000) two_layers (omega arith, (omega arith, tt))
      (omega arith)

-- Three come in and two go out.
abbrev pub opened_stock : Stock
opened_stock = record {
  quants = quant (pos 3_000_000) (pos 6_000_000) ∷ [];
  layers = [];
  moves = receipt_move restock ∷ [];
  notifications = [];
}

opened_received : receive_stock restock no_stock ≡ ok (receipt_move restock, pos 0, opened_stock)
unfolding receive_stock variance_of_receipt get_or_create_for_update ◌+ℤ◌ average_after_receipt ◌*ℤ◌
    half_up
opened_received = refl

no_stock-IsMovesSum : IsMovesSum no_stock
unfolding on_hand get_quant
no_stock-IsMovesSum = λ p l. refl

pub opened_stock-IsMovesSum : IsMovesSum opened_stock
opened_stock-IsMovesSum =
    StockReach-IsMovesSum no_stock opened_stock (later start (receives restock opened_received))
      no_stock-IsMovesSum

abbrev two_sold : IssueResult
two_sold = record { total_cost = pos 12_000_000_000_000; unit_cost = pos 6_000_000; consumed = [] }

abbrev one_left : Stock
one_left = record {
  quants = quant (pos 1_000_000) (pos 6_000_000) ∷ [];
  layers = [];
  moves = issue_move (issue "average" (pos 2_000_000)) two_sold ∷ receipt_move restock ∷ [];
  notifications = [];
}

two_issued :
    issue_stock none (issue "average" (pos 2_000_000)) opened_stock
    ≡ ok (issue_move (issue "average" (pos 2_000_000)) two_sold, pos 12_000_000_000_000, one_left)
unfolding issue_stock get_valuation_strategy compute_issue_cost average_issue_cost ◌+ℤ◌
    get_or_create_for_update ◌*ℤ◌ ◌-ℤ◌ average_after_issue notify_if_crossed_low_stock half_even
    half_up
two_issued = refl

in_and_out : StockReach no_stock one_left
in_and_out =
    later (later start (receives restock opened_received))
      (issues none (issue "average" (pos 2_000_000)) two_issued)

StockReach-IsMovesSum_example : IsMovesSum one_left
StockReach-IsMovesSum_example =
    StockReach-IsMovesSum no_stock one_left in_and_out no_stock-IsMovesSum

cardex_closes_on_hand_example :
    let ms = reverse (keep (is_of 3) one_left.moves) in
    (map (λ (c : CardexLine). c.move) (cardex_lines (pos 0) ms).0 ≡ ms)
    × ((cardex_lines (pos 0) ms).1 ≡ on_hand 3 4 one_left.quants)
cardex_closes_on_hand_example =
    cardex_closes_on_hand no_stock one_left 3 4 in_and_out no_stock-IsMovesSum
      (λ own. inr (refl, refl), (λ own. inl (refl, refl), tt))

-- Two units at 5 come in, four go out with the override.
abbrev two_received : Stock
two_received = record {
  quants = quant (pos 2_000_000) (pos 0) ∷ [];
  layers = layer 11 (pos 2_000_000) (pos 5_000_000) ∷ [];
  moves = receipt_move (receipt "fifo" 11 (pos 2_000_000) (pos 5_000_000)) ∷ [];
  notifications = [];
}

fifo_received :
    receive_stock (receipt "fifo" 11 (pos 2_000_000) (pos 5_000_000)) no_stock
    ≡ ok (receipt_move (receipt "fifo" 11 (pos 2_000_000) (pos 5_000_000)), pos 0, two_received)
unfolding receive_stock variance_of_receipt get_or_create_for_update ◌+ℤ◌ ◌*ℤ◌ half_up
fifo_received = refl

abbrev overriding : Issue
overriding = record (issue "fifo" (pos 4_000_000)) { allow_negative = true }

two_short : total_qty (list_available 3 4 two_received.layers) <ℤ pos 4_000_000
unfolding list_available ◌+ℤ◌
two_short = omega arith

fifo_override_charges_nothing_example :
    (m : StockMove) × ((t : Stock) × (issue_stock none overriding two_received ≡ ok (m, pos 0, t)))
fifo_override_charges_nothing_example =
    fifo_override_charges_nothing none (receipt "fifo" 11 (pos 2_000_000) (pos 5_000_000))
      overriding no_stock tt refl fifo_received refl refl (omega arith) two_short
