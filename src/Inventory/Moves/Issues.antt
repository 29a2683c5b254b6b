-- ===== src/Inventory/Moves/Issues.antt =====
-- Issues out of FIFO layers: the layer table loses exactly what is issued and what is charged for it.
use text.Mathlib.Text.{◌==◌ as str_eq}
use alfahd_erp_system.Prelude.{
  ℕ, ◌≡◌, sym, ◌∙◌, ap, true, false, Option, List, keep, ◌<ℤ◌, ℤ, pos, ◌-ℤ◌, ok, arith,
  Result-cases, inl, inr, All, All-keep,
}
use alfahd_erp_system.Inventory.Store.{
  StockLayer, Stock, StockMove, sorted_by_time, list_available, is_available, subtract_layers,
}
use alfahd_erp_system.Inventory.Store.ByTime.{total_qty, All-sorted}
use alfahd_erp_system.Inventory.Valuation.{
  IssueResult, fifo_issue_cost, get_valuation_strategy, compute_issue_cost,
}
use alfahd_erp_system.Inventory.Valuation.Fifo.{
  total_value, IsStocked, cut_consumed, fifo_issue_cost_cuts,
}
use alfahd_erp_system.Inventory.Moves.{Issue, Alerts, issue_stock}
use alfahd_erp_system.Inventory.Moves.Layers.{
  IsKeyed, IsPriced, consumed_totals, All-IsPriced, IsStocked-keep,
}

pub list_available-IsStocked :
    (p l : ℕ) (xs : List StockLayer) → All IsStocked (list_available p l xs)
unfolding list_available
list_available-IsStocked p l xs =
    All-sorted IsStocked (keep (is_available p l) xs) (IsStocked-keep p l xs)

list_available-IsPriced :
    (p l : ℕ) (xs : List StockLayer) → IsKeyed xs → All (IsPriced xs) (list_available p l xs)
unfolding list_available
list_available-IsPriced p l xs k =
    All-sorted (IsPriced xs) (keep (is_available p l) xs)
      (All-keep (IsPriced xs) (is_available p l) xs (All-IsPriced xs k))

issue_stock-fifo-eq-ok :
    (a : Option Alerts) (i : Issue) (s : Stock) {m : StockMove} {cost : ℤ} {t : Stock}
    → i.valuation_method ≡ "fifo"
    → i.allow_negative ≡ false
    → issue_stock a i s ≡ ok (m, cost, t)
    → (pos 0 <ℤ i.qty)
      × ((x : IssueResult) × (fifo_issue_cost i.qty
              (list_available i.product_id i.location_id s.layers)
            ≡ ok x)
          × (cost ≡ x.total_cost)
          × (t.layers ≡ subtract_layers x.consumed s.layers))
unfolding issue_stock get_valuation_strategy compute_issue_cost
issue_stock-fifo-eq-ok a i s {m} {cost} {t} hf hn h =
    let ff : str_eq i.valuation_method "fifo" ≡ true = ap (λ v. str_eq v "fifo") hf in
    (
      ground arith,
      elim (Result-cases
          (fifo_issue_cost i.qty (list_available i.product_id i.location_id s.layers))) [
            | inl (x, e) ↦ (x, e, ground arith, ground arith)
            | inr (x, e) ↦ ground arith
          ],
    )

-- A FIFO issue without the negative-stock override takes exactly its quantity and exactly the cost it
-- returns off the layers of the table, whose ids are different.
pub issue_stock_takes_layers :
    (a : Option Alerts) (i : Issue) (s : Stock) {m : StockMove} {cost : ℤ} {t : Stock}
    → IsKeyed s.layers
    → i.valuation_method ≡ "fifo"
    → i.allow_negative ≡ false
    → issue_stock a i s ≡ ok (m, cost, t)
    → (total_qty t.layers ≡ total_qty s.layers -ℤ i.qty)
      × (total_value t.layers ≡ total_value s.layers -ℤ cost)
issue_stock_takes_layers a i s {m} {cost} {t} k hf hn h =
    let (hq, (x, e, hc, hl)) = issue_stock-fifo-eq-ok a i s hf hn h in
    let layers = list_available i.product_id i.location_id s.layers in
    let cut =
      fifo_issue_cost_cuts i.qty layers
        (list_available-IsStocked i.product_id i.location_id s.layers) hq e in
    let (c, o, n, v, m) = cut in
    let priced =
      All-sorted (IsPriced s.layers) layers
        (list_available-IsPriced i.product_id i.location_id s.layers k) in
    let out = consumed_totals s.layers (sorted_by_time layers) i.qty k priced c in
    let left : t.layers ≡ subtract_layers (cut_consumed c) s.layers =
      hl ∙ ap (λ (cs : List (ℕ × ℤ)). subtract_layers cs s.layers) m in
    (
      ap total_qty left ∙ out.0,
      ap total_value left ∙ out.1 ∙ ap (λ (y : ℤ). total_value s.layers -ℤ y) (sym (hc ∙ v)),
    )
