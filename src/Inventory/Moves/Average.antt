-- ===== src/Inventory/Moves/Average.antt =====
-- Receipts and issues at the moving average: the quant's value follows the value that moves.
use text.Mathlib.Text.{◌==◌ as str_eq}
use alfahd_erp_system.Prelude.{
  ℕ, ◌≡◌, refl, ap, true, false, Option, some, [], ◌∷◌, eq_ℤ, if◌then◌else◌, ℤ, pos, ◌+ℤ◌, ◌-ℤ◌,
  ◌*ℤ◌, ok, ◌≤◌, ◌*◌, arith, eq_of_parts, Bool-cases, eq_of_sub-eq_zero, add-sub_assoc,
  Result-cases, *ℤ_comm, zero_*ℤ, zero_+ℤ, +ℤ_zero, inl, inr, ◌≢◌,
}
use alfahd_erp_system.Decimal.{
  half_up, half_even, signed, abs, divide_near, half_up_nearest, half_even_nearest,
}
use alfahd_erp_system.Inventory.Store.{
  StockQuant, Stock, StockMove, get_quant, get_or_create_for_update,
}
use alfahd_erp_system.Inventory.Store.Quants.{locked, get_quant-save, get_quant-locked, locked-key}
use alfahd_erp_system.Inventory.Valuation.{
  IssueResult, average_issue_cost, get_valuation_strategy, compute_issue_cost,
}
use alfahd_erp_system.Inventory.Moves.{
  Issue, Alerts, or_override, whole_quant, average_after_issue, issued, issued_quant, issue_stock,
  Receipt, receive_stock, received_value, average_after_receipt, variance_of_receipt,
  receive_average,
}

abbrev pub value_of : StockQuant → ℤ
value_of q = q.qty_on_hand *ℤ q.moving_avg_cost

average_near :
    (q : StockQuant) (r : Receipt)
    → q.qty_on_hand +ℤ r.qty ≢ pos 0
    → 2 * abs (average_after_receipt q r *ℤ (q.qty_on_hand +ℤ r.qty) -ℤ received_value q r)
      ≤ abs (q.qty_on_hand +ℤ r.qty)
unfolding average_after_receipt
average_near q r h = ground (
  arith,
  eq_of_parts (q.qty_on_hand +ℤ r.qty) (pos 0),
  divide_near half_up half_up_nearest (received_value q r) (q.qty_on_hand +ℤ r.qty),
)

-- A stored product of two rounded magnitudes: the variance of a receipt.
variance_near :
    (q : StockQuant) (r : Receipt)
    → q.qty_on_hand +ℤ r.qty ≡ pos 0
    → 2 * abs (variance_of_receipt q r *ℤ pos 100_000_000 -ℤ received_value q r) ≤ 100_000_000
unfolding variance_of_receipt
variance_near q r h = ground (
  arith,
  eq_of_parts (q.qty_on_hand +ℤ r.qty) (pos 0),
  divide_near half_up half_up_nearest (received_value q r) (pos 100_000_000),
)

-- Half a unit of the last place of the stored value: of the average, or at quantity zero of the variance.
abbrev pub tolerance : ℤ → ℕ
tolerance qty = if eq_ℤ qty (pos 0) then 100_000_000 else abs qty

variance-zero :
    (q : StockQuant) (r : Receipt)
    → eq_ℤ (q.qty_on_hand +ℤ r.qty) (pos 0) ≡ false
    → variance_of_receipt q r ≡ pos 0
unfolding variance_of_receipt
variance-zero q r e = ground arith

receive_average_near :
    (q : StockQuant) (r : Receipt)
    → 2
        * abs (
            (q.qty_on_hand +ℤ r.qty) *ℤ average_after_receipt q r
            +ℤ variance_of_receipt q r *ℤ pos 100_000_000
            -ℤ (value_of q +ℤ r.qty *ℤ r.unit_cost))
      ≤ tolerance (q.qty_on_hand +ℤ r.qty)
receive_average_near q r =
    let n : ℤ = q.qty_on_hand +ℤ r.qty in
    let v : ℤ = received_value q r in
    elim (Bool-cases (eq_ℤ n (pos 0))) [
      | inl e ↦
          let z : n ≡ pos 0 = ground (arith, eq_of_parts n (pos 0)) in
          rw e (
            rw z (
              rw (zero_*ℤ (average_after_receipt q r))
                (rw (zero_+ℤ (variance_of_receipt q r *ℤ pos 100_000_000)) (variance_near q r z))))
      | inr e ↦
          let z : variance_of_receipt q r ≡ pos 0 = variance-zero q r e in
          rw e (
            rw z (
              rw (zero_*ℤ (pos 100_000_000)) (
                rw (+ℤ_zero (n *ℤ average_after_receipt q r))
                  (rw (*ℤ_comm n (average_after_receipt q r)) (average_near q r (ground arith))))))
    ]

-- The row that a receipt writes.
abbrev pub received_quant : StockQuant → Receipt → StockQuant
received_quant q r = record q {
  qty_on_hand = q.qty_on_hand +ℤ r.qty;
  moving_avg_cost = average_after_receipt q r;
}

-- A receipt at the moving average adds exactly its quantity to the row of its product and location,
-- and the new value of the row together with the variance it returns is the old value and what the
-- receipt is worth, up to half a unit of the last place of what is stored.
pub receive_stock_conserves_value :
    (r : Receipt) (s : Stock) {m : StockMove} {v : ℤ} {t : Stock}
    → str_eq r.valuation_method "fifo" ≡ false
    → receive_stock r s ≡ ok (m, v, t)
    → let before = locked r.company_id r.product_id r.location_id s in
      (after : StockQuant) × (get_quant r.product_id r.location_id t.quants ≡ some after)
      × (after.qty_on_hand ≡ before.qty_on_hand +ℤ r.qty)
      × (2
            * abs (
                value_of after +ℤ v *ℤ pos 100_000_000 -ℤ (value_of before +ℤ r.qty *ℤ r.unit_cost))
          ≤ tolerance after.qty_on_hand)
unfolding receive_stock
receive_stock_conserves_value r s {m} {v} {t} hf h =
    let found = get_or_create_for_update r.company_id r.product_id r.location_id s.quants in
    let key = locked-key r.company_id r.product_id r.location_id s.quants in
    let k : (v ≡ variance_of_receipt found.0 r) × (t ≡ receive_average r found.0 found.1 s) =
      ground arith in
    let row =
      get_quant-save r.product_id r.location_id (received_quant found.0 r) found.1 {x = found.0}
        key.0 key.1 (get_quant-locked r.company_id r.product_id r.location_id s.quants) in
    rw (k.0) (rw (k.1) (received_quant found.0 r, row, refl, receive_average_near found.0 r))

average_after_issue_near :
    (q : StockQuant) (i : Issue) (cost : ℤ)
    → eq_ℤ (q.qty_on_hand -ℤ i.qty) (pos 0) ≡ false
    → 2 * abs (average_after_issue q i cost *ℤ (q.qty_on_hand -ℤ i.qty) -ℤ (value_of q -ℤ cost))
      ≤ abs (q.qty_on_hand -ℤ i.qty)
unfolding average_after_issue
average_after_issue_near q i cost h =
    ground
      (arith, divide_near half_up half_up_nearest (value_of q -ℤ cost) (q.qty_on_hand -ℤ i.qty))

-- What the strategy charges when the issue takes all there is.
average_issue_cost_all :
    (q : StockQuant) (i : Issue) {x : IssueResult}
    → q.qty_on_hand -ℤ i.qty ≡ pos 0
    → or_override i q (average_issue_cost i.qty (whole_quant i q ∷ []) q.moving_avg_cost) ≡ ok x
    → 2 * abs (x.total_cost -ℤ value_of q) ≤ 100_000_000
unfolding average_issue_cost
average_issue_cost_all q i {x} z h =
    let e : q.qty_on_hand ≡ i.qty = eq_of_sub-eq_zero q.qty_on_hand i.qty z in
    let k : x.total_cost
        ≡ signed half_even (i.qty *ℤ q.moving_avg_cost) 100_000_000 *ℤ pos 100_000_000 =
      ground (arith, e, +ℤ_zero q.qty_on_hand) in
    rw k (
      rw e (
        divide_near half_even half_even_nearest (i.qty *ℤ q.moving_avg_cost) (pos 100_000_000)
          (omega arith)))

issue_average_near :
    (q : StockQuant) (i : Issue) {x : IssueResult}
    → str_eq i.valuation_method "fifo" ≡ false
    → or_override i q (average_issue_cost i.qty (whole_quant i q ∷ []) q.moving_avg_cost) ≡ ok x
    → 2 * abs (value_of (issued_quant i q x) +ℤ x.total_cost -ℤ value_of q)
      ≤ tolerance (q.qty_on_hand -ℤ i.qty)
issue_average_near q i {x} nf h =
    let n : ℤ = q.qty_on_hand -ℤ i.qty in
    let avg = average_after_issue q i x.total_cost in
    elim (Bool-cases (eq_ℤ n (pos 0))) [
      | inl e ↦
          let z : n ≡ pos 0 = ground (arith, eq_of_parts n (pos 0)) in
          rw nf (
            rw e (
              rw z (rw (zero_*ℤ avg) (rw (zero_+ℤ x.total_cost) (average_issue_cost_all q i z h)))))
      | inr e ↦ rw nf (
          rw e (
            rw (add-sub_assoc (n *ℤ avg) x.total_cost (value_of q))
              (rw (*ℤ_comm n avg) (average_after_issue_near q i x.total_cost e))))
    ]

-- An issue at the moving average that returned.
issue_stock-average-eq-ok :
    (a : Option Alerts) (i : Issue) (s : Stock) {m : StockMove} {cost : ℤ} {t : Stock}
    → i.valuation_method ≡ "average"
    → issue_stock a i s ≡ ok (m, cost, t)
    → let found = get_or_create_for_update i.company_id i.product_id i.location_id s.quants in
      (x : IssueResult) × (or_override i found.0
          (average_issue_cost i.qty (whole_quant i found.0 ∷ []) found.0.moving_avg_cost)
        ≡ ok x)
      × (cost ≡ x.total_cost)
      × (t ≡ issued a i found.0 found.1 x s)
unfolding issue_stock get_valuation_strategy compute_issue_cost
issue_stock-average-eq-ok a i s {m} {cost} {t} hf h =
    let nf : str_eq i.valuation_method "fifo" ≡ false = ap (λ v. str_eq v "fifo") hf in
    let av : str_eq i.valuation_method "average" ≡ true = ap (λ v. str_eq v "average") hf in
    let q = (get_or_create_for_update i.company_id i.product_id i.location_id s.quants).0 in
    let c = or_override i q (average_issue_cost i.qty (whole_quant i q ∷ []) q.moving_avg_cost) in
    elim (Result-cases c) [
      | inl (x, e) ↦ (x, e, ground arith, ground arith)
      | inr (x, e) ↦ ground arith
    ]

-- An issue at the moving average takes exactly its quantity off the row, overdrawn or not, and the new
-- value of the row together with the cost it charges is the old value, up to half a unit of the last
-- place of what is stored.
pub issue_stock_conserves_value :
    (a : Option Alerts) (i : Issue) (s : Stock) {m : StockMove} {cost : ℤ} {t : Stock}
    → i.valuation_method ≡ "average"
    → issue_stock a i s ≡ ok (m, cost, t)
    → let before = locked i.company_id i.product_id i.location_id s in
      (after : StockQuant) × (get_quant i.product_id i.location_id t.quants ≡ some after)
      × (after.qty_on_hand ≡ before.qty_on_hand -ℤ i.qty)
      × (2 * abs (value_of after +ℤ cost -ℤ value_of before) ≤ tolerance after.qty_on_hand)
unfolding issue_stock get_valuation_strategy compute_issue_cost
issue_stock_conserves_value a i s {m} {cost} {t} hf h =
    let found = get_or_create_for_update i.company_id i.product_id i.location_id s.quants in
    let key = locked-key i.company_id i.product_id i.location_id s.quants in
    let back = issue_stock-average-eq-ok a i s hf h in
    let row =
      get_quant-save i.product_id i.location_id (issued_quant i found.0 back.0) found.1
        {x = found.0} key.0 key.1
        (get_quant-locked i.company_id i.product_id i.location_id s.quants) in
    rw (back.2) (
      rw (back.3) (
        issued_quant i found.0 back.0,
        row,
        refl,
        issue_average_near found.0 i (ap (λ v. str_eq v "fifo") hf) back.1,
      ))
