-- ===== src/Inventory/Moves/Override.antt =====
-- The negative-stock override under FIFO: no FIFO movement sets the average that it charges.
use text.Mathlib.Text.{◌==◌ as str_eq}
use alfahd_erp_system.Prelude.{
  ℕ, ◌≡◌, refl, sym, ◌∙◌, ap, Bool, true, Option, some, List, [], ◌∷◌, find?, Bool-cases,
  Option-cases, inl, inr, ℤ, pos, ◌+ℤ◌, ◌*ℤ◌, ◌<ℤ◌, *ℤ_comm, zero_*ℤ, ok, arith, All,
}
use alfahd_erp_system.Inventory.Store.{
  StockQuant, StockMove, Stock, is_quant, get_quant, get_or_create_for_update, save_quant,
  list_available,
}
use alfahd_erp_system.Inventory.Store.ByTime.{total_qty}
use alfahd_erp_system.Inventory.Valuation.{IssueResult, get_valuation_strategy, compute_issue_cost}
use alfahd_erp_system.Inventory.Valuation.Fifo.{fifo_issue_cost_refused}
use alfahd_erp_system.Inventory.Moves.{
  issue_move, Receipt, receive_stock, receive_fifo, Issue, Alerts, issue_stock, issued,
}
use alfahd_erp_system.Inventory.Moves.Issues.{list_available-IsStocked}

-- A row whose average has its default.
abbrev pub IsUncosted : StockQuant → Type 0
IsUncosted q = q.moving_avg_cost ≡ pos 0

found-IsUncosted :
    (p : StockQuant → Bool) (qs : List StockQuant) {q : StockQuant}
    → All IsUncosted qs
    → find? p qs ≡ some q
    → IsUncosted q
found-IsUncosted p [] k h = cc
found-IsUncosted p (x ∷ xs) {q = q} k h = elim (Bool-cases (p x)) [
  | inl e ↦
      let same : x ≡ q = ground arith in ap (λ (y : StockQuant). y.moving_avg_cost) (sym same) ∙ k.0
  | inr e ↦ found-IsUncosted p xs {q = q} k.1 (ground arith)
]

locked-IsUncosted :
    (c p l : ℕ) (qs : List StockQuant)
    → All IsUncosted qs
    → IsUncosted (get_or_create_for_update c p l qs).0
      × All IsUncosted (get_or_create_for_update c p l qs).1
unfolding get_or_create_for_update get_quant
locked-IsUncosted c p l qs k = elim (Option-cases (find? (is_quant p l) qs)) [
  | inl e ↦ rw e (refl, (refl, k))
  | inr (q, e) ↦ rw e (found-IsUncosted (is_quant p l) qs k e, k)
]

save-IsUncosted :
    (q : StockQuant) (qs : List StockQuant)
    → IsUncosted q
    → All IsUncosted qs
    → All IsUncosted (save_quant q qs)
save-IsUncosted q [] u k = tt
save-IsUncosted q (x ∷ xs) u k = elim (Bool-cases (is_quant q.product_id q.location_id x)) [
  | inl e ↦ rw e (u, save-IsUncosted q xs u k.1)
  | inr e ↦ rw e (k.0, save-IsUncosted q xs u k.1)
]

receive_stock-IsUncosted :
    (r : Receipt) (s : Stock) {m : StockMove} {v : ℤ} {t : Stock}
    → str_eq r.valuation_method "fifo" ≡ true
    → receive_stock r s ≡ ok (m, v, t)
    → All IsUncosted s.quants
    → All IsUncosted t.quants
unfolding receive_stock
receive_stock-IsUncosted r s {m} {v} {t} hf h k =
    let found = get_or_create_for_update r.company_id r.product_id r.location_id s.quants in
    let (u, us) = locked-IsUncosted r.company_id r.product_id r.location_id s.quants k in
    let e : t ≡ receive_fifo r found.0 found.1 s = ground arith in
    rw e
      (save-IsUncosted (record found.0 { qty_on_hand = found.0.qty_on_hand +ℤ r.qty }) found.1 u us)

abbrev overdrawn : StockQuant → Issue → IssueResult
overdrawn q i = record {
  total_cost = i.qty *ℤ q.moving_avg_cost;
  unit_cost = q.moving_avg_cost;
  consumed = [];
}

-- When no row has an average, which is how FIFO receipts leave a fresh table, and the layers hold less
-- than a FIFO issue with the override wants, the issue is charged nothing.
pub fifo_override_charges_nothing :
    (a : Option Alerts) (r : Receipt) (i : Issue) (s : Stock) {m : StockMove} {v : ℤ} {t : Stock}
    → All IsUncosted s.quants
    → r.valuation_method ≡ "fifo"
    → receive_stock r s ≡ ok (m, v, t)
    → i.valuation_method ≡ "fifo"
    → i.allow_negative ≡ true
    → pos 0 <ℤ i.qty
    → total_qty (list_available i.product_id i.location_id t.layers) <ℤ i.qty
    → (m' : StockMove) × ((t' : Stock) × (issue_stock a i t ≡ ok (m', pos 0, t')))
unfolding issue_stock get_valuation_strategy compute_issue_cost
fifo_override_charges_nothing a r i s {m} {v} {t} k hr h hf hn hq short =
    let uncosted = receive_stock-IsUncosted r s (ap (λ x. str_eq x "fifo") hr) h k in
    let found = get_or_create_for_update i.company_id i.product_id i.location_id t.quants in
    let avg = (locked-IsUncosted i.company_id i.product_id i.location_id t.quants uncosted).0 in
    let layers = list_available i.product_id i.location_id t.layers in
    let refused =
      (fifo_issue_cost_refused i.qty layers
          (list_available-IsStocked i.product_id i.location_id t.layers) hq).1
        short in
    let ff : str_eq i.valuation_method "fifo" ≡ true = ap (λ x. str_eq x "fifo") hf in
    let free : i.qty *ℤ found.0.moving_avg_cost ≡ pos 0 =
      ap (λ (n : ℤ). i.qty *ℤ n) avg ∙ *ℤ_comm i.qty (pos 0) ∙ zero_*ℤ i.qty in
    let x = overdrawn found.0 i in
    let run : issue_stock a i t
        ≡ ok (issue_move i x, i.qty *ℤ found.0.moving_avg_cost, issued a i found.0 found.1 x t) =
      ground arith in
    (
      issue_move i x,
      (
        issued a i found.0 found.1 x t,
        run ∙ ap (λ (n : ℤ). ok (issue_move i x, n, issued a i found.0 found.1 x t)) free,
      ),
    )
