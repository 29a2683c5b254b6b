-- ===== src/Inventory/History.antt =====
-- Stock over any sequence of receipts and issues: what is on hand is what the moves say.
use text.Mathlib.Text.{◌==◌ as str_eq}
use alfahd_erp_system.Prelude.{
  ℕ, ◌≡◌, refl, sym, ◌∙◌, ap, ◌&&◌, Option, none, some, List, ◌∷◌, ◌==◌, if◌then◌else◌, ℤ, pos,
  ◌+ℤ◌, ◌-ℤ◌, arith, int_laws, Bool-cases, Result-cases, ok, sum_of, inl, inr, +ℤ_comm, sub-add_neg,
}
use alfahd_erp_system.Inventory.Store.{
  StockQuant, StockMove, Stock, get_or_create_for_update, save_quant,
}
use alfahd_erp_system.Inventory.Store.Quants.{on_hand, on_hand-save, locked-key}
use alfahd_erp_system.Inventory.Valuation.{IssueResult, get_valuation_strategy, compute_issue_cost}
use alfahd_erp_system.Inventory.Moves.{
  Receipt, receive_stock, receipt_move, average_after_receipt, Issue, Alerts, issue_stock,
  issue_move, or_override, issue_layers, issued_quant,
}

-- What a move does to a product at a location.
abbrev at_location : ℕ → Option ℕ → ℤ → ℤ
at_location l none qty = pos 0
at_location l (some k) qty = if k == l then qty else pos 0

abbrev pub move_effect : ℕ → ℕ → StockMove → ℤ
move_effect p l m =
    if m.product_id == p
    then at_location l m.dest_location_id m.qty -ℤ at_location l m.source_location_id m.qty
    else pos 0

abbrev pub moved : ℕ → ℕ → List StockMove → ℤ
moved p l ms = sum_of (move_effect p l) ms

-- A call that the caller commits.
pub data StockStep : Stock → Stock → Type 0 where
  receives :
      {s t : Stock} {m : StockMove} {v : ℤ} (r : Receipt)
      → receive_stock r s ≡ ok (m, v, t)
      → StockStep s t
  issues :
      {s t : Stock} {m : StockMove} {cost : ℤ} (a : Option Alerts) (i : Issue)
      → issue_stock a i s ≡ ok (m, cost, t)
      → StockStep s t

pub data StockReach (s : Stock) : Stock → Type 0 where
  start : StockReach s s
  later : {t u : Stock} → StockReach s t → StockStep t u → StockReach s u

-- The quantity that a call moves at its own product and location, and nowhere else.
abbrev change : ℕ → ℕ → ℤ → ℕ → ℕ → ℤ
change p l d p' l' = if p == p' && l == l' then d else pos 0

abbrev IsMoved : ℕ → ℕ → ℤ → Stock → Stock → Type 0
IsMoved p l d s t =
    (p' l' : ℕ)
    → (on_hand p' l' t.quants ≡ on_hand p' l' s.quants +ℤ change p l d p' l')
      × (moved p' l' t.moves ≡ change p l d p' l' +ℤ moved p' l' s.moves)

pub sub_zero : (a : ℤ) → a -ℤ pos 0 ≡ a
sub_zero a = omega int_laws

receipt_move-effect :
    (r : Receipt) (p l : ℕ)
    → move_effect p l (receipt_move r) ≡ change r.product_id r.location_id r.qty p l
receipt_move-effect r p l = ground (arith, sub_zero r.qty, sub_zero (pos 0))

receive_stock-moves :
    (r : Receipt) (s t : Stock) {m : StockMove} {v : ℤ}
    → receive_stock r s ≡ ok (m, v, t)
    → let found = get_or_create_for_update r.company_id r.product_id r.location_id s.quants in
      ((q : StockQuant) × (q.product_id ≡ found.0.product_id)
        × (q.location_id ≡ found.0.location_id)
        × (q.qty_on_hand ≡ found.0.qty_on_hand +ℤ r.qty)
        × (t.quants ≡ save_quant q found.1))
      × (t.moves ≡ receipt_move r ∷ s.moves)
unfolding receive_stock
receive_stock-moves r s t h =
    let q = (get_or_create_for_update r.company_id r.product_id r.location_id s.quants).0 in
    elim (Bool-cases (str_eq r.valuation_method "fifo")) [
      | inl e ↦ (
        (record q { qty_on_hand = q.qty_on_hand +ℤ r.qty }, refl, refl, refl, ground arith),
        ground arith,
      )
      | inr e ↦ (
        (
          record q {
            qty_on_hand = q.qty_on_hand +ℤ r.qty;
            moving_avg_cost = average_after_receipt q r;
          },
          refl,
          refl,
          refl,
          ground arith,
        ),
        ground arith,
      )
    ]

issue_move-effect :
    (i : Issue) (x : IssueResult) (p l : ℕ)
    → move_effect p l (issue_move i x) ≡ change i.product_id i.location_id (pos 0 -ℤ i.qty) p l
issue_move-effect i x p l = ground (arith, sub_zero (pos 0))

issue_stock-moves :
    (a : Option Alerts) (i : Issue) (s t : Stock) {m : StockMove} {cost : ℤ}
    → issue_stock a i s ≡ ok (m, cost, t)
    → let found = get_or_create_for_update i.company_id i.product_id i.location_id s.quants in
      (x : IssueResult) × (t.quants ≡ save_quant (issued_quant i found.0 x) found.1)
      × (t.moves ≡ issue_move i x ∷ s.moves)
unfolding issue_stock
issue_stock-moves a i s t h =
    let q = (get_or_create_for_update i.company_id i.product_id i.location_id s.quants).0 in
    elim (Result-cases (get_valuation_strategy i.valuation_method)) [
      | inl (strategy, e) ↦
          elim (Result-cases (
            or_override i q
              (compute_issue_cost strategy i.qty (issue_layers i q s) q.moving_avg_cost))) [
                | inl (x, k) ↦ (x, ground arith, ground arith)
                | inr (x, k) ↦ ground arith
              ]
      | inr (x, e) ↦ ground arith
    ]

receives-IsMoved :
    (r : Receipt) (s t : Stock) {m : StockMove} {v : ℤ}
    → receive_stock r s ≡ ok (m, v, t)
    → IsMoved r.product_id r.location_id r.qty s t
receives-IsMoved r s t h p l =
    let key = locked-key r.company_id r.product_id r.location_id s.quants in
    let (row, moves) = receive_stock-moves r s t h in
    (
      ap (on_hand p l) row.4
          ∙ on_hand-save r.company_id r.product_id r.location_id s.quants row.0 r.qty p l
              (row.1 ∙ key.0) (row.2 ∙ key.1) row.3,
      ap (moved p l) moves ∙ ap (λ (n : ℤ). n +ℤ moved p l s.moves) (receipt_move-effect r p l),
    )

issues-IsMoved :
    (a : Option Alerts) (i : Issue) (s t : Stock) {m : StockMove} {cost : ℤ}
    → issue_stock a i s ≡ ok (m, cost, t)
    → IsMoved i.product_id i.location_id (pos 0 -ℤ i.qty) s t
issues-IsMoved a i s t h p l =
    let found = get_or_create_for_update i.company_id i.product_id i.location_id s.quants in
    let key = locked-key i.company_id i.product_id i.location_id s.quants in
    let (x, quants, moves) = issue_stock-moves a i s t h in
    (
      ap (on_hand p l) quants
          ∙ on_hand-save i.company_id i.product_id i.location_id s.quants (issued_quant i found.0 x)
              (pos 0 -ℤ i.qty) p l key.0 key.1 (sub-add_neg found.0.qty_on_hand i.qty),
      ap (moved p l) moves ∙ ap (λ (n : ℤ). n +ℤ moved p l s.moves) (issue_move-effect i x p l),
    )

-- The tables agree when what is on hand of every product at every location is the sum of its moves.
abbrev pub IsMovesSum : Stock → Type 0
IsMovesSum s = (p l : ℕ) → on_hand p l s.quants ≡ moved p l s.moves

IsMoved-IsMovesSum :
    (p l : ℕ) (d : ℤ) (s t : Stock) → IsMoved p l d s t → IsMovesSum s → IsMovesSum t
IsMoved-IsMovesSum p l d s t h agree p' l' =
    let (quants, moves) = h p' l' in
    quants
    ∙ ap (λ (n : ℤ). n +ℤ change p l d p' l') (agree p' l')
    ∙ +ℤ_comm (moved p' l' s.moves) (change p l d p' l')
    ∙ sym moves

StockStep-IsMovesSum : (s t : Stock) → StockStep s t → IsMovesSum s → IsMovesSum t
StockStep-IsMovesSum s t (receives r h) =
    IsMoved-IsMovesSum r.product_id r.location_id r.qty s t (receives-IsMoved r s t h)
StockStep-IsMovesSum s t (issues a i h) =
    IsMoved-IsMovesSum i.product_id i.location_id (pos 0 -ℤ i.qty) s t (issues-IsMoved a i s t h)

-- Along any sequence of receipts and issues, by either valuation method, overdrawn or not, the quantity
-- on hand of every product at every location stays the sum of its moves.
pub StockReach-IsMovesSum : (s t : Stock) → StockReach s t → IsMovesSum s → IsMovesSum t
StockReach-IsMovesSum s _ start agree = agree
StockReach-IsMovesSum s u (later {t} reach step) agree =
    StockStep-IsMovesSum t u step (StockReach-IsMovesSum s t reach agree)
