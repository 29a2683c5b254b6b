-- ===== src/Sales/Quantities/Repeats.antt =====
-- A request that names an order line twice: each round reads the quantity from before the call.
use alfahd_erp_system.Prelude.{
  ℕ, ◌≡◌, refl, sym, ap, false, List, [], ◌∷◌, ◌==◌, some, arith, ℤ, pos, ◌+ℤ◌, ◌<ℤ◌, ◌≤ℤ◌, find?,
  find?-holds, ok, leb_ℤ, ltb_ℤ, Bool-cases, inl, inr,
}
use mathlib.Core.Path.{subst}
use alfahd_erp_system.Sales.Store.{SalesOrderLine, has_line_id}
use alfahd_erp_system.Sales.Lines.{
  InvoiceItem, remaining_of, select_items, take_item, add_invoiced, add_all_invoiced,
}

find?-counted :
    (i : ℕ) (qty : ℤ) (t : List SalesOrderLine) {l : SalesOrderLine}
    → find? (has_line_id i) t ≡ some l
    → find? (has_line_id i) (add_invoiced i qty t)
      ≡ some (record l { qty_invoiced = l.qty_invoiced +ℤ qty })
find?-counted i qty [] h = absurd (ground arith)
find?-counted i qty (x ∷ xs) {l} h = elim (Bool-cases (x.id == i)) [
  | inl this ↦
      let same : x ≡ l = ground arith in
      rw (this, this)
        (ap (λ (y : SalesOrderLine). some (record y { qty_invoiced = y.qty_invoiced +ℤ qty })) same)
  | inr other ↦
      let rest : find? (has_line_id i) xs ≡ some l = ground arith in
      rw (other, other) (find?-counted i qty xs rest)
]

-- A quantity that is not more than what remains of a line is selected twice when the request names the
-- line twice, and the line is then counted up by twice the quantity.
pub select_items_repeats :
    (x : InvoiceItem) (t : List SalesOrderLine) {l : SalesOrderLine}
    → find? (has_line_id x.sales_order_line_id) t ≡ some l
    → pos 0 <ℤ x.qty
    → x.qty ≤ℤ remaining_of l
    → (select_items (x ∷ x ∷ []) t ≡ ok ((l, x.qty) ∷ (l, x.qty) ∷ []))
      × (find?
            (has_line_id x.sales_order_line_id)
            (add_all_invoiced ((l, x.qty) ∷ (l, x.qty) ∷ []) t)
          ≡ some (record l { qty_invoiced = (l.qty_invoiced +ℤ x.qty) +ℤ x.qty }))
unfolding select_items take_item
select_items_repeats x t {l} f p r =
    let wanted : leb_ℤ x.qty (pos 0) ≡ false = ground (arith, p) in
    let fits : ltb_ℤ (remaining_of l) x.qty ≡ false = ground (arith, r) in
    let id : l.id ≡ x.sales_order_line_id =
      ground (arith, find?-holds (has_line_id x.sales_order_line_id) t f) in
    let once = find?-counted x.sales_order_line_id x.qty t f in
    let twice =
      find?-counted x.sales_order_line_id x.qty (add_invoiced x.sales_order_line_id x.qty t) once in
    (
      rw (f, wanted, fits) refl,
      subst
          (λ (i : ℕ).
            find? (has_line_id x.sales_order_line_id)
              (add_invoiced i x.qty (add_invoiced i x.qty t))
            ≡ some (record l { qty_invoiced = (l.qty_invoiced +ℤ x.qty) +ℤ x.qty }))
          (sym id) twice,
    )
