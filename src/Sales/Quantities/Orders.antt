-- ===== src/Sales/Quantities/Orders.antt =====
-- New order lines keep the table's ids distinct, and have nothing invoiced.
use alfahd_erp_system.Prelude.{
  ℕ, ◌≡◌, refl, sym, Bool, false, List, [], ◌∷◌, ◌++◌, map, arith, pos, any, keep, All, All-append,
  All-keep, inl, int_laws,
}
use mathlib.Core.Path.{subst}
use alfahd_erp_system.Sales.Store.{SalesOrderLine, SalesBook, has_line_id, set_order_id}
use alfahd_erp_system.Sales.Orders.{ids_clash}
use alfahd_erp_system.Sales.Quantities.{IsWithin, IsDistinct}
use alfahd_erp_system.Sales.Quantities.Selection.{any-keep, IsDistinct-keep}
use alfahd_erp_system.Sales.Effects.Orders.{IsNew, IsReplaced}

-- Distinct ids, and no line invoiced beyond its quantity.
abbrev pub IsSound : List SalesOrderLine → Type 0
IsSound t = IsDistinct t × All IsWithin t

any-added :
    (i j : ℕ) (new t : List SalesOrderLine)
    → any (has_line_id i) new ≡ false
    → any (has_line_id i) t ≡ false
    → any (has_line_id i) (map (set_order_id j) new ++ t) ≡ false
any-added i j [] t n h = h
any-added i j (x ∷ xs) t n h = ground (arith, any-added i j xs t)

IsDistinct-added :
    (j : ℕ) (new t : List SalesOrderLine)
    → ids_clash new t ≡ false
    → IsDistinct t
    → IsDistinct (map (set_order_id j) new ++ t)
IsDistinct-added j [] t n d = d
IsDistinct-added j (x ∷ xs) t n d =
    let apart : any (has_line_id x.id) t ≡ false = ground arith in
    let others : any (has_line_id x.id) xs ≡ false = ground arith in
    (any-added x.id j xs t others apart, IsDistinct-added j xs t (ground arith) d)

ids_clash-keep :
    (p : SalesOrderLine → Bool) (new t : List SalesOrderLine)
    → ids_clash new t ≡ false
    → ids_clash new (keep p t) ≡ false
ids_clash-keep p [] t h = refl
ids_clash-keep p (x ∷ xs) t h =
    let apart : any (has_line_id x.id) t ≡ false = ground arith in
    let rest : ids_clash xs t ≡ false = ground arith in
    let others : any (has_line_id x.id) xs ≡ false = ground arith in
    rw (any-keep x.id p t apart, others, ids_clash-keep p xs t rest) refl

IsWithin-new :
    (j : ℕ) (new : List SalesOrderLine) → All IsNew new → All IsWithin (map (set_order_id j) new)
IsWithin-new j [] h = tt
IsWithin-new j (x ∷ xs) h =
    let zero_there : x.qty_invoiced ≡ pos 0 = h.0 in
    ((rw zero_there (omega int_laws), inl zero_there), IsWithin-new j xs h.1)

pub IsReplaced-IsSound :
    (b b' : SalesBook) → IsReplaced b b' → IsSound b.order_lines → IsSound b'.order_lines
IsReplaced-IsSound b b' r (d, h) = subst IsSound (sym r.lines) (
  IsDistinct-added r.order r.new (keep r.stays b.order_lines)
      (ids_clash-keep r.stays r.new b.order_lines r.unused)
      (IsDistinct-keep r.stays b.order_lines d),
  All-append IsWithin _ (keep r.stays b.order_lines) (IsWithin-new r.order r.new r.nothing_invoiced)
      (All-keep IsWithin r.stays b.order_lines h),
)
