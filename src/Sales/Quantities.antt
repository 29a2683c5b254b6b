-- ===== src/Sales/Quantities.antt =====
-- The order lines that an invoice counts up, and what keeps them within their quantities when no line is
-- named twice.
pub mod Selection
pub mod Orders
pub mod Repeats
use alfahd_erp_system.Prelude.{
  ℕ, ◌≡◌, refl, sym, ap, ◌∙◌, Bool, true, false, ◌&&◌, Option, some, List, [], ◌∷◌, map, ◌==◌,
  arith, ℤ, pos, ◌+ℤ◌, ◌-ℤ◌, ◌≤ℤ◌, ◌<ℤ◌, ◌⊎◌, int_laws, any, find?, All, Bool-cases, inl, inr,
  eq-parts,
}
use alfahd_erp_system.Sales.Store.{SalesOrderLine, has_line_id}
use alfahd_erp_system.Sales.Lines.{remaining_of, add_invoiced, add_all_invoiced}

-- Nothing of the line is invoiced, or at most all of it. (A line may have a negative quantity.)
abbrev pub IsWithin : SalesOrderLine → Type 0
IsWithin l = (pos 0 ≤ℤ l.qty_invoiced) × ((l.qty_invoiced ≡ pos 0) ⊎ (l.qty_invoiced ≤ℤ l.qty))

-- The primary key.
abbrev pub IsDistinct : List SalesOrderLine → Type 0
IsDistinct [] = Unit
IsDistinct (l ∷ ls) = (any (has_line_id l.id) ls ≡ false) × IsDistinct ls

-- The row is in the table under its id.
abbrev pub IsRow : List SalesOrderLine → SalesOrderLine → Type 0
IsRow t l = find? (has_line_id l.id) t ≡ some l

abbrev pub picks_line : ℕ → SalesOrderLine × ℤ → Bool
picks_line i (l, qty) = l.id == i

-- A selection that counts every row at most once, by no more than it has left.
abbrev pub Picks : List SalesOrderLine → List (SalesOrderLine × ℤ) → Type 0
Picks t [] = Unit
Picks t ((l, qty) ∷ rest) =
    IsRow t l
    × (pos 0 <ℤ qty)
    × (qty ≤ℤ remaining_of l)
    × (any (picks_line l.id) rest ≡ false)
    × Picks t rest

module _ (i : ℕ) (qty : ℤ) where
  add_invoiced-absent :
      (t : List SalesOrderLine) → any (has_line_id i) t ≡ false → add_invoiced i qty t ≡ t
  add_invoiced-absent [] h = refl
  add_invoiced-absent (x ∷ xs) h = ground (arith, add_invoiced-absent xs)

  any-add_invoiced :
      (j : ℕ) (t : List SalesOrderLine)
      → any (has_line_id j) (add_invoiced i qty t) ≡ any (has_line_id j) t
  any-add_invoiced j [] = refl
  any-add_invoiced j (x ∷ xs) = ground (arith, any-add_invoiced j xs)

  IsDistinct-add_invoiced :
      (t : List SalesOrderLine) → IsDistinct t → IsDistinct (add_invoiced i qty t)
  IsDistinct-add_invoiced [] d = tt
  IsDistinct-add_invoiced (x ∷ xs) d = elim (Bool-cases (x.id == i)) [
    | inl this ↦ rw this (any-add_invoiced x.id xs ∙ d.0, IsDistinct-add_invoiced xs d.1)
    | inr other ↦ rw other (any-add_invoiced x.id xs ∙ d.0, IsDistinct-add_invoiced xs d.1)
  ]

  find?-add_invoiced :
      (j : ℕ) (t : List SalesOrderLine)
      → (j == i) ≡ false
      → find? (has_line_id j) (add_invoiced i qty t) ≡ find? (has_line_id j) t
  find?-add_invoiced j [] h = refl
  find?-add_invoiced j (x ∷ xs) h = ground (arith, find?-add_invoiced j xs h)

  IsWithin-add_invoiced :
      (t : List SalesOrderLine) {l : SalesOrderLine}
      → IsDistinct t
      → find? (has_line_id i) t ≡ some l
      → pos 0 <ℤ qty
      → qty ≤ℤ remaining_of l
      → All IsWithin t
      → All IsWithin (add_invoiced i qty t)
  IsWithin-add_invoiced [] d f p r h = tt
  IsWithin-add_invoiced (x ∷ xs) {l = l} d f p r h = elim (Bool-cases (x.id == i)) [
    | inl this ↦
        let same : x ≡ l = ground arith in
        let id : x.id ≡ i = ground arith in
        let rest : add_invoiced i qty xs ≡ xs = add_invoiced-absent xs (rw id at d.0) in
        let left : qty ≤ℤ remaining_of x = rw same r in
        rw (this, rest) ((omega (int_laws, h.0), inr (omega (int_laws, h.0, left))), h.1)
    | inr other ↦ rw other (h.0, IsWithin-add_invoiced xs {l = l} d.1 (ground arith) p r h.1)
  ]

-- The rows of the later picks are untouched by an earlier one.
Picks-add_invoiced :
    (i : ℕ) (qty : ℤ) (t : List SalesOrderLine) (sel : List (SalesOrderLine × ℤ))
    → any (picks_line i) sel ≡ false
    → Picks t sel
    → Picks (add_invoiced i qty t) sel
Picks-add_invoiced i qty t [] n h = tt
Picks-add_invoiced i qty t ((l, q) ∷ rest) n h =
    let other : (l.id == i) ≡ false = ground arith in
    let others : any (picks_line i) rest ≡ false = ground arith in
    (
      find?-add_invoiced i qty l.id t other ∙ h.0,
      h.1,
      h.2,
      h.3,
      Picks-add_invoiced i qty t rest others h.4,
    )

pub IsDistinct-add_all_invoiced :
    (sel : List (SalesOrderLine × ℤ)) (t : List SalesOrderLine)
    → IsDistinct t
    → IsDistinct (add_all_invoiced sel t)
IsDistinct-add_all_invoiced [] t d = d
IsDistinct-add_all_invoiced ((l, q) ∷ rest) t d =
    IsDistinct-add_all_invoiced rest (add_invoiced l.id q t) (IsDistinct-add_invoiced l.id q t d)

pub IsWithin-add_all_invoiced :
    (sel : List (SalesOrderLine × ℤ)) (t : List SalesOrderLine)
    → IsDistinct t
    → Picks t sel
    → All IsWithin t
    → All IsWithin (add_all_invoiced sel t)
IsWithin-add_all_invoiced [] t d p h = h
IsWithin-add_all_invoiced ((l, q) ∷ rest) t d p h =
    IsWithin-add_all_invoiced rest (add_invoiced l.id q t) (IsDistinct-add_invoiced l.id q t d)
      (Picks-add_invoiced l.id q t rest p.3 p.4) (IsWithin-add_invoiced l.id q t d p.0 p.1 p.2 h)
