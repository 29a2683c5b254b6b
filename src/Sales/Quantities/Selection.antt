-- ===== src/Sales/Quantities/Selection.antt =====
-- What a call selects from an order picks every row at most once, if it names every line at most once.
use alfahd_erp_system.Prelude.{
  ltb_ℤ, ℕ, ◌≡◌, refl, sym, Bool, true, false, Option, none, some, List, [], ◌∷◌, ◌==◌, arith, ℤ,
  pos, ◌≤ℤ◌, ==_iff, ◌<ℤ◌, ◌⊎◌, leb_ℤ, any, find?, find?-holds, keep, All, All-keep, Bool-cases,
  Option-cases, Result-cases, inl, inr, ok,
}
use mathlib.Core.Path.{subst}
use alfahd_erp_system.Sales.Store.{SalesOrderLine, has_line_id}
use alfahd_erp_system.Sales.Lines.{
  InvoiceItem, remaining_of, select_remaining, take_item, select_items, select_lines,
}
use alfahd_erp_system.Sales.Quantities.{IsDistinct, IsRow, picks_line, Picks}

ne_of_absent :
    (i j : ℕ) (t : List SalesOrderLine) {l : SalesOrderLine}
    → any (has_line_id i) t ≡ false
    → find? (has_line_id j) t ≡ some l
    → (i == j) ≡ false
ne_of_absent i j [] n h = cc
ne_of_absent i j (x ∷ xs) {l = l} n h = elim (Bool-cases (x.id == j)) [
  | inl this ↦ ground arith
  | inr other ↦ ne_of_absent i j xs {l = l} (ground arith) (ground arith)
]

IsRow-cons :
    (x : SalesOrderLine) (t ls : List SalesOrderLine)
    → any (has_line_id x.id) t ≡ false
    → All (IsRow t) ls
    → All (IsRow (x ∷ t)) ls
IsRow-cons x t [] n h = tt
IsRow-cons x t (l ∷ ls) n h =
    let other = ne_of_absent x.id l.id t n h.0 in (rw other h.0, IsRow-cons x t ls n h.1)

-- Under distinct ids, every line of the table is its row.
IsRow-all : (t : List SalesOrderLine) → IsDistinct t → All (IsRow t) t
IsRow-all [] d = tt
IsRow-all (x ∷ xs) d = (ground arith, IsRow-cons x xs xs d.0 (IsRow-all xs d.1))

any-select_remaining :
    (i : ℕ) (ls : List SalesOrderLine)
    → any (has_line_id i) ls ≡ false
    → any (picks_line i) (select_remaining ls) ≡ false
unfolding select_remaining
any-select_remaining i [] h = refl
any-select_remaining i (l ∷ ls) h = ground (arith, any-select_remaining i ls)

Picks-select_remaining :
    (t ls : List SalesOrderLine) → IsDistinct ls → All (IsRow t) ls → Picks t (select_remaining ls)
unfolding select_remaining
Picks-select_remaining t [] d h = tt
Picks-select_remaining t (l ∷ ls) d h = elim (Bool-cases (ltb_ℤ (pos 0) (remaining_of l))) [
  | inl left ↦ rw left (
    h.0,
    ground arith,
    omega arith,
    any-select_remaining l.id ls d.0,
    Picks-select_remaining t ls d.1 h.1,
  )
  | inr none_left ↦ rw none_left (Picks-select_remaining t ls d.1 h.1)
]

abbrev names_line : ℕ → InvoiceItem → Bool
names_line i x = x.sales_order_line_id == i

-- Every order line is named at most once.
abbrev pub IsUnrepeated : List InvoiceItem → Type 0
IsUnrepeated [] = Unit
IsUnrepeated (x ∷ xs) = (any (names_line x.sales_order_line_id) xs ≡ false) × IsUnrepeated xs

-- One round of the loop, when all of it returned.
select_items-eq-ok :
    (x : InvoiceItem) (xs : List InvoiceItem) (ls : List SalesOrderLine)
    {sel : List (SalesOrderLine × ℤ)}
    → select_items (x ∷ xs) ls ≡ ok sel
    → (l : SalesOrderLine) × (find? (has_line_id x.sales_order_line_id) ls ≡ some l)
      × ((select_items xs ls ≡ ok sel)
          ⊎ ((rest : List (SalesOrderLine × ℤ)) × (select_items xs ls ≡ ok rest)
              × (sel ≡ (l, x.qty) ∷ rest)
              × (pos 0 <ℤ x.qty)
              × (x.qty ≤ℤ remaining_of l)))
unfolding select_items take_item
select_items-eq-ok x xs ls {sel} h =
    elim (Option-cases (find? (has_line_id x.sales_order_line_id) ls)) [
      | inl missing ↦ absurd (ground arith)
      | inr (l, e) ↦ elim (Bool-cases (leb_ℤ x.qty (pos 0))) [
        | inl skipped ↦ (l, e, inl (ground arith))
        | inr wanted ↦ elim (Bool-cases (ltb_ℤ (remaining_of l) x.qty)) [
          | inl refused ↦ absurd (ground arith)
          | inr fits ↦ elim (Result-cases (select_items xs ls)) [
            | inl (rest, r) ↦ (l, e, inr (rest, r, ground arith, ground arith, ground arith))
            | inr (x', r) ↦ absurd (ground arith)
          ]
        ]
      ]
    ]

none_selected :
    (ls : List SalesOrderLine) {sel : List (SalesOrderLine × ℤ)}
    → select_items [] ls ≡ ok sel
    → sel ≡ []
unfolding select_items
none_selected ls h = ground arith

any-select_items :
    (i : ℕ) (xs : List InvoiceItem) (ls : List SalesOrderLine) {sel : List (SalesOrderLine × ℤ)}
    → any (names_line i) xs ≡ false
    → select_items xs ls ≡ ok sel
    → any (picks_line i) sel ≡ false
any-select_items i [] ls n h = rw (none_selected ls h) refl
any-select_items i (x ∷ xs) ls {sel} n h =
    let (l, e, round) = select_items-eq-ok x xs ls h in
    let others : any (names_line i) xs ≡ false = ground arith in
    elim round [
      | inl r ↦ any-select_items i xs ls others r
      | inr (rest, r, same, positive, fits) ↦
          let ih = any-select_items i xs ls others r in
          let named : (l.id == x.sales_order_line_id) ≡ true =
            find?-holds (has_line_id x.sales_order_line_id) ls e in
          rw same (ground arith)
    ]

find?-All :
    (P : SalesOrderLine → Type 0) (p : SalesOrderLine → Bool) (xs : List SalesOrderLine)
    {l : SalesOrderLine}
    → All P xs
    → find? p xs ≡ some l
    → P l
find?-All P p [] h e = absurd (ground arith)
find?-All P p (x ∷ xs) {l = l} h e = elim (Bool-cases (p x)) [
  | inl this ↦ let same : x ≡ l = ground arith in subst P same h.0
  | inr other ↦ find?-All P p xs {l = l} h.1 (ground arith)
]

Picks-select_items :
    (t : List SalesOrderLine) (xs : List InvoiceItem) (ls : List SalesOrderLine)
    {sel : List (SalesOrderLine × ℤ)}
    → All (IsRow t) ls
    → IsUnrepeated xs
    → select_items xs ls ≡ ok sel
    → Picks t sel
Picks-select_items t [] ls r u h = rw (none_selected ls h) tt
Picks-select_items t (x ∷ xs) ls {sel} r u h =
    let (l, e, round) = select_items-eq-ok x xs ls h in
    elim round [
      | inl rest ↦ Picks-select_items t xs ls r u.1 rest
      | inr (rest, k, same, positive, fits) ↦
          let id : x.sales_order_line_id ≡ l.id =
            sym ((==_iff _ _).0 (find?-holds (has_line_id x.sales_order_line_id) ls e)) in
          rw same (
            find?-All (IsRow t) (has_line_id x.sales_order_line_id) ls r e,
            positive,
            fits,
            any-select_items l.id xs ls (rw id at u.0) k,
            Picks-select_items t xs ls r u.1 k,
          )
    ]

abbrev pub IsUnrepeatedIn : Option (List InvoiceItem) → Type 0
IsUnrepeatedIn none = Unit
IsUnrepeatedIn (some xs) = IsUnrepeated xs

pub any-keep :
    (i : ℕ) (p : SalesOrderLine → Bool) (t : List SalesOrderLine)
    → any (has_line_id i) t ≡ false
    → any (has_line_id i) (keep p t) ≡ false
any-keep i p [] h = refl
any-keep i p (x ∷ xs) h = ground (arith, any-keep i p xs)

pub IsDistinct-keep :
    (p : SalesOrderLine → Bool) (t : List SalesOrderLine) → IsDistinct t → IsDistinct (keep p t)
IsDistinct-keep p [] d = tt
IsDistinct-keep p (x ∷ xs) d = elim (Bool-cases (p x)) [
  | inl kept ↦ rw kept (any-keep x.id p xs d.0, IsDistinct-keep p xs d.1)
  | inr left ↦ rw left (IsDistinct-keep p xs d.1)
]

pub Picks-select_lines :
    (items : Option (List InvoiceItem)) (p : SalesOrderLine → Bool) (t : List SalesOrderLine)
    {sel : List (SalesOrderLine × ℤ)}
    → IsDistinct t
    → IsUnrepeatedIn items
    → select_lines items (keep p t) ≡ ok sel
    → Picks t sel
Picks-select_lines none p t {sel} d u h =
    let same : select_remaining (keep p t) ≡ sel = ground arith in
    subst (λ (x : List (SalesOrderLine × ℤ)). Picks t x) same
      (Picks-select_remaining t (keep p t) (IsDistinct-keep p t d)
        (All-keep (IsRow t) p t (IsRow-all t d)))
Picks-select_lines (some xs) p t d u h =
    Picks-select_items t xs (keep p t) (All-keep (IsRow t) p t (IsRow-all t d)) u h
