-- ===== src/Payments/Allocations.antt =====
-- What a payment settles: the totals of documents and of the payment.
use mathlib.Core.Path.{subst}
use mathlib.Core.Option.{some-injective}
use alfahd_erp_system.Prelude.{
  err, ◌<ℤ◌, ℕ, ◌≡◌, refl, sym, ◌∙◌, ap, zero, suc, true, false, Option, none, some, List, [], ◌∷◌,
  ◌==◌, if◌then◌else◌, pos, ◌+ℤ◌, ◌≤ℤ◌, String, find?-holds, ok, arith, Bool-cases, Result-cases,
  Option-cases, ◌⊎◌, inl, inr, +ℤ_zero,
}
use alfahd_erp_system.Payments.Store.{
  PaymentAllocation, Treasury, get_invoice, get_bill, has_invoice_id, to_invoice, is_id, allocated,
  sum_allocated_for_sales_invoice,
}
use alfahd_erp_system.Sales.Store.{SalesInvoice}
use alfahd_erp_system.Payments.Recording.{
  over_allocation, AllocationItem, prepare, prepare_for_invoice, prepare_for_bill,
  invoice_allocation, bill_allocation, prepare_all,
}

-- How often an invoice is named.
abbrev pub Never : ℕ → List AllocationItem → Type 0
Never i [] = Unit
Never i (x ∷ xs) = (is_id x.sales_invoice_id i ≡ false) × Never i xs

abbrev pub AtMostOnce : ℕ → List AllocationItem → Type 0
AtMostOnce i [] = Unit
AtMostOnce i (x ∷ xs) = if is_id x.sales_invoice_id i then Never i xs else AtMostOnce i xs

get_invoice-id :
    (o : Option ℕ) (t : Treasury) {v : SalesInvoice} → get_invoice o t ≡ some v → o ≡ some v.id
unfolding get_invoice
get_invoice-id none t h = cc
get_invoice-id (some i) t {v} h =
    let e : (v.id == i) ≡ true = find?-holds (has_invoice_id i) t.invoices h in ground (arith, e)

prepare_for_invoice-eq-ok :
    (c partner : ℕ) (x : AllocationItem) (t : Treasury) {a : PaymentAllocation}
    → prepare_for_invoice c partner x t ≡ ok a
    → (v : SalesInvoice) × (get_invoice x.sales_invoice_id t ≡ some v)
      × (sum_allocated_for_sales_invoice v.id t +ℤ x.amount ≤ℤ v.total_amount)
      × (a ≡ invoice_allocation c v.id x.amount)
unfolding prepare_for_invoice
prepare_for_invoice-eq-ok c partner x t h = elim (Option-cases (get_invoice x.sales_invoice_id t)) [
  | inl n ↦ ground arith
  | inr (v, g) ↦ (v, g, ground arith, ground arith)
]

prepare_for_bill-eq-ok :
    (c partner : ℕ) (x : AllocationItem) (t : Treasury) {a : PaymentAllocation}
    → prepare_for_bill c partner x t ≡ ok a
    → (j : ℕ) × (a ≡ bill_allocation c j x.amount)
unfolding prepare_for_bill
prepare_for_bill-eq-ok c partner x t h = elim (Option-cases (get_bill x.vendor_bill_id t)) [
  | inl n ↦ ground arith
  | inr (v, g) ↦ (v.id, ground arith)
]

prepare-eq-ok :
    (kind : String) (c partner : ℕ) (x : AllocationItem) (t : Treasury) {a : PaymentAllocation}
    → prepare kind c partner x t ≡ ok a
    → (prepare_for_invoice c partner x t ≡ ok a) ⊎ (prepare_for_bill c partner x t ≡ ok a)
unfolding prepare
prepare-eq-ok kind c partner x t h = ground arith

-- An allocation goes to the invoice that its item names.
prepare-unnamed :
    (kind : String) (c partner i : ℕ) (x : AllocationItem) (t : Treasury) {a : PaymentAllocation}
    → is_id x.sales_invoice_id i ≡ false
    → prepare kind c partner x t ≡ ok a
    → to_invoice i a ≡ false
prepare-unnamed kind c partner i x t {a} n h = elim (prepare-eq-ok kind c partner x t h) [
  | inl p ↦
      let (v, g, w, e) = prepare_for_invoice-eq-ok c partner x t p in
      let named = get_invoice-id x.sales_invoice_id t g in ground (arith, named, e, n)
  | inr p ↦ let (j, e) = prepare_for_bill-eq-ok c partner x t p in ground (arith, e)
]

-- And the invoice's total is not passed by it alone.
prepare-within :
    (kind : String) (c partner i : ℕ) (x : AllocationItem) (t : Treasury) (v : SalesInvoice)
    {a : PaymentAllocation}
    → get_invoice (some i) t ≡ some v
    → prepare kind c partner x t ≡ ok a
    → is_id x.sales_invoice_id i ≡ true
    → (to_invoice i a ≡ false) ⊎ (sum_allocated_for_sales_invoice i t +ℤ a.amount ≤ℤ v.total_amount)
prepare-within kind c partner i x t v {a} hv h n = elim (prepare-eq-ok kind c partner x t h) [
  | inl p ↦
      let (u, g, w, e) = prepare_for_invoice-eq-ok c partner x t p in
      let named = get_invoice-id x.sales_invoice_id t g in
      let id : u.id ≡ i = ground (arith, named, n) in
      let same : u ≡ v =
        some-injective _ _
          (sym g ∙ ap (λ (o : Option ℕ). get_invoice o t) (named ∙ ap some id) ∙ hv) in
      let fits : sum_allocated_for_sales_invoice i t +ℤ x.amount ≤ℤ u.total_amount =
        subst (λ (k : ℕ). sum_allocated_for_sales_invoice k t +ℤ x.amount ≤ℤ u.total_amount) id w in
      inr (
        rw e (
          subst
            (λ (y : SalesInvoice).
              sum_allocated_for_sales_invoice i t +ℤ x.amount ≤ℤ y.total_amount)
            same fits))
  | inr p ↦ let (j, e) = prepare_for_bill-eq-ok c partner x t p in inl (ground (arith, e))
]

prepare_all-eq-ok :
    (kind : String) (c partner : ℕ) (x : AllocationItem) (xs : List AllocationItem) (t : Treasury)
    {ps : List PaymentAllocation}
    → prepare_all kind c partner (x ∷ xs) t ≡ ok ps
    → (a : PaymentAllocation) × ((rest : List PaymentAllocation) × (prepare kind c partner x t
          ≡ ok a)
        × (prepare_all kind c partner xs t ≡ ok rest)
        × (ps ≡ a ∷ rest))
unfolding prepare_all
prepare_all-eq-ok kind c partner x xs t h = elim (Result-cases (prepare kind c partner x t)) [
  | inl (a, p) ↦ elim (Result-cases (prepare_all kind c partner xs t)) [
    | inl (rest, q) ↦ (a, (rest, p, q, ground arith))
    | inr (z, q) ↦ ground arith
  ]
  | inr (z, p) ↦ ground arith
]

-- What an invoice gets from items that do not name it.
allocated_unnamed :
    (kind : String) (c partner i : ℕ) (xs : List AllocationItem) (t : Treasury)
    {ps : List PaymentAllocation}
    → Never i xs
    → prepare_all kind c partner xs t ≡ ok ps
    → allocated (to_invoice i) ps ≡ pos 0
unfolding prepare_all
allocated_unnamed kind c partner i [] t n h = ground arith
allocated_unnamed kind c partner i (x ∷ xs) t n h =
    let (a, (rest, p, q, e)) = prepare_all-eq-ok kind c partner x xs t h in
    rw e (
      rw (prepare-unnamed kind c partner i x t n.0 p)
        (allocated_unnamed kind c partner i xs t n.1 q))

-- And from items one of which names it at most.
pub allocated_within :
    (kind : String) (c partner i : ℕ) (xs : List AllocationItem) (t : Treasury) (v : SalesInvoice)
    {ps : List PaymentAllocation}
    → get_invoice (some i) t ≡ some v
    → sum_allocated_for_sales_invoice i t ≤ℤ v.total_amount
    → AtMostOnce i xs
    → prepare_all kind c partner xs t ≡ ok ps
    → sum_allocated_for_sales_invoice i t +ℤ allocated (to_invoice i) ps ≤ℤ v.total_amount
unfolding prepare_all
allocated_within kind c partner i [] t v {ps} hv s n h =
    let none_made : ps ≡ [] = ground arith in
    rw none_made (rw (+ℤ_zero (sum_allocated_for_sales_invoice i t)) s)
allocated_within kind c partner i (x ∷ xs) t v hv s n h =
    let (a, (rest, p, q, e)) = prepare_all-eq-ok kind c partner x xs t h in
    elim (Bool-cases (is_id x.sales_invoice_id i)) [
      | inl y ↦
          let none_left = allocated_unnamed kind c partner i xs t (ground (arith, n, y)) q in
          rw e (elim (prepare-within kind c partner i x t v hv p y) [
            | inl off ↦ rw off (rw none_left (rw (+ℤ_zero (sum_allocated_for_sales_invoice i t)) s))
            | inr fits ↦ elim (Bool-cases (to_invoice i a)) [
              | inl on ↦ rw on (rw none_left (rw (+ℤ_zero a.amount) fits))
              | inr off ↦
                  rw off (rw none_left (rw (+ℤ_zero (sum_allocated_for_sales_invoice i t)) s))
            ]
          ])
      | inr y ↦ rw e (
          rw (prepare-unnamed kind c partner i x t y p)
            (allocated_within kind c partner i xs t v hv s (ground (arith, n, y)) q))
    ]

abbrev pub times : {A : Type 0} → ℕ → A → List A
times zero a = []
times (suc n) a = a ∷ times n a

-- One round for an invoice of the company and the customer.
prepare_for_invoice-fits :
    (c partner : ℕ) (x : AllocationItem) (t : Treasury) (v : SalesInvoice)
    → get_invoice x.sales_invoice_id t ≡ some v
    → v.company_id ≡ c
    → v.partner_id ≡ partner
    → (sum_allocated_for_sales_invoice v.id t +ℤ x.amount ≤ℤ v.total_amount
        → prepare_for_invoice c partner x t ≡ ok (invoice_allocation c v.id x.amount))
      × (v.total_amount <ℤ sum_allocated_for_sales_invoice v.id t +ℤ x.amount
          → prepare_for_invoice c partner x t
            ≡ err (over_allocation "Allocation exceeds invoice's outstanding balance"))
unfolding prepare_for_invoice
prepare_for_invoice-fits c partner x t v found own his = (λ h. ground arith, λ h. ground arith)

repeats_ok :
    (c partner n : ℕ) (x : AllocationItem) (t : Treasury) {a : PaymentAllocation}
    → prepare_for_invoice c partner x t ≡ ok a
    → prepare_all "customer" c partner (times n x) t ≡ ok (times n a)
unfolding prepare_all prepare
repeats_ok c partner zero x t h = refl
repeats_ok c partner (suc n) x t h = rw h (rw (repeats_ok c partner n x t h) refl)

-- A customer's payment that names one invoice of the company and the customer n + 1 times, each time for
-- the same amount: when what was allocated to the invoice before and the amount, taken once, are within the
-- invoice's total, the loop accepts all n + 1 allocations, whatever n is; when they are not, it refuses.
-- The check of the payment's own amount comes after the loop.
pub prepare_all_repeats :
    (c partner n : ℕ) (x : AllocationItem) (t : Treasury) (v : SalesInvoice)
    → get_invoice x.sales_invoice_id t ≡ some v
    → v.company_id ≡ c
    → v.partner_id ≡ partner
    → (sum_allocated_for_sales_invoice v.id t +ℤ x.amount ≤ℤ v.total_amount
        → prepare_all "customer" c partner (times (suc n) x) t
          ≡ ok (times (suc n) (invoice_allocation c v.id x.amount)))
      × (v.total_amount <ℤ sum_allocated_for_sales_invoice v.id t +ℤ x.amount
          → prepare_all "customer" c partner (times (suc n) x) t
            ≡ err (over_allocation "Allocation exceeds invoice's outstanding balance"))
unfolding prepare_all prepare
prepare_all_repeats c partner n x t v found own his =
    let (fits, exceeds) = prepare_for_invoice-fits c partner x t v found own his in
    (λ h. repeats_ok c partner (suc n) x t (fits h), λ h. rw (exceeds h) refl)
