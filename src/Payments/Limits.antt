-- ===== src/Payments/Limits.antt =====
-- What a recorded payment leaves: the allocations it adds, and the limits they keep.
use alfahd_erp_system.Prelude.{
  ℕ, ◌≡◌, refl, ◌∙◌, ap, Bool, some, List, [], ◌∷◌, ◌++◌, map, ℤ, ◌+ℤ◌, ◌≤ℤ◌, keep, sum_of, ok,
  arith, int_laws, Bool-cases, Result-cases, inl, inr, eq-parts, sum_of-append, keep-append,
  +ℤ_comm,
}
use alfahd_erp_system.Accounting.Entities.{Error}
use alfahd_erp_system.Accounting.Store.{JournalEntry, Books}
use alfahd_erp_system.Accounting.Entries.{require_account}
use alfahd_erp_system.Payments.Store.{
  Payment, PaymentAllocation, Treasury, get_invoice, to_invoice, allocated,
  sum_allocated_for_sales_invoice, next_number,
}
use alfahd_erp_system.Sales.Store.{SalesInvoice}
use alfahd_erp_system.Payments.Recording.{
  lift, PaymentRequest, Wiring, prepare_all, total_of, set_payment_id, record_payment, add_payment,
  new_payment, validate_sales_rep, post_journal_entry,
}
use alfahd_erp_system.Payments.Allocations.{AtMostOnce, allocated_within}

-- A payment that was recorded.
pub record Recorded (w : Wiring) (r : PaymentRequest) (t : Treasury) (p : Payment) (t' : Treasury)
    : Type 0 where
  pub prepared : List PaymentAllocation
  pub is_prepared :
      prepare_all r.payment_type r.company_id r.partner_id r.allocations t ≡ ok prepared
  pub is_covered : total_of prepared ≤ℤ r.amount
  pub added : Treasury
  pub is_added :
      add_payment (new_payment r (next_number r.company_id r.payment_type t)) prepared t ≡ ok added
  pub entry : JournalEntry
  pub books : Books
  pub is_posted :
      post_journal_entry w.checks_cost_centers r.entry_id r.now
        (new_payment r (next_number r.company_id r.payment_type t))
        added.books
      ≡ ok (entry, books)
  pub keeps : t'.allocations ≡ added.allocations
  pub leaves : t'.books ≡ books
  pub pays : p.amount ≡ r.amount

add_payment-allocations :
    (p : Payment) (xs : List PaymentAllocation) (t t' : Treasury)
    → add_payment p xs t ≡ ok t'
    → t'.allocations ≡ map (set_payment_id p.id) xs ++ t.allocations
unfolding add_payment
add_payment-allocations p xs t t' h = ground arith

pub record_payment-Recorded :
    (w : Wiring) (r : PaymentRequest) (t : Treasury) {p : Payment} {t' : Treasury}
    → record_payment w r t ≡ ok (p, t')
    → Recorded w r t p t'
unfolding record_payment
record_payment-Recorded w r t {p} {t'} h =
    let account = lift (
      require_account r.account_id r.company_id t.books
        (Error.value_error "Cash/bank account not found")) in
    let p_new = new_payment r (next_number r.company_id r.payment_type t) in
    elim (Result-cases account) [
      | inl (a, k) ↦ elim (Result-cases (validate_sales_rep w r.company_id r.collection_rep_id t)) [
        | inl (u, v) ↦
            elim (Result-cases
              (prepare_all r.payment_type r.company_id r.partner_id r.allocations t)) [
                | inl (prepared, q) ↦ elim (Result-cases (add_payment p_new prepared t)) [
                  | inl (t_added, d) ↦
                      elim (Result-cases (
                        post_journal_entry w.checks_cost_centers r.entry_id r.now p_new
                          t_added.books)) [
                            | inl ((e, b), j) ↦ record {
                              prepared = prepared;
                              is_prepared = q;
                              is_covered = ground arith;
                              added = t_added;
                              is_added = d;
                              entry = e;
                              books = b;
                              is_posted = j;
                              keeps = ground arith;
                              leaves = ground arith;
                              pays = ground arith;
                            }
                            | inr (z, j) ↦ ground arith
                          ]
                  | inr (z, d) ↦ ground arith
                ]
                | inr (z, q) ↦ ground arith
              ]
        | inr (z, v) ↦ ground arith
      ]
      | inr (z, k) ↦ ground arith
    ]

allocated-set_payment_id :
    (i n : ℕ) (xs : List PaymentAllocation)
    → allocated (to_invoice i) (map (set_payment_id n) xs) ≡ allocated (to_invoice i) xs
allocated-set_payment_id i n [] = refl
allocated-set_payment_id i n (x ∷ xs) = elim (Bool-cases (to_invoice i x)) [
  | inl e ↦ rw e (ap (λ (k : ℤ). x.amount +ℤ k) (allocated-set_payment_id i n xs))
  | inr e ↦ rw e (allocated-set_payment_id i n xs)
]

allocated-append :
    (p : PaymentAllocation → Bool) (xs ys : List PaymentAllocation)
    → allocated p (xs ++ ys) ≡ allocated p xs +ℤ allocated p ys
allocated-append p xs ys =
    ap (sum_of (λ (x : PaymentAllocation). x.amount)) (keep-append p xs ys)
    ∙ sum_of-append (λ (x : PaymentAllocation). x.amount) (keep p xs) (keep p ys)

Recorded-allocations :
    (w : Wiring) (r : PaymentRequest) (t : Treasury) {p : Payment} {t' : Treasury}
    → (d : Recorded w r t p t')
    → t'.allocations ≡ map (set_payment_id r.payment_id) d.prepared ++ t.allocations
Recorded-allocations w r t d =
    d.keeps
    ∙ add_payment-allocations (new_payment r (next_number r.company_id r.payment_type t)) d.prepared
        t d.added d.is_added

Recorded-settles :
    (w : Wiring) (r : PaymentRequest) (t : Treasury) (i : ℕ) {p : Payment} {t' : Treasury}
    → (d : Recorded w r t p t')
    → sum_allocated_for_sales_invoice i t'
      ≡ sum_allocated_for_sales_invoice i t +ℤ allocated (to_invoice i) d.prepared
unfolding sum_allocated_for_sales_invoice
Recorded-settles w r t i d =
    ap (allocated (to_invoice i)) (Recorded-allocations w r t d)
    ∙ allocated-append (to_invoice i) (map (set_payment_id r.payment_id) d.prepared) t.allocations
    ∙ ap (λ (k : ℤ). k +ℤ allocated (to_invoice i) t.allocations)
        (allocated-set_payment_id i r.payment_id d.prepared)
    ∙ +ℤ_comm (allocated (to_invoice i) d.prepared) (allocated (to_invoice i) t.allocations)

-- When a payment that names an invoice at most once is recorded, and the invoice was settled by at most
-- its total before, it is settled by at most its total after.
pub record_payment_within_total :
    (w : Wiring) (r : PaymentRequest) (t : Treasury) (i : ℕ) (v : SalesInvoice) {p : Payment}
    {t' : Treasury}
    → record_payment w r t ≡ ok (p, t')
    → get_invoice (some i) t ≡ some v
    → sum_allocated_for_sales_invoice i t ≤ℤ v.total_amount
    → AtMostOnce i r.allocations
    → sum_allocated_for_sales_invoice i t' ≤ℤ v.total_amount
record_payment_within_total w r t i v {p} {t'} h hv s n =
    let d = record_payment-Recorded w r t h in
    let after : sum_allocated_for_sales_invoice i t'
        ≡ sum_allocated_for_sales_invoice i t +ℤ allocated (to_invoice i) d.prepared =
      Recorded-settles w r t i d in
    rw after (
      allocated_within r.payment_type r.company_id r.partner_id i r.allocations t v hv s n
        d.is_prepared)

total_of-set_payment_id :
    (n : ℕ) (xs : List PaymentAllocation) → total_of (map (set_payment_id n) xs) ≡ total_of xs
total_of-set_payment_id n [] = refl
total_of-set_payment_id n (x ∷ xs) = ap (λ (k : ℤ). x.amount +ℤ k) (total_of-set_payment_id n xs)

-- A recorded payment settles documents by at most its own amount.
pub record_payment_within_amount :
    (w : Wiring) (r : PaymentRequest) (t : Treasury) {p : Payment} {t' : Treasury}
    → record_payment w r t ≡ ok (p, t')
    → total_of t'.allocations ≤ℤ p.amount +ℤ total_of t.allocations
record_payment_within_amount w r t {p} {t'} h =
    let d = record_payment-Recorded w r t h in
    let sum : total_of t'.allocations ≡ total_of d.prepared +ℤ total_of t.allocations =
      ap total_of (Recorded-allocations w r t d)
      ∙ sum_of-append (λ (x : PaymentAllocation). x.amount)
          (map (set_payment_id r.payment_id) d.prepared) t.allocations
      ∙ ap (λ (k : ℤ). k +ℤ total_of t.allocations)
          (total_of-set_payment_id r.payment_id d.prepared) in
    omega (int_laws, eq-parts sum, d.is_covered, eq-parts d.pays)
