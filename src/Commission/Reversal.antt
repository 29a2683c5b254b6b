-- ===== src/Commission/Reversal.antt =====
-- A credit note's commission against the invoice's: the rate is the invoice's own.
use mathlib.Core.Path.{subst}
use alfahd_erp_system.Prelude.{
  inr, inl, ℕ, ◌≡◌, refl, sym, ◌∙◌, ap, true, none, some, List, [], ◌∷◌, ℤ, pos, ◌*ℤ◌, ◌-ℤ◌, String,
  keep, ok, arith, Option-cases, neg_*ℤ,
}
use alfahd_erp_system.Decimal.{signed_neg, half_even, signed}
use alfahd_erp_system.Commission.{
  current_rate, transaction, some_written, SalesRepresentative, CommissionTransaction,
  CommissionBook, CommissionEvent, get_by_source, has_source, commission_amount, write,
  record_sales_commission, reverse_sales_commission, inherited_rate,
}

-- Opposite bases at one rate earn opposite commissions, after rounding.
commission_amount-neg :
    (base rate : ℤ) → commission_amount (pos 0 -ℤ base) rate ≡ pos 0 -ℤ commission_amount base rate
unfolding commission_amount half_even
commission_amount-neg base rate =
    ap (λ (n : ℤ). signed half_even n 1_000_000 *ℤ pos 100) (neg_*ℤ base rate)
    ∙ ap (λ (n : ℤ). n *ℤ pos 100) (signed_neg (base *ℤ rate) 1_000_000 refl)
    ∙ neg_*ℤ (signed half_even (base *ℤ rate) 1_000_000) (pos 100)

record_sales_commission-writes :
    (e : CommissionEvent) (b after : CommissionBook) {t : CommissionTransaction}
    → record_sales_commission e b ≡ (some t, after)
    → (rate : ℤ) × (t ≡ transaction e "sales" "sales_invoice" e.base_amount rate)
      × (after.transactions ≡ t ∷ b.transactions)
unfolding record_sales_commission write
record_sales_commission-writes e b after {t} h = elim (Option-cases (current_rate e b)) [
  | inl n ↦ ground arith
  | inr (rate, r) ↦ (rate, ground arith, ground arith)
]

-- A first row of a source is the one that is found.
get_by_source-first :
    (c i : ℕ) (table kind : String) (b after : CommissionBook) (t : CommissionTransaction)
    → get_by_source c table i kind b ≡ ok none
    → after.transactions ≡ t ∷ b.transactions
    → has_source c table i kind t ≡ true
    → get_by_source c table i kind after ≡ ok (some t)
unfolding get_by_source
get_by_source-first c i table kind b after t hn ha ht =
    let empty : keep (has_source c table i kind) b.transactions ≡ [] = ground arith in
    rw ha (rw ht (rw empty refl))

reverse_sales_commission-inherits :
    (c : CommissionEvent) (i : ℕ) (b : CommissionBook) (t : CommissionTransaction)
    → get_by_source c.company_id "sales_invoice" i "sales" b ≡ ok (some t)
    → reverse_sales_commission c (some i) b
      ≡ ok (
          some_written
            (write c "sales" "sales_invoice" (pos 0 -ℤ c.base_amount) t.commission_rate b))
unfolding reverse_sales_commission inherited_rate
reverse_sales_commission-inherits c i b t h = rw h refl

-- When an issued invoice earned a commission and had no row before, a credit note of the same base that
-- names the invoice writes the opposite commission, whatever its representative's rate is by then.
pub reverse_sales_commission_offsets :
    (e c : CommissionEvent) (b after : CommissionBook) (reps : List SalesRepresentative)
    {t : CommissionTransaction}
    → get_by_source e.company_id "sales_invoice" e.source_id "sales" b ≡ ok none
    → record_sales_commission e b ≡ (some t, after)
    → c.company_id ≡ e.company_id
    → c.base_amount ≡ e.base_amount
    → (u : CommissionTransaction) × ((last : CommissionBook) × (reverse_sales_commission c
            (some e.source_id)
            (record after { representatives = reps })
          ≡ ok (some u, last))
        × (u.commission_amount ≡ pos 0 -ℤ t.commission_amount))
unfolding write
reverse_sales_commission_offsets e c b after reps {t} hn h hc hb =
    let w = record_sales_commission-writes e b after h in
    let kept : CommissionBook = record after { representatives = reps } in
    let there : has_source e.company_id "sales_invoice" e.source_id "sales" t ≡ true =
      subst
        (λ (x : CommissionTransaction).
          has_source e.company_id "sales_invoice" e.source_id "sales" x ≡ true)
        (sym w.1) (ground arith) in
    let found =
      get_by_source-first e.company_id e.source_id "sales_invoice" "sales" b kept t hn w.2 there in
    let earned : t.commission_amount ≡ commission_amount e.base_amount t.commission_rate =
      subst
        (λ (x : CommissionTransaction).
          x.commission_amount ≡ commission_amount e.base_amount x.commission_rate)
        (sym w.1) refl in
    let u = transaction c "sales" "sales_invoice" (pos 0 -ℤ c.base_amount) t.commission_rate in
    (
      u,
      (
        record kept { transactions = u ∷ kept.transactions },
        reverse_sales_commission-inherits c e.source_id kept t (
            subst
              (λ (n : ℕ). get_by_source n "sales_invoice" e.source_id "sales" kept ≡ ok (some t))
              (sym hc) found),
        commission_amount-neg c.base_amount t.commission_rate
            ∙ ap (λ (n : ℤ). pos 0 -ℤ commission_amount n t.commission_rate) hb
            ∙ ap (λ (n : ℤ). pos 0 -ℤ n) (sym earned),
      ),
    )
