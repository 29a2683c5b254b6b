-- ===== src/Accounting/Tax/Rounding.antt =====
-- The tax of a line: how near it is to the exact one, and the tax of a returned line.
use alfahd_erp_system.Prelude.{
  ℕ, ◌≡◌, refl, ◌∙◌, ap, String, ℤ, pos, ◌+ℤ◌, ◌-ℤ◌, ◌*ℤ◌, *ℤ_parts, eq_of_parts, eq-parts, neg_*ℤ,
  ok, ◌≤◌, ◌*◌, arith, int_laws, Bool-cases, inl, inr,
}
use alfahd_erp_system.Decimal.{half_even, half_even_nearest, signed, signed_neg, abs, divide_near}
use alfahd_erp_system.Accounting.Tax.{TaxCalculationResult, is_untaxed, rate_of, calculate_tax}

scaled : (s : ℤ) → s *ℤ pos 100 *ℤ pos 10_000 ≡ s *ℤ pos 1_000_000
scaled s = omega (
  arith,
  eq_of_parts,
  *ℤ_parts s (pos 100),
  *ℤ_parts (s *ℤ pos 100) (pos 10_000),
  *ℤ_parts s (pos 1_000_000),
)

rate_of_near :
    (amount : ℤ) (rate : ℕ)
    → 2 * abs (rate_of amount rate *ℤ pos 10_000 -ℤ amount *ℤ pos rate) ≤ 1_000_000
unfolding rate_of
rate_of_near amount rate =
    rw (scaled (signed half_even (amount *ℤ pos rate) 1_000_000))
      (divide_near half_even half_even_nearest (amount *ℤ pos rate) (pos 1_000_000) (omega arith))

-- A line at the standard rate is taxed by the exact percentage up to half a cent, and its total is the
-- line and the tax.
pub calculate_tax_near :
    (amount : ℤ) (rate : ℕ) {x : TaxCalculationResult}
    → calculate_tax amount "standard" rate ≡ ok x
    → (2 * abs (x.tax_amount *ℤ pos 10_000 -ℤ amount *ℤ pos rate) ≤ 1_000_000)
      × (x.total_amount ≡ amount +ℤ x.tax_amount)
unfolding calculate_tax
calculate_tax_near amount rate {x} h =
    let e : x.tax_amount ≡ rate_of amount rate = ground arith in
    (rw e (rate_of_near amount rate), ground arith)

rate_of-neg :
    (amount : ℤ) (rate : ℕ) → rate_of (pos 0 -ℤ amount) rate ≡ pos 0 -ℤ rate_of amount rate
unfolding rate_of half_even
rate_of-neg amount rate =
    ap (λ (n : ℤ). signed half_even n 1_000_000 *ℤ pos 100) (neg_*ℤ amount (pos rate))
    ∙ ap (λ (n : ℤ). n *ℤ pos 100) (signed_neg (amount *ℤ pos rate) 1_000_000 refl)
    ∙ neg_*ℤ (signed half_even (amount *ℤ pos rate) 1_000_000) (pos 100)

-- A line that is returned at its own kind and rate cancels the line: its tax and its total are the
-- opposite ones, for every kind, after rounding.
pub calculate_tax_cancels :
    (amount : ℤ) (kind : String) (rate : ℕ) {x : TaxCalculationResult}
    → calculate_tax amount kind rate ≡ ok x
    → (y : TaxCalculationResult) × (calculate_tax (pos 0 -ℤ amount) kind rate ≡ ok y)
      × (y.tax_amount ≡ pos 0 -ℤ x.tax_amount)
      × (y.total_amount ≡ pos 0 -ℤ x.total_amount)
unfolding calculate_tax
calculate_tax_cancels amount kind rate {x} h = elim (Bool-cases (is_untaxed kind)) [
  | inl u ↦
      let e : x
          ≡ record { taxable_amount = amount; tax_amount = pos 0; total_amount = amount +ℤ pos 0 } =
        ground arith in
      (
        record {
          taxable_amount = pos 0 -ℤ amount;
          tax_amount = pos 0;
          total_amount = pos 0 -ℤ amount +ℤ pos 0;
        },
        ground arith,
        rw e (omega int_laws),
        rw e (omega int_laws),
      )
  | inr t ↦
      let tax = rate_of amount rate in
      let back = rate_of (pos 0 -ℤ amount) rate in
      let opposite = rate_of-neg amount rate in
      let e : x
          ≡ record { taxable_amount = amount; tax_amount = tax; total_amount = amount +ℤ tax } =
        ground arith in
      (
        record {
          taxable_amount = pos 0 -ℤ amount;
          tax_amount = back;
          total_amount = pos 0 -ℤ amount +ℤ back;
        },
        ground arith,
        rw e opposite,
        rw e (omega (int_laws, eq-parts opposite)),
      )
]
