-- ===== src/Tests/Vat.antt =====
-- A line of 33.35 at 15 percent: the tax is 5.00, half to even.
use alfahd_erp_system.Prelude.{◌≡◌, refl, pos, ◌+ℤ◌, ◌-ℤ◌, ◌*ℤ◌, ok, ◌≤◌, ◌*◌}
use alfahd_erp_system.Decimal.{half_even, abs}
use alfahd_erp_system.Accounting.Tax.{TaxCalculationResult, rate_of, calculate_tax}
use alfahd_erp_system.Accounting.Tax.Rounding.{calculate_tax_near, calculate_tax_cancels}

abbrev taxed : TaxCalculationResult
taxed = record { taxable_amount = pos 333_500; tax_amount = pos 50_000; total_amount = pos 383_500 }

taxed_line : calculate_tax (pos 333_500) "standard" 1_500 ≡ ok taxed
unfolding calculate_tax rate_of half_even ◌+ℤ◌ ◌*ℤ◌
taxed_line = refl

calculate_tax_near_example :
    (2 * abs (pos 50_000 *ℤ pos 10_000 -ℤ pos 333_500 *ℤ pos 1_500) ≤ 1_000_000)
    × (pos 383_500 ≡ pos 333_500 +ℤ pos 50_000)
calculate_tax_near_example = calculate_tax_near (pos 333_500) 1_500 taxed_line

calculate_tax_cancels_example :
    (y : TaxCalculationResult) × (calculate_tax (pos 0 -ℤ pos 333_500) "standard" 1_500 ≡ ok y)
    × (y.tax_amount ≡ pos 0 -ℤ pos 50_000)
    × (y.total_amount ≡ pos 0 -ℤ pos 383_500)
calculate_tax_cancels_example = calculate_tax_cancels (pos 333_500) "standard" 1_500 taxed_line
