-- ===== src/Accounting/Tax.antt =====
-- `calculate_tax` of backend/src/modules/accounting/domain/entities.py. Amounts are in units of
-- 10^-4 and a rate in hundredths of a percent (`Numeric(5, 2)`).
pub mod Rounding
use text.Mathlib.Text.{◌==◌ as str_eq}
use alfahd_erp_system.Prelude.{
  ℕ, Bool, not, ◌||◌, ℤ, pos, ◌+ℤ◌, ◌*ℤ◌, Result, ok, String, raise_if, ◌>>◌, if◌then◌else◌,
}
use alfahd_erp_system.Decimal.{half_even, signed}
use alfahd_erp_system.Accounting.Entities.{Error, domain_error}

pub record TaxCalculationResult : Type 0 where
  pub taxable_amount : ℤ
  pub tax_amount : ℤ
  pub total_amount : ℤ

-- `TAX_KINDS`
abbrev pub is_tax_kind : String → Bool
is_tax_kind k =
    str_eq k "standard" || str_eq k "zero_rated" || str_eq k "exempt" || str_eq k "out_of_scope"

abbrev pub is_untaxed : String → Bool
is_untaxed k = str_eq k "zero_rated" || str_eq k "exempt" || str_eq k "out_of_scope"

-- amount * rate / 100, quantized to cents (half-even), in units of 10^-4.
unfoldable pub rate_of : ℤ → ℕ → ℤ
rate_of amount rate = signed half_even (amount *ℤ pos rate) 1_000_000 *ℤ pos 100

unfoldable pub calculate_tax : ℤ → String → ℕ → Result Error TaxCalculationResult
calculate_tax line_amount tax_kind rate_percent = do
  raise_if (not (is_tax_kind tax_kind)) (domain_error "Unknown tax kind")
  let tax_amount = if is_untaxed tax_kind then pos 0 else rate_of line_amount rate_percent
  ok (record {
    taxable_amount = line_amount;
    tax_amount = tax_amount;
    total_amount = line_amount +ℤ tax_amount;
  })
