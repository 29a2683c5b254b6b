-- ===== src/Sales/Numbers.antt =====
-- `SalesInvoiceRepository.next_number` of backend/src/modules/sales/infrastructure/repositories.py.
use text.Mathlib.Text.{◌==◌ as str_eq}
use Prim.Native.String.{◌++◌ as text_append}
use alfahd_erp_system.Prelude.{
  ℕ, ◌+◌, ◌-◌, ◌*◌, Bool, ◌&&◌, Option, none, some, List, [], ◌∷◌, leb, ltb, ◌==◌, if◌then◌else◌,
  String,
}
use alfahd_erp_system.Numbering.{codes, six_digits}
use alfahd_erp_system.Sales.Store.{SalesInvoice, SalesBook}

-- A number after `prefix-`, read as `str.isdigit` and `int` do for the digits of ASCII.
abbrev pub after_prefix : List ℕ → List ℕ → Option (List ℕ)
after_prefix [] cs = some cs
after_prefix (p ∷ ps) [] = none
after_prefix (p ∷ ps) (c ∷ cs) = if c == p then after_prefix ps cs else none

abbrev pub is_digit : ℕ → Bool
is_digit c = leb 48 c && leb c 57

abbrev pub read_digits : ℕ → List ℕ → Option ℕ
read_digits acc [] = some acc
read_digits acc (c ∷ cs) =
    let rest = read_digits (10 * acc + (c - 48)) cs in if is_digit c then rest else none

abbrev pub read_suffix : Option (List ℕ) → ℕ
read_suffix none = 0
read_suffix (some []) = 0
read_suffix (some (c ∷ cs)) = elim (read_digits 0 (c ∷ cs)) [ none ↦ 0 | some n ↦ n ]

abbrev max_ℕ : ℕ → ℕ → ℕ
max_ℕ a b = if ltb a b then b else a

abbrev pub max_seq : ℕ → String → List SalesInvoice → ℕ
max_seq c prefix [] = 0
max_seq c prefix (v ∷ vs) =
    let rest = max_seq c prefix vs in
    if v.company_id == c
    then max_ℕ (read_suffix (after_prefix (codes (text_append prefix "-")) (codes v.number))) rest
    else rest

abbrev pub invoice_prefix : String → String
invoice_prefix kind =
    if str_eq kind "credit_note" then "CN" else if str_eq kind "debit_note" then "DN" else "INV"

-- `SalesInvoiceRepository.next_number`
unfoldable pub next_invoice_number : ℕ → String → SalesBook → String
next_invoice_number c kind b =
    let prefix = invoice_prefix kind in
    text_append prefix (text_append "-" (six_digits (max_seq c prefix b.invoices + 1)))
