-- ===== src/Payments/Store.antt =====
-- The tables of backend/src/modules/payments/infrastructure, the documents that a payment settles, and
-- the queries over them.
use text.Mathlib.Text.{◌==◌ as str_eq}
use Prim.Native.String.{◌++◌}
use alfahd_erp_system.Prelude.{
  ℕ, ◌+◌, Bool, ◌&&◌, Option, none, some, List, ◌==◌, if◌then◌else◌, ℤ, String, find?, keep, length,
  sum_of,
}
use alfahd_erp_system.Accounting.Store.{Books}
use alfahd_erp_system.Commission.{CommissionBook}
use alfahd_erp_system.Numbering.{six_digits}
use alfahd_erp_system.Sales.Store.{SalesInvoice}

pub record VendorBill : Type 0 where
  pub id : ℕ
  pub company_id : ℕ
  pub partner_id : ℕ
  pub number : String
  pub bill_type : String
  pub bill_date : ℕ
  pub due_date : Option ℕ
  pub original_bill_id : Option ℕ
  pub journal_entry_id : Option ℕ
  pub total_amount : ℤ

pub record Payment : Type 0 where
  pub id : ℕ
  pub company_id : ℕ
  pub branch_id : ℕ
  pub partner_id : ℕ
  pub payment_type : String
  pub number : String
  pub payment_date : ℕ
  pub amount : ℤ
  pub account_id : ℕ
  pub reference : Option String
  pub journal_entry_id : Option ℕ
  pub collection_rep_id : Option ℕ
  pub created_by : ℕ

-- No modelled code reads an allocation's own id.
pub record PaymentAllocation : Type 0 where
  pub company_id : ℕ
  pub payment_id : ℕ
  pub sales_invoice_id : Option ℕ
  pub vendor_bill_id : Option ℕ
  pub amount : ℤ

pub record Treasury : Type 0 where
  pub payments : List Payment
  pub allocations : List PaymentAllocation
  pub invoices : List SalesInvoice
  pub bills : List VendorBill
  pub books : Books
  pub commissions : CommissionBook

-- `column == id`, where the id may be missing: nothing equals `NULL`.
abbrev pub is_id : Option ℕ → ℕ → Bool
is_id none i = Bool.false
is_id (some j) i = j == i

abbrev pub has_invoice_id : ℕ → SalesInvoice → Bool
has_invoice_id i x = x.id == i

abbrev has_bill_id : ℕ → VendorBill → Bool
has_bill_id i x = x.id == i

-- `SalesInvoiceRepository.get_by_id_for_update`; no row has no id.
unfoldable pub get_invoice : Option ℕ → Treasury → Option SalesInvoice
get_invoice none t = none
get_invoice (some i) t = find? (has_invoice_id i) t.invoices

-- `VendorBillRepository.get_by_id_for_update`
unfoldable pub get_bill : Option ℕ → Treasury → Option VendorBill
get_bill none t = none
get_bill (some i) t = find? (has_bill_id i) t.bills

abbrev pub to_invoice : ℕ → PaymentAllocation → Bool
to_invoice i a = is_id a.sales_invoice_id i

abbrev pub to_bill : ℕ → PaymentAllocation → Bool
to_bill i a = is_id a.vendor_bill_id i

abbrev pub allocated : (PaymentAllocation → Bool) → List PaymentAllocation → ℤ
allocated p xs = sum_of (λ x. x.amount) (keep p xs)

unfoldable pub sum_allocated_for_sales_invoice : ℕ → Treasury → ℤ
sum_allocated_for_sales_invoice i t = allocated (to_invoice i) t.allocations

unfoldable pub sum_allocated_for_vendor_bill : ℕ → Treasury → ℤ
sum_allocated_for_vendor_bill i t = allocated (to_bill i) t.allocations

abbrev of_series : ℕ → String → Payment → Bool
of_series c kind p = p.company_id == c && str_eq p.payment_type kind

-- `PaymentRepository.next_number`
unfoldable pub next_number : ℕ → String → Treasury → String
next_number c kind t =
    (if str_eq kind "customer" then "RCT" else "PAY")
    ++ ("-" ++ six_digits (length (keep (of_series c kind) t.payments) + 1))
