-- ===== src/Payments/Subledger.antt =====
-- `SubledgerService` and the balance and aging functions of
-- backend/src/modules/payments/application/services.py.
pub mod Running
use text.Mathlib.Text.{◌==◌ as str_eq}
use alfahd_erp_system.Prelude.{
  ℕ, Bool, ◌&&◌, Option, none, some, List, [], ◌∷◌, ◌++◌, ltb, leb, ◌==◌, if◌then◌else◌, ℤ, pos,
  ◌+ℤ◌, ◌-ℤ◌, ltb_ℤ, leb_ℤ, sub_ℕ, String, keep, sum_of,
}
use alfahd_erp_system.Payments.Store.{VendorBill}
use alfahd_erp_system.Sales.Store.{SalesInvoice}

pub record Movement : Type 0 where
  pub date : ℕ
  pub movement_type : String
  pub document_type : String
  pub document_id : ℕ
  pub reference : String
  pub debit : ℤ
  pub credit : ℤ

-- A row of `list_allocations_for_partner`.
pub record PartnerAllocation : Type 0 where
  pub sales_invoice_id : Option ℕ
  pub vendor_bill_id : Option ℕ
  pub amount : ℤ
  pub payment_id : ℕ
  pub number : String
  pub payment_date : ℕ

-- A row of `list_unallocated_payments_for_partner`.
pub record Unallocated : Type 0 where
  pub payment_id : ℕ
  pub number : String
  pub payment_date : ℕ
  pub remainder : ℤ

abbrev movement : ℕ → String → String → ℕ → String → ℤ → ℤ → Movement
movement day kind document i reference debit credit = record {
  date = day;
  movement_type = kind;
  document_type = document;
  document_id = i;
  reference = reference;
  debit = debit;
  credit = credit;
}

-- A posted invoice raises what the customer owes, a posted credit note lowers it.
abbrev invoice_movement : SalesInvoice → Option ℕ → List Movement
invoice_movement v none = []
invoice_movement v (some e) =
    (if str_eq v.invoice_type "credit_note"
      then movement v.invoice_date "credit_note" "sales_invoice" v.id v.number (pos 0)
          v.total_amount
      else movement v.invoice_date "invoice" "sales_invoice" v.id v.number v.total_amount (pos 0))
    ∷ []

abbrev invoice_movements : List SalesInvoice → List Movement
invoice_movements [] = []
invoice_movements (v ∷ vs) = invoice_movement v v.journal_entry_id ++ invoice_movements vs

abbrev customer_allocation : PartnerAllocation → Option ℕ → List Movement
customer_allocation a none = []
customer_allocation a (some i) =
    movement a.payment_date "payment" "payment" a.payment_id a.number (pos 0) a.amount ∷ []

abbrev customer_allocations : List PartnerAllocation → List Movement
customer_allocations [] = []
customer_allocations (a ∷ rest) =
    customer_allocation a a.sales_invoice_id ++ customer_allocations rest

abbrev customer_unallocated : List Unallocated → List Movement
customer_unallocated [] = []
customer_unallocated (u ∷ us) =
    movement u.payment_date "payment" "payment" u.payment_id u.number (pos 0) u.remainder
    ∷ customer_unallocated us

-- `_customer_movements`
unfoldable pub customer_movements :
    List SalesInvoice → List PartnerAllocation → List Unallocated → List Movement
customer_movements vs allocations us =
    invoice_movements vs ++ (customer_allocations allocations ++ customer_unallocated us)

abbrev bill_movement : VendorBill → Option ℕ → List Movement
bill_movement v none = []
bill_movement v (some e) =
    (if str_eq v.bill_type "debit_note"
      then movement v.bill_date "debit_note" "vendor_bill" v.id v.number v.total_amount (pos 0)
      else movement v.bill_date "bill" "vendor_bill" v.id v.number (pos 0) v.total_amount)
    ∷ []

abbrev bill_movements : List VendorBill → List Movement
bill_movements [] = []
bill_movements (v ∷ vs) = bill_movement v v.journal_entry_id ++ bill_movements vs

abbrev vendor_allocation : PartnerAllocation → Option ℕ → List Movement
vendor_allocation a none = []
vendor_allocation a (some i) =
    movement a.payment_date "payment" "payment" a.payment_id a.number a.amount (pos 0) ∷ []

abbrev vendor_allocations : List PartnerAllocation → List Movement
vendor_allocations [] = []
vendor_allocations (a ∷ rest) = vendor_allocation a a.vendor_bill_id ++ vendor_allocations rest

abbrev vendor_unallocated : List Unallocated → List Movement
vendor_unallocated [] = []
vendor_unallocated (u ∷ us) =
    movement u.payment_date "payment" "payment" u.payment_id u.number u.remainder (pos 0)
    ∷ vendor_unallocated us

-- `_vendor_movements`
unfoldable pub vendor_movements :
    List VendorBill → List PartnerAllocation → List Unallocated → List Movement
vendor_movements vs allocations us =
    bill_movements vs ++ (vendor_allocations allocations ++ vendor_unallocated us)

-- `movements.sort(key=date)`, which keeps the order of one day.
abbrev pub insert_by_date : Movement → List Movement → List Movement
insert_by_date x [] = x ∷ []
insert_by_date x (y ∷ ys) = if leb x.date y.date then x ∷ y ∷ ys else y ∷ insert_by_date x ys

abbrev pub sorted_by_date : List Movement → List Movement
sorted_by_date [] = []
sorted_by_date (x ∷ xs) = insert_by_date x (sorted_by_date xs)

abbrev pub net : Movement → ℤ
net m = m.debit -ℤ m.credit

pub record SubledgerLine : Type 0 where
  pub movement : Movement
  pub running_balance : ℤ

-- The first loop.
unfoldable pub opening_from : ℕ → List Movement → ℤ → ℤ
opening_from date_from [] opening = opening
opening_from date_from (m ∷ ms) opening =
    opening_from date_from ms (if ltb m.date date_from then opening +ℤ net m else opening)

abbrev line_of : Movement → ℤ → List SubledgerLine × ℤ → List SubledgerLine × ℤ
line_of m running (lines, closing) =
    (record { movement = m; running_balance = running } ∷ lines, closing)

-- The second loop.
unfoldable pub running_lines : ℕ → ℕ → List Movement → ℤ → List SubledgerLine × ℤ
running_lines date_from date_to [] running = ([], running)
running_lines date_from date_to (m ∷ ms) running =
    let taken =
      line_of m (running +ℤ net m) (running_lines date_from date_to ms (running +ℤ net m)) in
    let passed = running_lines date_from date_to ms running in
    if leb date_from m.date && leb m.date date_to then taken else passed

pub record SubledgerReport : Type 0 where
  pub opening_balance : ℤ
  pub lines : List SubledgerLine
  pub closing_balance : ℤ

-- `_build_subledger`
unfoldable pub build_subledger : List Movement → ℕ → ℕ → SubledgerReport
build_subledger movements date_from date_to =
    let ms = sorted_by_date movements in
    let opening = opening_from date_from ms (pos 0) in
    let (lines, closing) = running_lines date_from date_to ms opening in
    record { opening_balance = opening; lines = lines; closing_balance = closing }

pub data Bucket : Type 0 where
  current from_1_to_30 from_31_to_60 from_61_to_90 over_90 : Bucket

-- `(as_of_date - (due_date or fallback_date)).days`
abbrev days_overdue : Option ℕ → ℕ → ℕ → ℤ
days_overdue none fallback as_of = sub_ℕ as_of fallback
days_overdue (some due) fallback as_of = sub_ℕ as_of due

-- The bucket of `_aging_row`.
unfoldable pub aging_bucket : Option ℕ → ℕ → ℕ → Bucket
aging_bucket due fallback as_of =
    let days = days_overdue due fallback as_of in
    if leb_ℤ days (pos 0)
    then current
    else (if leb_ℤ days (pos 30)
        then from_1_to_30
        else (if leb_ℤ days (pos 60)
            then from_31_to_60
            else (if leb_ℤ days (pos 90) then from_61_to_90 else over_90)))

pub data PaymentStatus : Type 0 where
  unpaid paid partially_paid : PaymentStatus

-- The status of `_balance_dict`.
unfoldable pub payment_status : ℤ → ℤ → PaymentStatus
payment_status total_amount amount_paid =
    if leb_ℤ amount_paid (pos 0)
    then unpaid
    else (if leb_ℤ (total_amount -ℤ amount_paid) (pos 0) then paid else partially_paid)
