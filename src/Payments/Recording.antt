-- ===== src/Payments/Recording.antt =====
-- `PaymentService` of backend/src/modules/payments/application/services.py.
use text.Mathlib.Text.{◌==◌ as str_eq}
use alfahd_erp_system.Prelude.{
  ℕ, Bool, ◌&&◌, ◌||◌, not, Option, none, some, List, [], ◌∷◌, ◌++◌, map, ◌==◌, if◌then◌else◌, ℤ,
  pos, ◌+ℤ◌, ltb_ℤ, leb_ℤ, String, any, sum_of, Result, ok, err, ◌>>=◌, ◌>>◌, raise_if, or_raise,
}
use alfahd_erp_system.Accounting.Entities.{Error, DomainLine}
use alfahd_erp_system.Accounting.Store.{JournalEntry, Books, get_account_by_code}
use alfahd_erp_system.Accounting.Entries.{Draft, create_draft_entry, post_entry, require_account}
use alfahd_erp_system.Commission.{
  CommissionBook, CommissionEvent, get_representative, record_collection_commission,
}
use alfahd_erp_system.Payments.Store.{
  Payment, PaymentAllocation, Treasury, get_invoice, get_bill, sum_allocated_for_sales_invoice,
  sum_allocated_for_vendor_bill, next_number,
}

-- What the service raises: its own errors, and those of the accounting services and of `ValueError`.
pub data PaymentError : Type 0 where
  over_allocation invalid_allocation_target : String → PaymentError
  accounting : Error → PaymentError

abbrev pub value_error : String → PaymentError
value_error m = accounting (Error.value_error m)

-- A call of another service: what it raises goes through.
abbrev pub lift : {A : Type 0} → Result Error A → Result PaymentError A
lift (ok a) = ok a
lift (err e) = err (accounting e)

pub record AllocationItem : Type 0 where
  pub sales_invoice_id : Option ℕ
  pub vendor_bill_id : Option ℕ
  pub amount : ℤ

-- The arguments of `record_payment`, and the ids and the time that its calls make.
pub record PaymentRequest : Type 0 where
  pub company_id : ℕ
  pub branch_id : ℕ
  pub partner_id : ℕ
  pub payment_type : String
  pub payment_date : ℕ
  pub amount : ℤ
  pub account_id : ℕ
  pub reference : Option String
  pub allocations : List AllocationItem
  pub created_by : ℕ
  pub collection_rep_id : Option ℕ
  pub payment_id : ℕ
  pub entry_id : ℕ
  pub transaction_id : ℕ
  pub now : ℕ

-- Which of the optional collaborators the service has.
pub record Wiring : Type 0 where
  pub has_sales_reps : Bool
  pub has_commission : Bool
  pub checks_cost_centers : Bool

-- `_validate_sales_rep`
unfoldable pub validate_sales_rep :
    Wiring → ℕ → Option ℕ → Treasury → Result PaymentError (Unit {0})
validate_sales_rep w c none t = ok tt
validate_sales_rep w c (some i) t = do
  raise_if (not w.has_sales_reps) (value_error "Sales representative assignment is not available")
  rep ←
      or_raise (get_representative c i t.commissions) (value_error "Sales representative not found")
  ok tt

abbrev pub invoice_allocation : ℕ → ℕ → ℤ → PaymentAllocation
invoice_allocation c i amount = record {
  company_id = c;
  payment_id = 0;
  sales_invoice_id = some i;
  vendor_bill_id = none;
  amount = amount;
}

abbrev pub bill_allocation : ℕ → ℕ → ℤ → PaymentAllocation
bill_allocation c i amount = record {
  company_id = c;
  payment_id = 0;
  sales_invoice_id = none;
  vendor_bill_id = some i;
  amount = amount;
}

-- One round of the loop, for a customer. The payment's id is set when the row is added.
unfoldable pub prepare_for_invoice :
    ℕ → ℕ → AllocationItem → Treasury → Result PaymentError PaymentAllocation
prepare_for_invoice c partner x t = do
  invoice ← or_raise (get_invoice x.sales_invoice_id t) (value_error "Sales invoice not found")
  raise_if (not (invoice.company_id == c)) (value_error "Sales invoice not found")
  raise_if (not (invoice.partner_id == partner))
      (invalid_allocation_target "Cannot allocate a customer payment to another customer's invoice")
  raise_if (ltb_ℤ invoice.total_amount (sum_allocated_for_sales_invoice invoice.id t +ℤ x.amount))
      (over_allocation "Allocation exceeds invoice's outstanding balance")
  ok (invoice_allocation c invoice.id x.amount)

-- One round for a vendor.
unfoldable pub prepare_for_bill :
    ℕ → ℕ → AllocationItem → Treasury → Result PaymentError PaymentAllocation
prepare_for_bill c partner x t = do
  bill ← or_raise (get_bill x.vendor_bill_id t) (value_error "Vendor bill not found")
  raise_if (not (bill.company_id == c)) (value_error "Vendor bill not found")
  raise_if (not (bill.partner_id == partner))
      (invalid_allocation_target "Cannot allocate a vendor payment to another vendor's bill")
  raise_if (ltb_ℤ bill.total_amount (sum_allocated_for_vendor_bill bill.id t +ℤ x.amount))
      (over_allocation "Allocation exceeds bill's outstanding balance")
  ok (bill_allocation c bill.id x.amount)

unfoldable pub prepare :
    String → ℕ → ℕ → AllocationItem → Treasury → Result PaymentError PaymentAllocation
prepare kind c partner x t =
    if str_eq kind "customer"
    then prepare_for_invoice c partner x t
    else (if str_eq kind "vendor"
        then prepare_for_bill c partner x t
        else err (value_error "Unknown payment_type"))

-- The loop: every round reads the tables as they were before it.
unfoldable pub prepare_all :
    String → ℕ → ℕ → List AllocationItem → Treasury → Result PaymentError (List PaymentAllocation)
prepare_all kind c partner [] t = ok []
prepare_all kind c partner (x ∷ xs) t =
    let rest = prepare_all kind c partner xs t in
    do a ← prepare kind c partner x t; prepared ← rest; ok (a ∷ prepared)

abbrev pub total_of : List PaymentAllocation → ℤ
total_of xs = sum_of (λ x. x.amount) xs

abbrev pub new_payment : PaymentRequest → String → Payment
new_payment r number = record {
  id = r.payment_id;
  company_id = r.company_id;
  branch_id = r.branch_id;
  partner_id = r.partner_id;
  payment_type = r.payment_type;
  number = number;
  payment_date = r.payment_date;
  amount = r.amount;
  account_id = r.account_id;
  reference = r.reference;
  journal_entry_id = none;
  collection_rep_id = r.collection_rep_id;
  created_by = r.created_by;
}

-- The table's constraints: the primary key, `ux_payment_number`, and the checks on the type and the
-- amounts.
abbrev clashes : Payment → Payment → Bool
clashes p x = x.id == p.id || x.company_id == p.company_id && str_eq x.number p.number

abbrev is_payment_type : String → Bool
is_payment_type kind = str_eq kind "customer" || str_eq kind "vendor"

abbrev is_not_positive : PaymentAllocation → Bool
is_not_positive a = leb_ℤ a.amount (pos 0)

abbrev pub is_refused : Payment → List PaymentAllocation → Treasury → Bool
is_refused p xs t =
    any (clashes p) t.payments
    || not (is_payment_type p.payment_type)
    || leb_ℤ p.amount (pos 0)
    || any is_not_positive xs

abbrev pub set_payment_id : ℕ → PaymentAllocation → PaymentAllocation
set_payment_id i a = record a { payment_id = i }

-- `PaymentRepository.add`, with the service's handler of an `IntegrityError`.
unfoldable pub add_payment :
    Payment → List PaymentAllocation → Treasury → Result PaymentError Treasury
add_payment p xs t =
    if is_refused p xs t
    then err (value_error "A payment was created concurrently with the same number — please retry")
    else ok (record t {
      payments = p ∷ t.payments;
      allocations = map (set_payment_id p.id) xs ++ t.allocations;
    })

abbrev pub payment_line : ℕ → ℤ → ℤ → DomainLine
payment_line account debit credit = record {
  account_id = account;
  debit = debit;
  credit = credit;
  cost_center_id = none;
  description = none;
}

-- A customer's payment: cash up, receivable down.
abbrev pub customer_lines : Payment → ℕ → List DomainLine
customer_lines p receivable =
    payment_line p.account_id p.amount (pos 0) ∷ payment_line receivable (pos 0) p.amount ∷ []

-- A payment to a vendor: payable down, cash down.
abbrev pub vendor_lines : Payment → ℕ → List DomainLine
vendor_lines p payable =
    payment_line payable p.amount (pos 0) ∷ payment_line p.account_id (pos 0) p.amount ∷ []

unfoldable pub payment_lines : Payment → Books → Result PaymentError (List DomainLine)
payment_lines p b =
    let not_seeded = value_error "Default Chart of Accounts is not seeded for this company" in
    if str_eq p.payment_type "customer"
    then (do
      account ← or_raise (get_account_by_code p.company_id "1200" b) not_seeded
      ok (customer_lines p account.id))
    else (do
      account ← or_raise (get_account_by_code p.company_id "2100" b) not_seeded
      ok (vendor_lines p account.id))

abbrev pub payment_draft : Bool → ℕ → Payment → List DomainLine → Draft
payment_draft checks entry_id p lines = record {
  company_id = p.company_id;
  branch_id = some p.branch_id;
  journal_code = "BANK";
  entry_date = p.payment_date;
  reference = some p.number;
  lines = lines;
  created_by = p.created_by;
  description = none;
  source_table = some "payment";
  source_id = some p.id;
  new_id = entry_id;
  checks_cost_centers = checks;
}

-- `_post_journal_entry`
unfoldable pub post_journal_entry :
    Bool → ℕ → ℕ → Payment → Books → Result PaymentError (JournalEntry × Books)
post_journal_entry checks entry_id now p b = do
  lines ← payment_lines p b
  (entry, b') ← lift (create_draft_entry (payment_draft checks entry_id p lines) b)
  lift (post_entry entry.id p.company_id now b')

-- `payment.journal_entry_id = posted.id`, on the row that was added.
abbrev pub set_entry : ℕ → ℕ → List Payment → List Payment
set_entry i entry_id [] = []
set_entry i entry_id (x ∷ xs) =
    (if x.id == i then record x { journal_entry_id = some entry_id } else x)
    ∷ set_entry i entry_id xs

abbrev pub collection_event : ℕ → Payment → ℕ → CommissionEvent
collection_event transaction_id p rep = record {
  id = transaction_id;
  company_id = p.company_id;
  representative_id = rep;
  source_id = p.id;
  base_amount = p.amount;
  transaction_date = p.payment_date;
}

-- `_record_collection_commission`: customer receipts with a collector only.
abbrev collect : ℕ → Payment → Option ℕ → CommissionBook → CommissionBook
collect transaction_id p none b = b
collect transaction_id p (some rep) b =
    (record_collection_commission (collection_event transaction_id p rep) b).1

unfoldable pub record_commission : Wiring → ℕ → Payment → CommissionBook → CommissionBook
record_commission w transaction_id p b =
    if not w.has_commission || not (str_eq p.payment_type "customer")
    then b
    else collect transaction_id p p.collection_rep_id b

abbrev pub settled : Wiring → PaymentRequest → Payment → JournalEntry → Books → Treasury → Treasury
settled w r p entry b t = record t {
  payments = set_entry p.id entry.id t.payments;
  books = b;
  commissions = record_commission w r.transaction_id p t.commissions;
}

unfoldable pub record_payment :
    Wiring → PaymentRequest → Treasury → Result PaymentError (Payment × Treasury)
record_payment w r t = do
  account ← lift (
      require_account r.account_id r.company_id t.books
        (Error.value_error "Cash/bank account not found"))
  validate_sales_rep w r.company_id r.collection_rep_id t
  prepared ← prepare_all r.payment_type r.company_id r.partner_id r.allocations t
  raise_if (ltb_ℤ r.amount (total_of prepared))
      (over_allocation "Total allocated amount exceeds the payment amount")
  let p = new_payment r (next_number r.company_id r.payment_type t)
  t' ← add_payment p prepared t
  (entry, b) ← post_journal_entry w.checks_cost_centers r.entry_id r.now p t'.books
  ok (record p { journal_entry_id = some entry.id }, settled w r p entry b t')
