-- ===== src/Tests/Treasury.antt =====
-- A customer's invoice of 100.00 and what is paid on it, and a representative's commissions.
use alfahd_erp_system.Prelude.{
  ◌<ℤ◌, ℕ, ◌≡◌, refl, true, false, Option, none, some, List, [], ◌∷◌, map, arith, ℤ, pos, negsuc,
  ◌+ℤ◌, ◌-ℤ◌, ◌≤ℤ◌, ok, err, String, sum_of, ◌+◌,
}
use alfahd_erp_system.Accounting.Entities.{post_init, post_init_all, assert_balanced}
use alfahd_erp_system.Accounting.Store.{
  Account, asset, Books, JournalEntry, set_entry_id, get_account, get_account_by_code,
  get_journal_by_code, add_entry, find_covering, get_entry, get_lines, save_entry,
}
use alfahd_erp_system.Accounting.Entries.{
  orm_entry, orm_line, mark_posted, require_account, create_draft_entry, post_entry,
  check_cost_center, check_line, check_lines, require_entry,
}
use alfahd_erp_system.Accounting.Entries.Balance.{IsConsistent}
use alfahd_erp_system.Commission.{
  CommissionBook, CommissionEvent, CommissionTransaction, SalesRepresentative, get_by_source,
  record_sales_commission, reverse_sales_commission, transaction,
}
use alfahd_erp_system.Commission.Reversal.{reverse_sales_commission_offsets}
use alfahd_erp_system.Payments.Store.{
  Payment, Treasury, get_invoice, next_number, sum_allocated_for_sales_invoice,
}
use alfahd_erp_system.Sales.Store.{SalesInvoice}
use alfahd_erp_system.Zatca.Entities.{cleared}
use alfahd_erp_system.Payments.Recording.{
  over_allocation, AllocationItem, PaymentRequest, Wiring, prepare, prepare_all, invoice_allocation,
  set_payment_id, new_payment, payment_draft, customer_lines, validate_sales_rep,
  prepare_for_invoice, add_payment, post_journal_entry, payment_lines, record_commission,
  record_payment, total_of,
}
use alfahd_erp_system.Payments.Allocations.{times, prepare_all_repeats}
use alfahd_erp_system.Payments.Limits.{record_payment_within_total, record_payment_within_amount}
use alfahd_erp_system.Payments.Posting.{if_account, comes_in, record_payment_posts}
use alfahd_erp_system.Accounting.Ledger.{account_balance_by_id}
use alfahd_erp_system.Payments.Subledger.{Movement, build_subledger}
use alfahd_erp_system.Payments.Subledger.Running.{net_before, build_subledger_balances}

abbrev cash_account : ℕ → String → Account
cash_account i code = record {
  id = i;
  company_id = 7;
  code = code;
  name = code;
  name_ar = none;
  account_type = asset;
  parent_id = none;
  level = 1;
  is_group = false;
  is_active = true;
  is_cash_equivalent = false;
  deleted_at = none;
}

abbrev bank_books : Books
bank_books = record {
  accounts = cash_account 1 "1100" ∷ cash_account 2 "1200" ∷ [];
  journals = record { id = 5; company_id = 7; code = "BANK" } ∷ [];
  cost_centers = [];
  periods = [];
  entries = [];
  lines = [];
}

abbrev no_commissions : CommissionBook
no_commissions = record { representatives = []; transactions = [] }

abbrev an_invoice : SalesInvoice
an_invoice = record {
  id = 50;
  company_id = 7;
  branch_id = 1;
  partner_id = 8;
  sales_order_id = some 30;
  original_invoice_id = none;
  invoice_type = "tax";
  number = "INV-000001";
  status = cleared;
  invoice_date = 10;
  due_date = none;
  subtotal_amount = pos 1_000_000;
  tax_amount = pos 0;
  total_amount = pos 1_000_000;
  warehouse_id = none;
  cost_center_id = none;
  sales_rep_id = none;
  journal_entry_id = some 40;
}

abbrev owed : Treasury
owed = record {
  payments = [];
  allocations = [];
  invoices = an_invoice ∷ [];
  bills = [];
  books = bank_books;
  commissions = no_commissions;
}

abbrev wiring : Wiring
wiring = record { has_sales_reps = true; has_commission = true; checks_cost_centers = true }

abbrev on_invoice : AllocationItem
on_invoice = record { sales_invoice_id = some 50; vendor_bill_id = none; amount = pos 1_000_000 }

abbrev request : ℤ → List AllocationItem → PaymentRequest
request amount items = record {
  company_id = 7;
  branch_id = 3;
  partner_id = 8;
  payment_type = "customer";
  payment_date = 12;
  amount = amount;
  account_id = 1;
  reference = none;
  allocations = items;
  created_by = 1;
  collection_rep_id = none;
  payment_id = 30;
  entry_id = 60;
  transaction_id = 70;
  now = 99;
}

abbrev payment : ℤ → List AllocationItem → Payment
payment amount items = new_payment (request amount items) "RCT-000001"

abbrev draft_of : Payment → JournalEntry
draft_of p = orm_entry (payment_draft true 60 p (customer_lines p 2)) 5

abbrev paid_books : Payment → Books
paid_books p = record bank_books {
  entries = mark_posted 99 (draft_of p) ∷ [];
  lines = map (set_entry_id 60) (map (orm_line 7 60) (customer_lines p 2));
}

abbrev paid : ℤ → List AllocationItem → Treasury
paid amount items = record owed {
  payments = record (payment amount items) { journal_entry_id = some 60 } ∷ [];
  allocations =
      map (set_payment_id 30)
        (map (λ (x : AllocationItem). invoice_allocation 7 50 x.amount) items);
  books = paid_books (payment amount items);
}

once_paid :
    record_payment wiring (request (pos 1_500_000) (on_invoice ∷ [])) owed
    ≡ ok (
      record (payment (pos 1_500_000) (on_invoice ∷ [])) { journal_entry_id = some 60 },
      paid (pos 1_500_000) (on_invoice ∷ []),
    )
unfolding record_payment require_account get_account validate_sales_rep prepare_all prepare
    prepare_for_invoice get_invoice ◌+ℤ◌ sum_allocated_for_sales_invoice add_payment
    post_journal_entry payment_lines get_account_by_code create_draft_entry get_journal_by_code
    post_init_all post_init assert_balanced check_cost_center check_line check_lines post_entry
    require_entry add_entry find_covering get_entry get_lines save_entry record_commission
    next_number
once_paid = refl

-- The same invoice twice in one payment: twice its total is settled.
twice_paid :
    record_payment wiring (request (pos 2_000_000) (on_invoice ∷ on_invoice ∷ [])) owed
    ≡ ok (
      record (payment (pos 2_000_000) (on_invoice ∷ on_invoice ∷ [])) {
        journal_entry_id = some 60;
      },
      paid (pos 2_000_000) (on_invoice ∷ on_invoice ∷ []),
    )
unfolding record_payment require_account get_account validate_sales_rep prepare_all prepare
    prepare_for_invoice get_invoice ◌+ℤ◌ sum_allocated_for_sales_invoice add_payment
    post_journal_entry payment_lines get_account_by_code create_draft_entry get_journal_by_code
    post_init_all post_init assert_balanced check_cost_center check_line check_lines post_entry
    require_entry add_entry find_covering get_entry get_lines save_entry record_commission
    next_number
twice_paid = refl

twice_settled :
    sum_allocated_for_sales_invoice 50 (paid (pos 2_000_000) (on_invoice ∷ on_invoice ∷ []))
    ≡ pos 2_000_000
unfolding sum_allocated_for_sales_invoice ◌+ℤ◌
twice_settled = refl

prepare_all_repeats_example :
    (sum_allocated_for_sales_invoice 50 owed +ℤ pos 1_000_000 ≤ℤ pos 1_000_000
      → prepare_all "customer" 7 8 (times 2 on_invoice) owed
        ≡ ok (times 2 (invoice_allocation 7 50 (pos 1_000_000))))
    × (pos 1_000_000 <ℤ sum_allocated_for_sales_invoice 50 owed +ℤ pos 1_000_000
        → prepare_all "customer" 7 8 (times 2 on_invoice) owed
          ≡ err (over_allocation "Allocation exceeds invoice's outstanding balance"))
unfolding get_invoice
prepare_all_repeats_example = prepare_all_repeats 7 8 1 on_invoice owed an_invoice refl refl refl

record_payment_within_total_example :
    sum_allocated_for_sales_invoice 50 (paid (pos 1_500_000) (on_invoice ∷ [])) ≤ℤ pos 1_000_000
unfolding get_invoice sum_allocated_for_sales_invoice
record_payment_within_total_example =
    record_payment_within_total wiring (request (pos 1_500_000) (on_invoice ∷ [])) owed 50
      an_invoice once_paid refl (omega arith) tt

record_payment_within_amount_example :
    total_of (paid (pos 1_500_000) (on_invoice ∷ [])).allocations
    ≤ℤ pos 1_500_000 +ℤ total_of owed.allocations
record_payment_within_amount_example =
    record_payment_within_amount wiring (request (pos 1_500_000) (on_invoice ∷ [])) owed once_paid

bank_books-IsConsistent : IsConsistent bank_books
bank_books-IsConsistent = record { distinct = tt; owned = tt; balanced = tt }

record_payment_posts_example :
    account_balance_by_id 7 2 30 none none (paid (pos 1_500_000) (on_invoice ∷ [])).books
    ≡ account_balance_by_id 7 2 30 none none bank_books
      +ℤ (if_account 1 2 (comes_in "customer" (pos 1_500_000))
          -ℤ if_account 2 2 (comes_in "customer" (pos 1_500_000)))
unfolding get_account_by_code
record_payment_posts_example =
    record_payment_posts wiring (request (pos 1_500_000) (on_invoice ∷ [])) owed 2 30
      (cash_account 2 "1200") bank_books-IsConsistent refl (omega arith) once_paid

abbrev card : ℕ → ℤ → ℤ → Movement
card day debit credit = record {
  date = day;
  movement_type = "invoice";
  document_type = "sales_invoice";
  document_id = 50;
  reference = "INV-000001";
  debit = debit;
  credit = credit;
}

abbrev account_card : List Movement
account_card = card 12 (pos 0) (pos 40) ∷ card 10 (pos 100) (pos 0) ∷ card 3 (pos 7) (pos 0) ∷ []

build_subledger_balances_example :
    let s = build_subledger account_card 5 20 in
    (s.opening_balance ≡ net_before 5 account_card)
    × (s.closing_balance ≡ net_before 21 account_card)
build_subledger_balances_example = build_subledger_balances account_card 5 20 (omega arith)

-- A representative at 2.5 percent, later at 3.
abbrev representative : ℤ → SalesRepresentative
representative rate = record { id = 9; company_id = 7; commission_rate = some rate }

abbrev event : ℕ → ℕ → CommissionEvent
event i source = record {
  id = i;
  company_id = 7;
  representative_id = 9;
  source_id = source;
  base_amount = pos 1_000_000;
  transaction_date = 10;
}

abbrev paid_to_staff : CommissionBook
paid_to_staff = record { representatives = representative (pos 250) ∷ []; transactions = [] }

abbrev earned : CommissionTransaction
earned = record {
  id = 70;
  company_id = 7;
  representative_id = 9;
  commission_type = "sales";
  source_table = "sales_invoice";
  source_id = 50;
  base_amount = pos 1_000_000;
  commission_rate = pos 250;
  commission_amount = pos 25_000;
  transaction_date = 10;
}

abbrev earned_book : CommissionBook
earned_book = record paid_to_staff { transactions = earned ∷ [] }

earned_recorded : record_sales_commission (event 70 50) paid_to_staff ≡ (some earned, earned_book)
unfolding record_sales_commission alfahd_erp_system.Commission.current_rate
    alfahd_erp_system.Commission.get_representative alfahd_erp_system.Commission.write
    alfahd_erp_system.Commission.commission_amount alfahd_erp_system.Prelude.◌*ℤ◌
    alfahd_erp_system.Decimal.half_even
earned_recorded = refl

nothing_earned : get_by_source 7 "sales_invoice" 50 "sales" paid_to_staff ≡ ok none
unfolding get_by_source
nothing_earned = refl

reverse_sales_commission_offsets_example :
    (u : CommissionTransaction) × ((last : CommissionBook) × (reverse_sales_commission
          (event 71 51)
          (some 50)
          (record earned_book { representatives = representative (pos 300) ∷ [] })
        ≡ ok (some u, last))
      × (u.commission_amount ≡ pos 0 -ℤ pos 25_000))
reverse_sales_commission_offsets_example =
    reverse_sales_commission_offsets (event 70 50) (event 71 51) paid_to_staff earned_book
      (representative (pos 300) ∷ []) nothing_earned earned_recorded refl refl
