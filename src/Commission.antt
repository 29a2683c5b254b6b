-- ===== src/Commission.antt =====
-- backend/src/modules/commission: the commission ledger, `CommissionService` of application/services.py
-- over the table and the query of infrastructure. A rate is in units of 10^-2 percent, an amount in
-- units of 10^-4.
pub mod Reversal
use text.Mathlib.Text.{◌==◌ as str_eq}
use alfahd_erp_system.Prelude.{
  ℕ, Bool, ◌&&◌, Option, none, some, List, [], ◌∷◌, ◌==◌, if◌then◌else◌, ℤ, pos, ◌*ℤ◌, ◌-ℤ◌, String,
  find?, keep, Result, ok, err, ◌>>=◌,
}
use alfahd_erp_system.Decimal.{half_even, signed}
use alfahd_erp_system.Accounting.Entities.{Error}
use alfahd_erp_system.Accounting.Store.{one_or_none}

pub record SalesRepresentative : Type 0 where
  pub id : ℕ
  pub company_id : ℕ
  pub commission_rate : Option ℤ

pub record CommissionTransaction : Type 0 where
  pub id : ℕ
  pub company_id : ℕ
  pub representative_id : ℕ
  pub commission_type : String
  pub source_table : String
  pub source_id : ℕ
  pub base_amount : ℤ
  pub commission_rate : ℤ
  pub commission_amount : ℤ
  pub transaction_date : ℕ

pub record CommissionBook : Type 0 where
  pub representatives : List SalesRepresentative
  pub transactions : List CommissionTransaction

-- `SalesRepresentativeRepository.get_by_id`
abbrev is_representative : ℕ → ℕ → SalesRepresentative → Bool
is_representative c i r = r.id == i && r.company_id == c

unfoldable pub get_representative : ℕ → ℕ → CommissionBook → Option SalesRepresentative
get_representative c i b = find? (is_representative c i) b.representatives

-- `CommissionTransactionRepository.get_by_source`: no index makes the row unique.
abbrev pub has_source : ℕ → String → ℕ → String → CommissionTransaction → Bool
has_source c table i kind t =
    t.company_id == c
    && str_eq t.source_table table
    && t.source_id == i
    && str_eq t.commission_type kind

unfoldable pub get_by_source :
    ℕ → String → ℕ → String → CommissionBook → Result Error (Option CommissionTransaction)
get_by_source c table i kind b = one_or_none (keep (has_source c table i kind) b.transactions)

-- The arguments that the three calls share. `id` is the new row's `uuid4()`.
pub record CommissionEvent : Type 0 where
  pub id : ℕ
  pub company_id : ℕ
  pub representative_id : ℕ
  pub source_id : ℕ
  pub base_amount : ℤ
  pub transaction_date : ℕ

-- `(base_amount * rate / 100).quantize(0.01)`
unfoldable pub commission_amount : ℤ → ℤ → ℤ
commission_amount base rate = signed half_even (base *ℤ rate) 1_000_000 *ℤ pos 100

abbrev pub transaction : CommissionEvent → String → String → ℤ → ℤ → CommissionTransaction
transaction e kind table base rate = record {
  id = e.id;
  company_id = e.company_id;
  representative_id = e.representative_id;
  commission_type = kind;
  source_table = table;
  source_id = e.source_id;
  base_amount = base;
  commission_rate = rate;
  commission_amount = commission_amount base rate;
  transaction_date = e.transaction_date;
}

-- `_write`
unfoldable pub write :
    CommissionEvent
    → String
    → String
    → ℤ
    → ℤ
    → CommissionBook
    → CommissionTransaction × CommissionBook
write e kind table base rate b =
    let t = transaction e kind table base rate in
    (t, record b { transactions = t ∷ b.transactions })

abbrev pub some_written :
    CommissionTransaction × CommissionBook → Option CommissionTransaction × CommissionBook
some_written (t, b) = (some t, b)

-- The rate that the representative has today, if any.
abbrev rate_of_representative : Option SalesRepresentative → Option ℤ
rate_of_representative none = none
rate_of_representative (some r) = r.commission_rate

unfoldable pub current_rate : CommissionEvent → CommissionBook → Option ℤ
current_rate e b = rate_of_representative (get_representative e.company_id e.representative_id b)

-- Nothing is written without a rate.
abbrev write_at :
    CommissionEvent
    → String
    → String
    → ℤ
    → CommissionBook
    → Option ℤ
    → Option CommissionTransaction × CommissionBook
write_at e kind table base b none = (none, b)
write_at e kind table base b (some rate) = some_written (write e kind table base rate b)

unfoldable pub record_sales_commission :
    CommissionEvent → CommissionBook → Option CommissionTransaction × CommissionBook
record_sales_commission e b = write_at e "sales" "sales_invoice" e.base_amount b (current_rate e b)

unfoldable pub record_collection_commission :
    CommissionEvent → CommissionBook → Option CommissionTransaction × CommissionBook
record_collection_commission e b =
    write_at e "collection" "payment" e.base_amount b (current_rate e b)

-- The original invoice's own rate, if it has a row.
abbrev original_rate : Option CommissionTransaction → Option ℤ
original_rate none = none
original_rate (some t) = some t.commission_rate

unfoldable pub inherited_rate :
    CommissionEvent → Option ℕ → CommissionBook → Result Error (Option ℤ)
inherited_rate e none b = ok none
inherited_rate e (some i) b = do
  t ← get_by_source e.company_id "sales_invoice" i "sales" b
  ok (original_rate t)

abbrev or_current : CommissionEvent → CommissionBook → Option ℤ → Option ℤ
or_current e b none = current_rate e b
or_current e b (some rate) = some rate

unfoldable pub reverse_sales_commission :
    CommissionEvent
    → Option ℕ
    → CommissionBook
    → Result Error (Option CommissionTransaction × CommissionBook)
reverse_sales_commission e original b = do
  rate ← inherited_rate e original b
  ok (write_at e "sales" "sales_invoice" (pos 0 -ℤ e.base_amount) b (or_current e b rate))
