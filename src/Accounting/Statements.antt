-- ===== src/Accounting/Statements.antt =====
-- The income statement and the balance sheet: `JournalEntryRepository.balances_by_type`
-- (backend/src/modules/accounting/infrastructure/repositories.py) and `ReportingService`
-- (backend/src/modules/accounting/application/services.py), without a detail level. Dates are days since
-- 1 January 1900, the inception of the balance sheet. `cogs` is the test for membership in the set that
-- `_cogs_account_ids` returns. Rows stand in the order of the account table.
pub mod Identity
use alfahd_erp_system.Prelude.{
  ℕ, Bool, true, false, ◌&&◌, Option, none, List, [], ◌∷◌, ◌++◌, if◌then◌else◌, ℤ, pos, ◌+ℤ◌, ◌-ℤ◌,
  keep, any, String,
}
use alfahd_erp_system.Accounting.Store.{
  Account, AccountType, asset, liability, equity, revenue, expense, JournalEntryLine, Books,
}
use alfahd_erp_system.Accounting.Ledger.{within, matches, ledger_lines, sum_debit, sum_credit}
use alfahd_erp_system.Accounting.TrialBalance.{posted_to}

pub record TypeBalance : Type 0 where
  pub account_id : ℕ
  pub account_code : String
  pub account_name : String
  pub parent_id : Option ℕ
  pub level : ℕ
  pub type_code : AccountType
  pub total_debit : ℤ
  pub total_credit : ℤ

-- `AccountType.code.in_(["revenue", "expense"])`
abbrev pub of_income : AccountType → Bool
of_income revenue = true
of_income expense = true
of_income _ = false

-- `AccountType.code.in_(["asset", "liability", "equity"])`
abbrev pub of_position : AccountType → Bool
of_position asset = true
of_position liability = true
of_position equity = true
of_position _ = false

abbrev pub type_balance : List JournalEntryLine → Account → TypeBalance
type_balance ls a =
    let rows = keep (posted_to a.id) ls in
    record {
      account_id = a.id;
      account_code = a.code;
      account_name = a.name;
      parent_id = a.parent_id;
      level = a.level;
      type_code = a.account_type;
      total_debit = sum_debit rows;
      total_credit = sum_credit rows;
    }

abbrev pub type_balances :
    (AccountType → Bool) → List JournalEntryLine → List Account → List TypeBalance
type_balances codes ls [] = []
type_balances codes ls (a ∷ as') =
    let rest = type_balances codes ls as' in
    if codes a.account_type && any (posted_to a.id) ls then type_balance ls a ∷ rest else rest

abbrev pub statement_lines : ℕ → ℕ → ℕ → Option ℕ → Option ℕ → Books → List JournalEntryLine
statement_lines c date_from date_to branch cost_center b =
    keep (λ (l : JournalEntryLine). matches cost_center l.cost_center_id)
      (ledger_lines (within c branch date_from date_to) b.entries b.lines)

unfoldable pub balances_by_type :
    ℕ → ℕ → ℕ → (AccountType → Bool) → Option ℕ → Option ℕ → Books → List TypeBalance
balances_by_type c date_from date_to codes branch cost_center b =
    type_balances codes (statement_lines c date_from date_to branch cost_center b) b.accounts

pub record IncomeStatement : Type 0 where
  pub revenue_accounts : List (TypeBalance × ℤ)
  pub revenue_total : ℤ
  pub cogs_accounts : List (TypeBalance × ℤ)
  pub cogs_total : ℤ
  pub opex_accounts : List (TypeBalance × ℤ)
  pub opex_total : ℤ

abbrev pub no_income : IncomeStatement
no_income = record {
  revenue_accounts = [];
  revenue_total = pos 0;
  cogs_accounts = [];
  cogs_total = pos 0;
  opex_accounts = [];
  opex_total = pos 0;
}

abbrev earn : TypeBalance → ℤ → IncomeStatement → IncomeStatement
earn row amount s = record s {
  revenue_accounts = s.revenue_accounts ++ (row, amount) ∷ [];
  revenue_total = s.revenue_total +ℤ amount;
}

abbrev spend : (ℕ → Bool) → TypeBalance → ℤ → IncomeStatement → IncomeStatement
spend cogs row amount s =
    if cogs row.account_id
    then record s {
      cogs_accounts = s.cogs_accounts ++ (row, amount) ∷ [];
      cogs_total = s.cogs_total +ℤ amount;
    }
    else record s {
      opex_accounts = s.opex_accounts ++ (row, amount) ∷ [];
      opex_total = s.opex_total +ℤ amount;
    }

abbrev pub is_revenue : AccountType → Bool
is_revenue revenue = true
is_revenue _ = false

-- The body of the loop.
abbrev pub add_income : (ℕ → Bool) → TypeBalance → IncomeStatement → IncomeStatement
add_income cogs row s =
    if is_revenue row.type_code
    then earn row (row.total_credit -ℤ row.total_debit) s
    else spend cogs row (row.total_debit -ℤ row.total_credit) s

abbrev pub income_loop : (ℕ → Bool) → List TypeBalance → IncomeStatement → IncomeStatement
income_loop cogs [] s = s
income_loop cogs (row ∷ rows) s = income_loop cogs rows (add_income cogs row s)

unfoldable pub income_statement :
    (ℕ → Bool) → ℕ → ℕ → ℕ → Option ℕ → Option ℕ → Books → IncomeStatement
income_statement cogs c date_from date_to branch cost_center b =
    income_loop cogs (balances_by_type c date_from date_to of_income branch cost_center b) no_income

abbrev pub gross_profit : IncomeStatement → ℤ
gross_profit s = s.revenue_total -ℤ s.cogs_total

-- `operating_income`, which is also reported as `net_income`.
abbrev pub net_income : IncomeStatement → ℤ
net_income s = gross_profit s -ℤ s.opex_total

pub record BalanceSheet : Type 0 where
  pub assets : List (TypeBalance × ℤ)
  pub assets_total : ℤ
  pub liabilities : List (TypeBalance × ℤ)
  pub liabilities_total : ℤ
  pub equity_accounts : List (TypeBalance × ℤ)
  pub equity_total : ℤ

abbrev pub no_position : BalanceSheet
no_position = record {
  assets = [];
  assets_total = pos 0;
  liabilities = [];
  liabilities_total = pos 0;
  equity_accounts = [];
  equity_total = pos 0;
}

abbrev pub place : AccountType → TypeBalance → BalanceSheet → BalanceSheet
place asset row s =
    let amount : ℤ = row.total_debit -ℤ row.total_credit in
    record s { assets = s.assets ++ (row, amount) ∷ []; assets_total = s.assets_total +ℤ amount }
place liability row s =
    let amount : ℤ = row.total_credit -ℤ row.total_debit in
    record s {
      liabilities = s.liabilities ++ (row, amount) ∷ [];
      liabilities_total = s.liabilities_total +ℤ amount;
    }
place _ row s =
    let amount : ℤ = row.total_credit -ℤ row.total_debit in
    record s {
      equity_accounts = s.equity_accounts ++ (row, amount) ∷ [];
      equity_total = s.equity_total +ℤ amount;
    }

abbrev pub position_loop : List TypeBalance → BalanceSheet → BalanceSheet
position_loop [] s = s
position_loop (row ∷ rows) s = position_loop rows (place row.type_code row s)

abbrev pub inception : ℕ
inception = 0

-- The current earnings join the equity.
unfoldable pub balance_sheet : (ℕ → Bool) → ℕ → ℕ → Option ℕ → Books → BalanceSheet
balance_sheet cogs c as_of_date branch b =
    let s =
      position_loop (balances_by_type c inception as_of_date of_position branch none b)
        no_position in
    let current_earnings =
      net_income (income_statement cogs c inception as_of_date branch none b) in
    record s { equity_total = s.equity_total +ℤ current_earnings }

abbrev pub total_liabilities_and_equity : BalanceSheet → ℤ
total_liabilities_and_equity s = s.liabilities_total +ℤ s.equity_total
