-- ===== src/Accounting/TrialBalance.antt =====
-- `JournalEntryRepository.trial_balance` (backend/src/modules/accounting/infrastructure/repositories.py):
-- a row for each account of the company with activity before or in the period. The rows stand in the
-- order of the account table; the query sorts them by code.
pub mod Totals
pub mod Balanced
use alfahd_erp_system.Prelude.{
  ℕ, Bool, ◌&&◌, ◌||◌, Option, List, [], ◌∷◌, ◌==◌, if◌then◌else◌, ℤ, pos, ◌+ℤ◌, ◌-ℤ◌, keep, any,
  String,
}
use alfahd_erp_system.Accounting.Store.{Account, AccountType, JournalEntryLine, Books}
use alfahd_erp_system.Accounting.Ledger.{before, within, ledger_lines, sum_debit, sum_credit}

pub record TrialBalanceRow : Type 0 where
  pub account_id : ℕ
  pub account_code : String
  pub account_name : String
  pub parent_id : Option ℕ
  pub level : ℕ
  pub account_type : AccountType
  pub opening_balance : ℤ
  pub period_debit : ℤ
  pub period_credit : ℤ
  pub closing_balance : ℤ
  pub total_debit : ℤ
  pub total_credit : ℤ

-- The group of an account, `GROUP BY account_id`.
abbrev pub posted_to : ℕ → JournalEntryLine → Bool
posted_to a l = l.account_id == a

abbrev pub trial_balance_row :
    List JournalEntryLine → List JournalEntryLine → Account → TrialBalanceRow
trial_balance_row opening period a =
    let old = keep (posted_to a.id) opening in
    let new = keep (posted_to a.id) period in
    let opening_balance : ℤ = sum_debit old -ℤ sum_credit old in
    record {
      account_id = a.id;
      account_code = a.code;
      account_name = a.name;
      parent_id = a.parent_id;
      level = a.level;
      account_type = a.account_type;
      opening_balance = opening_balance;
      period_debit = sum_debit new;
      period_credit = sum_credit new;
      closing_balance = opening_balance +ℤ sum_debit new -ℤ sum_credit new;
      total_debit = sum_debit new;
      total_credit = sum_credit new;
    }

-- An account of the company that has activity.
abbrev pub has_activity : ℕ → List JournalEntryLine → List JournalEntryLine → Account → Bool
has_activity c opening period a =
    a.company_id == c && (any (posted_to a.id) opening || any (posted_to a.id) period)

abbrev pub trial_balance_rows :
    ℕ → List JournalEntryLine → List JournalEntryLine → List Account → List TrialBalanceRow
trial_balance_rows c opening period [] = []
trial_balance_rows c opening period (a ∷ as') =
    let rest = trial_balance_rows c opening period as' in
    if has_activity c opening period a then trial_balance_row opening period a ∷ rest else rest

unfoldable pub trial_balance : ℕ → ℕ → ℕ → Option ℕ → Books → List TrialBalanceRow
trial_balance c date_from date_to branch b =
    trial_balance_rows c (ledger_lines (before c branch date_from) b.entries b.lines)
      (ledger_lines (within c branch date_from date_to) b.entries b.lines) b.accounts
