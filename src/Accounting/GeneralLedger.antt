-- ===== src/Accounting/GeneralLedger.antt =====
-- `ReportingService.general_ledger` (backend/src/modules/accounting/application/services.py) over
-- `JournalEntryRepository.general_ledger_lines` (backend/src/modules/accounting/infrastructure/repositories.py).
pub mod Closing
use alfahd_erp_system.Prelude.{
  ℕ, Bool, Option, none, some, List, [], ◌∷◌, ◌++◌, map, ◌==◌, find?, if◌then◌else◌, ℤ, ◌+ℤ◌, ◌-ℤ◌,
  keep, String,
}
use alfahd_erp_system.Accounting.Entities.{Status}
use alfahd_erp_system.Accounting.Store.{CostCenter, JournalEntry, JournalEntryLine, Books, lines_of}
use alfahd_erp_system.Accounting.Ledger.{within, on_account, account_balance_by_id}

pub record LedgerLine : Type 0 where
  pub journal_entry_id : ℕ
  pub entry_date : ℕ
  pub reference : Option String
  pub status : Status
  pub debit : ℤ
  pub credit : ℤ
  pub description : Option String
  pub source_table : Option String
  pub source_id : Option ℕ
  pub cost_center_id : Option ℕ
  pub cost_center_name : Option String

abbrev name_of : Option CostCenter → Option String
name_of none = none
name_of (some x) = some x.name

-- The outer join.
abbrev cost_center_name_of : List CostCenter → Option ℕ → Option String
cost_center_name_of ccs none = none
cost_center_name_of ccs (some i) = name_of (find? (λ x. x.id == i) ccs)

abbrev pub ledger_line : List CostCenter → JournalEntry → JournalEntryLine → LedgerLine
ledger_line ccs e l = record {
  journal_entry_id = e.id;
  entry_date = e.entry_date;
  reference = e.reference;
  status = e.status;
  debit = l.debit;
  credit = l.credit;
  description = l.description;
  source_table = e.source_table;
  source_id = e.source_id;
  cost_center_id = l.cost_center_id;
  cost_center_name = cost_center_name_of ccs l.cost_center_id;
}

abbrev pub joined_lines :
    (JournalEntry → Bool)
    → (JournalEntryLine → Bool)
    → List CostCenter
    → List JournalEntry
    → List JournalEntryLine
    → List LedgerLine
joined_lines p q ccs [] ls = []
joined_lines p q ccs (e ∷ es) ls =
    let rest = joined_lines p q ccs es ls in
    (if p e then map (ledger_line ccs e) (keep q (lines_of e.id ls)) else []) ++ rest

unfoldable pub general_ledger_lines : ℕ → ℕ → ℕ → ℕ → Option ℕ → Option ℕ → Books → List LedgerLine
general_ledger_lines c account_id date_from date_to branch cost_center b =
    joined_lines (within c branch date_from date_to) (on_account account_id cost_center)
      b.cost_centers b.entries b.lines

-- The loop: each line with its running balance, and the balance at the end.
abbrev pub running_balances : ℤ → List LedgerLine → List (LedgerLine × ℤ) × ℤ
running_balances running [] = ([], running)
running_balances running (l ∷ ls) =
    let next = running +ℤ l.debit -ℤ l.credit in
    let (out_lines, closing) = running_balances next ls in ((l, next) ∷ out_lines, closing)

pub record GeneralLedger : Type 0 where
  pub opening_balance : ℤ
  pub lines : List (LedgerLine × ℤ)
  pub closing_balance : ℤ

unfoldable pub general_ledger : ℕ → ℕ → ℕ → ℕ → Option ℕ → Option ℕ → Books → GeneralLedger
general_ledger c account_id date_from date_to branch cost_center b =
    let opening = account_balance_by_id c account_id date_from branch cost_center b in
    let out =
      running_balances opening
        (general_ledger_lines c account_id date_from date_to branch cost_center b) in
    record { opening_balance = opening; lines = out.0; closing_balance = out.1 }
