-- ===== src/Accounting/Entries.antt =====
-- `JournalEntryService` of backend/src/modules/accounting/application/services.py. A method returns
-- the tables that its transaction commits; a method that raises commits nothing.
pub mod Rows
pub mod Balance
pub mod Posting
use alfahd_erp_system.Prelude.{
  ℕ, ◌+◌, Bool, true, false, ◌&&◌, Option, none, some, List, [], ◌∷◌, map, ◌==◌, not, ℤ, String,
  Result, ok, err, ◌>>=◌, ◌>>◌, raise_if, or_raise,
}
use alfahd_erp_system.Accounting.Entities.{
  Error, value_error, posted_entry_immutable, period_closed, entry_not_draft, Status, draft, posted,
  reversed, cancelled, is_draft, is_posted, DomainLine, post_init_all, assert_balanced,
}
use alfahd_erp_system.Accounting.Store.{
  Account, Journal, CostCenter, FiscalPeriod, JournalEntry, JournalEntryLine, Books, get_account,
  get_journal_by_code, get_cost_center, find_covering, get_entry, get_lines, add_entry, save_entry,
}

-- The arguments of `create_draft_entry`. `new_id` is the `uuid4()` of the entry, and
-- `checks_cost_centers` says that the service has a cost center repository.
pub record Draft : Type 0 where
  pub company_id : ℕ
  pub branch_id : Option ℕ
  pub journal_code : String
  pub entry_date : ℕ
  pub reference : Option String
  pub lines : List DomainLine
  pub created_by : ℕ
  pub description : Option String
  pub source_table : Option String
  pub source_id : Option ℕ
  pub new_id : ℕ
  pub checks_cost_centers : Bool

unfoldable pub check_cost_center : Bool → ℕ → Option ℕ → Books → Result Error (Unit {0})
check_cost_center true c (some i) b = do
  cost_center ←
      or_raise (get_cost_center c i b) (value_error "Cost center not found in this company")
  raise_if (not cost_center.is_active) (value_error "Cost center is archived and cannot be used")
  ok tt
check_cost_center _ _ _ _ = ok tt

-- `account is None or account.company_id != company_id`
unfoldable pub require_account : ℕ → ℕ → Books → Error → Result Error Account
require_account i c b e = do
  account ← or_raise (get_account i b) e
  raise_if (not (account.company_id == c)) e
  ok account

-- One round of the loop over the lines.
unfoldable pub check_line : Bool → ℕ → DomainLine → Books → Result Error (Unit {0})
check_line checks c l b = do
  account ← require_account l.account_id c b (value_error "Account not found in this company")
  raise_if account.is_group (value_error "Cannot post to a group account")
  check_cost_center checks c l.cost_center_id b

unfoldable pub check_lines : Bool → ℕ → List DomainLine → Books → Result Error (Unit {0})
check_lines checks c [] b = ok tt
check_lines checks c (l ∷ ls) b =
    let rest = check_lines checks c ls b in do check_line checks c l b; rest

abbrev pub orm_line : ℕ → ℕ → DomainLine → JournalEntryLine
orm_line c i l = record {
  company_id = c;
  journal_entry_id = i;
  account_id = l.account_id;
  cost_center_id = l.cost_center_id;
  debit = l.debit;
  credit = l.credit;
  description = l.description;
}

abbrev pub orm_entry : Draft → ℕ → JournalEntry
orm_entry d journal_id = record {
  id = d.new_id;
  company_id = d.company_id;
  branch_id = d.branch_id;
  journal_id = journal_id;
  entry_date = d.entry_date;
  reference = d.reference;
  description = d.description;
  source_table = d.source_table;
  source_id = d.source_id;
  status = draft;
  reversed_entry_id = none;
  posted_at = none;
  created_by = d.created_by;
  version = 1;
}

unfoldable pub create_draft_entry : Draft → Books → Result Error (JournalEntry × Books)
create_draft_entry d b = do
  journal ←
      or_raise (get_journal_by_code d.company_id d.journal_code b)
        (value_error "Unknown journal code")
  domain_lines ← post_init_all d.lines
  assert_balanced domain_lines
  check_lines d.checks_cost_centers d.company_id domain_lines b
  add_entry (orm_entry d journal.id) (map (orm_line d.company_id d.new_id) domain_lines) b

-- `entry is None or entry.company_id != company_id`
unfoldable pub require_entry : ℕ → ℕ → Books → Result Error JournalEntry
require_entry i c b = do
  entry ← or_raise (get_entry i b) (value_error "Journal entry not found")
  raise_if (not (entry.company_id == c)) (value_error "Journal entry not found")
  ok entry

-- `period is not None and period.is_closed`
abbrev pub is_locked : Option FiscalPeriod → Bool
is_locked none = false
is_locked (some p) = p.is_closed

-- The domain line that `post_entry` builds from a stored one.
abbrev pub domain_line : JournalEntryLine → DomainLine
domain_line l = record {
  account_id = l.account_id;
  debit = l.debit;
  credit = l.credit;
  cost_center_id = none;
  description = none;
}

abbrev pub mark_posted : ℕ → JournalEntry → JournalEntry
mark_posted now e = record e { status = posted; posted_at = some now; version = e.version + 1 }

unfoldable pub post_entry : ℕ → ℕ → ℕ → Books → Result Error (JournalEntry × Books)
post_entry entry_id company_id now b = do
  entry ← require_entry entry_id company_id b
  raise_if (not (is_draft entry.status)) posted_entry_immutable
  period ← find_covering company_id entry.entry_date b
  raise_if (is_locked period) period_closed
  domain_lines ← post_init_all (map domain_line (get_lines entry_id b))
  assert_balanced domain_lines
  ok (mark_posted now entry, save_entry (mark_posted now entry) b)

abbrev pub mark_cancelled : JournalEntry → JournalEntry
mark_cancelled e = record e { status = cancelled; version = e.version + 1 }

unfoldable pub cancel_draft_entry : ℕ → ℕ → Books → Result Error (JournalEntry × Books)
cancel_draft_entry entry_id company_id b = do
  entry ← require_entry entry_id company_id b
  raise_if (not (is_draft entry.status)) entry_not_draft
  ok (mark_cancelled entry, save_entry (mark_cancelled entry) b)

-- The text arguments of a reversal: f-strings over the original's id and descriptions, whose
-- formatting is the caller's parameter.
pub record Wording : Type 0 where
  pub reversal_of : ℕ → String
  pub reversal_line : Option String → String

abbrev pub reversal_entry : Wording → JournalEntry → ℕ → ℕ → ℕ → ℕ → JournalEntry
reversal_entry w original new_id today now created_by = record {
  id = new_id;
  company_id = original.company_id;
  branch_id = original.branch_id;
  journal_id = original.journal_id;
  entry_date = today;
  reference = some (w.reversal_of original.id);
  description = none;
  source_table = none;
  source_id = none;
  status = posted;
  reversed_entry_id = none;
  posted_at = some now;
  created_by = created_by;
  version = 1;
}

-- Debit and credit are swapped: this is what makes it a reversal.
abbrev pub reversal_line : Wording → ℕ → ℕ → JournalEntryLine → JournalEntryLine
reversal_line w c new_id l = record {
  company_id = c;
  journal_entry_id = new_id;
  account_id = l.account_id;
  cost_center_id = l.cost_center_id;
  debit = l.credit;
  credit = l.debit;
  description = some (w.reversal_line l.description);
}

abbrev pub mark_reversed : ℕ → JournalEntry → JournalEntry
mark_reversed new_id e = record e {
  status = reversed;
  reversed_entry_id = some new_id;
  version = e.version + 1;
}

unfoldable pub reverse_entry :
    Wording → ℕ → ℕ → ℕ → ℕ → ℕ → ℕ → Books → Result Error (JournalEntry × Books)
reverse_entry w entry_id company_id created_by new_id today now b = do
  original ← require_entry entry_id company_id b
  raise_if (not (is_posted original.status)) (value_error "Only a posted entry can be reversed")
  let original_lines = get_lines entry_id b
  (reversal, b') ←
      add_entry (reversal_entry w original new_id today now created_by)
        (map (reversal_line w company_id new_id) original_lines) b
  ok (reversal, save_entry (mark_reversed new_id original) b')
