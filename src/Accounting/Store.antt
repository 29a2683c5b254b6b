-- ===== src/Accounting/Store.antt =====
-- The accounting tables (backend/src/modules/accounting/infrastructure/models.py) and the queries of
-- the repositories over them. A date is its day number, a UUID a number.
use text.Mathlib.Text.{◌==◌ as str_eq}
use alfahd_erp_system.Prelude.{
  ℕ, Bool, true, false, ◌&&◌, Option, none, some, List, [], ◌∷◌, ◌++◌, map, leb, ◌==◌,
  if◌then◌else◌, ℤ, String, find?, any, keep, Result, ok, err,
}
use alfahd_erp_system.Accounting.Entities.{Error, multiple_results, integrity_error, Status}

-- The codes that `ck_account_type_code` allows.
pub data AccountType : Type 0 where
  asset liability equity revenue expense : AccountType

pub record Account : Type 0 where
  pub id : ℕ
  pub company_id : ℕ
  pub code : String
  pub name : String
  pub name_ar : Option String
  pub account_type : AccountType
  pub parent_id : Option ℕ
  pub level : ℕ
  pub is_group : Bool
  pub is_active : Bool
  pub is_cash_equivalent : Bool
  pub deleted_at : Option ℕ

pub record Journal : Type 0 where
  pub id : ℕ
  pub company_id : ℕ
  pub code : String

pub record CostCenter : Type 0 where
  pub id : ℕ
  pub company_id : ℕ
  pub name : String
  pub is_active : Bool

pub record FiscalPeriod : Type 0 where
  pub id : ℕ
  pub company_id : ℕ
  pub period_start : ℕ
  pub period_end : ℕ
  pub is_closed : Bool

pub record JournalEntry : Type 0 where
  pub id : ℕ
  pub company_id : ℕ
  pub branch_id : Option ℕ
  pub journal_id : ℕ
  pub entry_date : ℕ
  pub reference : Option String
  pub description : Option String
  pub source_table : Option String
  pub source_id : Option ℕ
  pub status : Status
  pub reversed_entry_id : Option ℕ
  pub posted_at : Option ℕ
  pub created_by : ℕ
  pub version : ℕ

-- No modelled code reads a line's own id.
pub record JournalEntryLine : Type 0 where
  pub company_id : ℕ
  pub journal_entry_id : ℕ
  pub account_id : ℕ
  pub cost_center_id : Option ℕ
  pub debit : ℤ
  pub credit : ℤ
  pub description : Option String

pub record Books : Type 0 where
  pub accounts : List Account
  pub journals : List Journal
  pub cost_centers : List CostCenter
  pub periods : List FiscalPeriod
  pub entries : List JournalEntry
  pub lines : List JournalEntryLine

abbrev pub is_none {ℓ} : {A : Type ℓ} → Option A → Bool
is_none none = true
is_none (some _) = false

-- `scalar_one_or_none` of a query that no unique index limits to one row.
abbrev pub one_or_none : {A : Type 0} → List A → Result Error (Option A)
one_or_none [] = ok none
one_or_none (x ∷ []) = ok (some x)
one_or_none (x ∷ y ∷ xs) = err multiple_results

-- `AccountRepository.get_by_id`: deleted accounts are not found.
abbrev pub has_account_id : ℕ → Account → Bool
has_account_id i a = a.id == i && is_none a.deleted_at

unfoldable pub get_account : ℕ → Books → Option Account
get_account i b = find? (has_account_id i) b.accounts

-- `AccountRepository.get_by_code`; `ux_account_code` makes the row unique.
abbrev pub has_account_code : ℕ → String → Account → Bool
has_account_code c code a = a.company_id == c && str_eq a.code code && is_none a.deleted_at

unfoldable pub get_account_by_code : ℕ → String → Books → Option Account
get_account_by_code c code b = find? (has_account_code c code) b.accounts

-- `JournalRepository.get_by_code`; `ux_journal_code` makes the row unique.
abbrev has_journal_code : ℕ → String → Journal → Bool
has_journal_code c code j = j.company_id == c && str_eq j.code code

unfoldable pub get_journal_by_code : ℕ → String → Books → Option Journal
get_journal_by_code c code b = find? (has_journal_code c code) b.journals

-- `CostCenterRepository.get_by_id`
abbrev has_cost_center_id : ℕ → ℕ → CostCenter → Bool
has_cost_center_id c i x = x.id == i && x.company_id == c

unfoldable pub get_cost_center : ℕ → ℕ → Books → Option CostCenter
get_cost_center c i b = find? (has_cost_center_id c i) b.cost_centers

-- `FiscalPeriodRepository.find_covering`: nothing keeps periods from overlapping.
abbrev pub covers : ℕ → ℕ → FiscalPeriod → Bool
covers c d p = p.company_id == c && leb p.period_start d && leb d p.period_end

unfoldable pub find_covering : ℕ → ℕ → Books → Result Error (Option FiscalPeriod)
find_covering c d b = one_or_none (keep (covers c d) b.periods)

-- `JournalEntryRepository.get_by_id`
abbrev pub has_entry_id : ℕ → JournalEntry → Bool
has_entry_id i e = e.id == i

unfoldable pub get_entry : ℕ → Books → Option JournalEntry
get_entry i b = find? (has_entry_id i) b.entries

-- `JournalEntryRepository.get_lines`
abbrev pub of_entry : ℕ → JournalEntryLine → Bool
of_entry i l = l.journal_entry_id == i

abbrev pub lines_of : ℕ → List JournalEntryLine → List JournalEntryLine
lines_of i = keep (of_entry i)

unfoldable pub get_lines : ℕ → Books → List JournalEntryLine
get_lines i b = lines_of i b.lines

-- `JournalEntryRepository.add`: each line gets the entry's id. The primary key refuses an id in use.
abbrev pub set_entry_id : ℕ → JournalEntryLine → JournalEntryLine
set_entry_id i l = record l { journal_entry_id = i }

unfoldable pub add_entry :
    JournalEntry → List JournalEntryLine → Books → Result Error (JournalEntry × Books)
add_entry e ls b =
    if any (has_entry_id e.id) b.entries
    then err integrity_error
    else ok (e, record b { entries = e ∷ b.entries; lines = map (set_entry_id e.id) ls ++ b.lines })

-- What the unit of work writes for a changed entry: the row with its id.
abbrev pub replace_entry : JournalEntry → List JournalEntry → List JournalEntry
replace_entry e [] = []
replace_entry e (x ∷ xs) = (if x.id == e.id then e else x) ∷ replace_entry e xs

unfoldable pub save_entry : JournalEntry → Books → Books
save_entry e b = record b { entries = replace_entry e b.entries }
