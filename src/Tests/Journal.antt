-- ===== src/Tests/Journal.antt =====
-- A small company's journal: one sale is drafted, posted and reversed.
use alfahd_erp_system.Prelude.{
  ◌==◌, ℕ, ◌≡◌, ◌↔◌, ◌⊎◌, refl, inl, true, false, Option, none, some, List, [], ◌∷◌, ◌++◌, map,
  arith, pos, ◌+ℤ◌, ◌-ℤ◌, sum_of, ok, String,
}
use alfahd_erp_system.Accounting.Entities.{
  posted, reversed, is_draft, is_posted, DomainLine, post_init, post_init_all, assert_balanced,
}
use alfahd_erp_system.Accounting.Store.{
  Account, AccountType, asset, revenue, FiscalPeriod, JournalEntry, JournalEntryLine, Books,
  get_account, get_journal_by_code, find_covering, get_entry, get_lines, add_entry, save_entry,
  set_entry_id,
}
use alfahd_erp_system.Accounting.Entries.{
  Draft, create_draft_entry, post_entry, reverse_entry, require_account, check_line, check_lines,
  check_cost_center, require_entry, Wording, reversal_entry, mark_posted, mark_reversed, orm_entry,
  orm_line, reversal_line, is_locked,
}
use alfahd_erp_system.Accounting.Entries.Balance.{IsConsistent}
use alfahd_erp_system.Accounting.Entries.Posting.{
  post_entry_returns, reverse_entry_in_closed_period,
}
use alfahd_erp_system.Accounting.Ledger.{account_balance_by_id}
use alfahd_erp_system.Accounting.Ledger.Effects.{
  amount_in, entry_effect, balance-post_entry, balance-reverse_entry,
}
use alfahd_erp_system.Accounting.TrialBalance.{trial_balance}
use alfahd_erp_system.Accounting.Statements.{
  income_statement, balances_by_type, balance_sheet, total_liabilities_and_equity,
}
use alfahd_erp_system.Accounting.Statements.Identity.{Reach-balance_sheet}
use alfahd_erp_system.Accounting.GeneralLedger.{general_ledger}
use alfahd_erp_system.Accounting.GeneralLedger.Closing.{general_ledger_closes}
use alfahd_erp_system.Accounting.Lifecycle.{Reach, here, next, creates, posts, reverses}
use alfahd_erp_system.Accounting.Lifecycle.Invariant.{
  Reach-IsConsistent, IsPostable, Reach-trial_balance,
}
use alfahd_erp_system.Accounting.Lifecycle.Statuses.{IsKept, Reach-posted_immutable}

abbrev account : ℕ → String → AccountType → Account
account i code kind = record {
  id = i;
  company_id = 7;
  code = code;
  name = code;
  name_ar = none;
  account_type = kind;
  parent_id = none;
  level = 1;
  is_group = false;
  is_active = true;
  is_cash_equivalent = false;
  deleted_at = none;
}

abbrev january : FiscalPeriod
january = record { id = 1; company_id = 7; period_start = 1; period_end = 31; is_closed = true }

abbrev empty_books : Books
empty_books = record {
  accounts = account 1 "1100" asset ∷ account 2 "4100" revenue ∷ [];
  journals = record { id = 5; company_id = 7; code = "GEN" } ∷ [];
  cost_centers = [];
  periods = january ∷ [];
  entries = [];
  lines = [];
}

abbrev line : ℕ → ℕ → ℕ → DomainLine
line a d k = record {
  account_id = a;
  debit = pos d;
  credit = pos k;
  cost_center_id = none;
  description = none;
}

abbrev sale : Draft
sale = record {
  company_id = 7;
  branch_id = none;
  journal_code = "GEN";
  entry_date = 40;
  reference = none;
  lines = line 1 1000 0 ∷ line 2 0 1000 ∷ [];
  created_by = 3;
  description = none;
  source_table = none;
  source_id = none;
  new_id = 11;
  checks_cost_centers = true;
}

abbrev wording : Wording
wording = record { reversal_of = λ i. "Reversal"; reversal_line = λ d. "Reversal:" }

abbrev sale_entry : JournalEntry
sale_entry = orm_entry sale 5

abbrev sale_lines : List JournalEntryLine
sale_lines = map (set_entry_id 11) (map (orm_line 7 11) sale.lines)

abbrev drafted : Books
drafted = record empty_books { entries = sale_entry ∷ []; lines = sale_lines }

abbrev posted_books : Books
posted_books = record drafted { entries = mark_posted 500 sale_entry ∷ [] }

-- The reversal is dated on day 41.
abbrev reversal : JournalEntry
reversal = reversal_entry wording (mark_posted 500 sale_entry) 12 41 501 3

abbrev reversed_books : Books
reversed_books = record posted_books {
  entries = reversal ∷ mark_reversed 12 (mark_posted 500 sale_entry) ∷ [];
  lines = map (set_entry_id 12) (map (reversal_line wording 7 12) sale_lines) ++ sale_lines;
}

create-runs : create_draft_entry sale empty_books ≡ ok (sale_entry, drafted)
unfolding create_draft_entry get_journal_by_code post_init_all post_init assert_balanced check_lines
    check_line require_account get_account check_cost_center add_entry ◌+ℤ◌
create-runs = refl

post-runs : post_entry 11 7 500 drafted ≡ ok (mark_posted 500 sale_entry, posted_books)
unfolding post_entry require_entry get_entry find_covering get_lines post_init_all post_init
    assert_balanced save_entry ◌+ℤ◌
post-runs = refl

reverse-runs : reverse_entry wording 11 7 3 12 41 501 posted_books ≡ ok (reversal, reversed_books)
unfolding reverse_entry require_entry get_entry get_lines add_entry save_entry
reverse-runs = refl

empty-IsConsistent : IsConsistent empty_books
empty-IsConsistent = record { distinct = tt; owned = tt; balanced = tt }

empty-IsPostable : IsPostable empty_books
empty-IsPostable = record { accounts_distinct = ground arith; chart = tt }

journey : Reach empty_books reversed_books
journey =
    next
      (next (next here (creates sale sale_entry create-runs))
        (posts 11 7 500 (mark_posted 500 sale_entry) post-runs))
      (reverses wording 11 7 3 12 41 501 reversal reverse-runs)

posting : Reach empty_books posted_books
posting =
    next (next here (creates sale sale_entry create-runs))
      (posts 11 7 500 (mark_posted 500 sale_entry) post-runs)

drafted-IsConsistent : IsConsistent drafted
drafted-IsConsistent =
    Reach-IsConsistent empty-IsConsistent (next here (creates sale sale_entry create-runs))

posted-IsConsistent : IsConsistent posted_books
posted-IsConsistent = Reach-IsConsistent empty-IsConsistent posting

Reach-IsConsistent_example : IsConsistent reversed_books
Reach-IsConsistent_example = Reach-IsConsistent empty-IsConsistent journey

Reach-trial_balance_example :
    let rows = trial_balance 7 1 60 none reversed_books in
    (sum_of (λ r. r.period_debit) rows ≡ sum_of (λ r. r.period_credit) rows)
    × (sum_of (λ r. r.opening_balance) rows ≡ pos 0)
    × (sum_of (λ r. r.closing_balance) rows ≡ pos 0)
Reach-trial_balance_example =
    Reach-trial_balance 7 1 60 none empty-IsConsistent empty-IsPostable journey

general_ledger_closes_example :
    (general_ledger 7 1 41 60 none none reversed_books).closing_balance
    ≡ account_balance_by_id 7 1 61 none none reversed_books
general_ledger_closes_example =
    general_ledger_closes 7 1 41 60 none none reversed_books (omega arith)

Reach-balance_sheet_example :
    let s = balance_sheet (λ i. i == 4) 7 60 none posted_books in
    s.assets_total ≡ total_liabilities_and_equity s
Reach-balance_sheet_example =
    Reach-balance_sheet (λ i. i == 4) 7 60 none empty-IsConsistent empty-IsPostable posting

-- Before the reversal the sale is an asset and earnings.
balance_sheet_run : (balance_sheet (λ i. i == 4) 7 60 none posted_books).assets_total ≡ pos 1000
unfolding balance_sheet balances_by_type income_statement ◌+ℤ◌ ◌-ℤ◌
balance_sheet_run = refl

drafted_found : get_entry 11 drafted ≡ some sale_entry
unfolding get_entry
drafted_found = refl

sale_found : get_entry 11 posted_books ≡ some (mark_posted 500 sale_entry)
unfolding get_entry
sale_found = refl

Reach-posted_immutable_example :
    (e' : JournalEntry) × (get_entry 11 reversed_books ≡ some e')
    × (get_lines 11 reversed_books ≡ get_lines 11 posted_books)
    × IsKept (mark_posted 500 sale_entry) e'
    × ((e'.status ≡ posted) ⊎ (e'.status ≡ reversed))
Reach-posted_immutable_example =
    Reach-posted_immutable posted-IsConsistent
      (next here (reverses wording 11 7 3 12 41 501 reversal reverse-runs)) 11
      (mark_posted 500 sale_entry) sale_found (inl refl)

balance-post_entry_example :
    account_balance_by_id 7 1 60 none none posted_books
    ≡ account_balance_by_id 7 1 60 none none drafted
      +ℤ amount_in 7 1 60 none none sale_entry (get_lines 11 drafted)
balance-post_entry_example =
    balance-post_entry 7 1 60 none none 11 7 500 drafted drafted-IsConsistent drafted_found
      post-runs

balance-reverse_entry_example :
    account_balance_by_id 7 1 60 none none reversed_books
    ≡ account_balance_by_id 7 1 60 none none posted_books
      -ℤ entry_effect 7 1 60 none none (mark_posted 500 sale_entry) posted_books.lines
balance-reverse_entry_example =
    balance-reverse_entry 7 1 60 none none wording 11 7 3 12 41 501 posted_books posted-IsConsistent
      sale_found (omega arith) (omega arith) reverse-runs

post_entry_returns_example : ((r : JournalEntry × Books) × (post_entry 11 7 500 drafted ≡ ok r)) ↔ (
    (e : JournalEntry) × (p : Option FiscalPeriod) × (require_entry 11 7 drafted ≡ ok e)
    × (is_draft e.status ≡ true)
    × (find_covering 7 e.entry_date drafted ≡ ok p)
    × (is_locked p ≡ false))
post_entry_returns_example = post_entry_returns 11 7 500 drafted drafted-IsConsistent

posted_required : require_entry 11 7 posted_books ≡ ok (mark_posted 500 sale_entry)
unfolding require_entry get_entry
posted_required = refl

january_covers : find_covering 7 20 posted_books ≡ ok (some january)
unfolding find_covering
january_covers = refl

reverse_entry_in_closed_period_example :
    (r : JournalEntry) × (b' : Books) × (reverse_entry wording 11 7 3 12 20 501 posted_books
      ≡ ok (r, b'))
    × (is_posted r.status ≡ true)
    × (r.entry_date ≡ 20)
    × (find_covering 7 20 b' ≡ ok (some january))
reverse_entry_in_closed_period_example =
    reverse_entry_in_closed_period wording 11 7 3 12 20 501 posted_books
      (mark_posted 500 sale_entry) january posted_required refl refl january_covers refl
