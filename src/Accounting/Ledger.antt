-- ===== src/Accounting/Ledger.antt =====
-- The queries of `JournalEntryRepository` (backend/src/modules/accounting/infrastructure/repositories.py)
-- that the reports are built on. A query joins the lines to their entries, entry by entry, under its
-- `where` clause; an amount has four decimals already, so the final `quantize` changes nothing.
pub mod Sums
pub mod Effects
use alfahd_erp_system.Prelude.{
  ℕ, Bool, true, false, ◌&&◌, Option, none, some, List, [], ◌∷◌, ◌++◌, leb, ltb, ◌==◌,
  if◌then◌else◌, ℤ, pos, ◌-ℤ◌, keep, sum_of,
}
use alfahd_erp_system.Accounting.Entities.{Status, draft, posted, reversed, cancelled}
use alfahd_erp_system.Accounting.Store.{JournalEntry, JournalEntryLine, Books, lines_of}

-- `status.in_(["posted", "reversed"])`
abbrev pub in_ledger : Status → Bool
in_ledger posted = true
in_ledger reversed = true
in_ledger _ = false

-- An optional filter: `if x is not None: stmt.where(column == x)`
abbrev pub matches : Option ℕ → Option ℕ → Bool
matches none v = true
matches (some x) none = false
matches (some x) (some y) = y == x

-- The rows of lines joined to the entries that the clause `p` selects.
abbrev pub ledger_lines :
    (JournalEntry → Bool) → List JournalEntry → List JournalEntryLine → List JournalEntryLine
ledger_lines p [] ls = []
ledger_lines p (e ∷ es) ls =
    let rest = ledger_lines p es ls in (if p e then lines_of e.id ls else []) ++ rest

-- Posted entries of a company and, if given, a branch, dated before a day.
abbrev pub before : ℕ → Option ℕ → ℕ → JournalEntry → Bool
before c branch day e =
    e.company_id == c && in_ledger e.status && ltb e.entry_date day && matches branch e.branch_id

-- Posted entries dated from one day to another.
abbrev pub within : ℕ → Option ℕ → ℕ → ℕ → JournalEntry → Bool
within c branch from to e =
    e.company_id == c
    && in_ledger e.status
    && leb from e.entry_date
    && leb e.entry_date to
    && matches branch e.branch_id

abbrev pub on_account : ℕ → Option ℕ → JournalEntryLine → Bool
on_account a cost_center l = l.account_id == a && matches cost_center l.cost_center_id

abbrev pub sum_debit : List JournalEntryLine → ℤ
sum_debit = sum_of (λ l. l.debit)

abbrev pub sum_credit : List JournalEntryLine → ℤ
sum_credit = sum_of (λ l. l.credit)

unfoldable pub account_balance_by_id : ℕ → ℕ → ℕ → Option ℕ → Option ℕ → Books → ℤ
account_balance_by_id c a as_of branch cost_center b =
    let rows =
      keep (on_account a cost_center) (ledger_lines (before c branch as_of) b.entries b.lines) in
    sum_debit rows -ℤ sum_credit rows
