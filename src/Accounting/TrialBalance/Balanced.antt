-- ===== src/Accounting/TrialBalance/Balanced.antt =====
-- The trial balance balances.
use mathlib.Core.Path.{ap₂, subst}
use alfahd_erp_system.Prelude.{
  ℕ, ◌≡◌, refl, sym, ◌∙◌, ap, Bool, true, false, Option, List, [], ◌∷◌, ◌==◌, arith, ℤ, pos, ◌+ℤ◌,
  ◌-ℤ◌, int_laws, keep, any, All, sum_of, Bool-cases, inl, inr, zero_+ℤ,
}
use alfahd_erp_system.Accounting.Store.{Account, JournalEntry, JournalEntryLine, Books, lines_of}
use alfahd_erp_system.Accounting.Entries.Balance.{IsConsistent}
use alfahd_erp_system.Accounting.Ledger.{before, within, ledger_lines, sum_debit, sum_credit}
use alfahd_erp_system.Accounting.TrialBalance.{
  TrialBalanceRow, posted_to, trial_balance_row, trial_balance_rows, has_activity, trial_balance,
}
use alfahd_erp_system.Accounting.TrialBalance.Totals.{
  of_company, IsCharted, HasChart, ledger_lines-balanced, ledger_lines-All, group_sum,
  sum_of-group_sum,
}

pub keep-none :
    (i : ℕ) (ls : List JournalEntryLine) → any (posted_to i) ls ≡ false → keep (posted_to i) ls ≡ []
keep-none i [] h = refl
keep-none i (l ∷ ls) h = ground (arith, keep-none i ls)

pub sum-net :
    (ls : List JournalEntryLine)
    → sum_of (λ l. l.debit -ℤ l.credit) ls ≡ sum_debit ls -ℤ sum_credit ls
sum-net [] = omega int_laws
sum-net (l ∷ ls) = rw (sum-net ls) (omega int_laws)

module _ (c : ℕ) (opening period : List JournalEntryLine) where
  -- A column's total is the total over all accounts, if accounts without a row add nothing.
  rows-total :
      (g : TrialBalanceRow → ℤ) (h : Account → ℤ)
      → ((a : Account)
          → has_activity c opening period a ≡ true
          → g (trial_balance_row opening period a) ≡ h a)
      → ((a : Account) → has_activity c opening period a ≡ false → h a ≡ pos 0)
      → (as' : List Account) → sum_of g (trial_balance_rows c opening period as') ≡ sum_of h as'
  rows-total g h live dead [] = refl
  rows-total g h live dead (a ∷ as') = elim (Bool-cases (has_activity c opening period a)) [
    | inl row ↦ rw row (ap₂ ◌+ℤ◌ (live a row) (rows-total g h live dead as'))
    | inr skip ↦ rw skip (
        rows-total g h live dead as'
        ∙ sym (zero_+ℤ _)
        ∙ ap (λ (x : ℤ). x +ℤ sum_of h as') (sym (dead a skip)))
  ]

  has_activity-company :
      (a : Account) → has_activity c opening period a ≡ true → (a.company_id == c) ≡ true
  has_activity-company a h = ground arith

  idle :
      (a : Account)
      → has_activity c opening period a ≡ false
      → (a.company_id == c) ≡ true
      → (keep (posted_to a.id) opening ≡ []) × (keep (posted_to a.id) period ≡ [])
  idle a h mine = ground (arith, keep-none a.id opening, keep-none a.id period)

  idle_period :
      (f : JournalEntryLine → ℤ) (a : Account)
      → has_activity c opening period a ≡ false
      → group_sum (of_company c) f period a ≡ pos 0
  idle_period f a h = elim (Bool-cases (a.company_id == c)) [
    | inl mine ↦ rw (mine, (idle a h mine).1)
    | inr other ↦ rw other
  ]

  idle_opening :
      (f : JournalEntryLine → ℤ) (a : Account)
      → has_activity c opening period a ≡ false
      → group_sum (of_company c) f opening a ≡ pos 0
  idle_opening f a h = elim (Bool-cases (a.company_id == c)) [
    | inl mine ↦ rw (mine, (idle a h mine).0)
    | inr other ↦ rw other
  ]

  debit-total :
      (as' : List Account)
      → All (IsCharted as' c) period
      → sum_of (λ r. r.period_debit) (trial_balance_rows c opening period as') ≡ sum_debit period
  debit-total as' h =
      rows-total (λ r. r.period_debit) (group_sum (of_company c) (λ l. l.debit) period)
        (λ a row. rw (has_activity-company a row)) (idle_period (λ l. l.debit)) as'
      ∙ sum_of-group_sum (of_company c) (λ l. l.debit) period as' h

  credit-total :
      (as' : List Account)
      → All (IsCharted as' c) period
      → sum_of (λ r. r.period_credit) (trial_balance_rows c opening period as') ≡ sum_credit period
  credit-total as' h =
      rows-total (λ r. r.period_credit) (group_sum (of_company c) (λ l. l.credit) period)
        (λ a row. rw (has_activity-company a row)) (idle_period (λ l. l.credit)) as'
      ∙ sum_of-group_sum (of_company c) (λ l. l.credit) period as' h

  opening-total :
      (as' : List Account)
      → All (IsCharted as' c) opening
      → sum_of (λ r. r.opening_balance) (trial_balance_rows c opening period as')
        ≡ sum_debit opening -ℤ sum_credit opening
  opening-total as' h =
      rows-total (λ r. r.opening_balance)
        (group_sum (of_company c) (λ l. l.debit -ℤ l.credit) opening)
        (λ a row. rw (has_activity-company a row) (sym (sum-net (keep (posted_to a.id) opening))))
        (idle_opening (λ l. l.debit -ℤ l.credit)) as'
      ∙ sum_of-group_sum (of_company c) (λ l. l.debit -ℤ l.credit) opening as' h
      ∙ sum-net opening

closing-total :
    (as' : List Account) (c : ℕ) (op pe : List JournalEntryLine)
    → sum_of (λ r. r.closing_balance) (trial_balance_rows c op pe as')
      ≡ sum_of (λ r. r.opening_balance) (trial_balance_rows c op pe as')
        +ℤ sum_of (λ r. r.period_debit) (trial_balance_rows c op pe as')
        -ℤ sum_of (λ r. r.period_credit) (trial_balance_rows c op pe as')
closing-total [] c op pe = omega int_laws
closing-total (a ∷ as') c op pe = elim (Bool-cases (has_activity c op pe a)) [
  | inl row ↦ rw (row, closing-total as' c op pe) (omega int_laws)
  | inr skip ↦ rw skip (closing-total as' c op pe)
]

pub selected :
    (c : ℕ) (p : JournalEntry → Bool) (b : Books)
    → ((e : JournalEntry) → p e ≡ true → e.company_id ≡ c)
    → HasChart b
    → All (IsCharted b.accounts c) (ledger_lines p b.entries b.lines)
selected c p b own h =
    ledger_lines-All p (IsCharted b.accounts c) b.entries b.lines (go b.entries h)
  where
    go :
        (es : List JournalEntry)
        → All (λ e. All (IsCharted b.accounts e.company_id) (lines_of e.id b.lines)) es
        → All (λ e. p e ≡ true → All (IsCharted b.accounts c) (lines_of e.id b.lines)) es
    go [] h = tt
    go (e ∷ es) h = (
      λ counted.
          subst (λ (k : ℕ). All (IsCharted b.accounts k) (lines_of e.id b.lines)) (own e counted)
            h.0,
      go es h.1,
    )

before-company :
    (c : ℕ) (branch : Option ℕ) (day : ℕ) (e : JournalEntry)
    → before c branch day e ≡ true
    → e.company_id ≡ c
before-company c branch day e h = ground arith

pub within-company :
    (c : ℕ) (branch : Option ℕ) (from to : ℕ) (e : JournalEntry)
    → within c branch from to e ≡ true
    → e.company_id ≡ c
within-company c branch from to e h = ground arith

pub difference-zero : (x y : ℤ) → x ≡ y → x -ℤ y ≡ pos 0
difference-zero x y e = rw e (omega int_laws)

-- In consistent books whose lines are posted to accounts of their company, the trial balance of any
-- company, period and branch has equal debit and credit totals, and its opening and closing columns
-- each add up to zero.
pub trial_balance_balances :
    (c date_from date_to : ℕ) (branch : Option ℕ) (b : Books)
    → IsConsistent b
    → HasChart b
    → let rows = trial_balance c date_from date_to branch b in
      (sum_of (λ r. r.period_debit) rows ≡ sum_of (λ r. r.period_credit) rows)
      × (sum_of (λ r. r.opening_balance) rows ≡ pos 0)
      × (sum_of (λ r. r.closing_balance) rows ≡ pos 0)
unfolding trial_balance
trial_balance_balances c date_from date_to branch b h chart =
    let old = before c branch date_from in
    let new = within c branch date_from date_to in
    let opening = ledger_lines old b.entries b.lines in
    let period = ledger_lines new b.entries b.lines in
    let charted = selected c new b (within-company c branch date_from date_to) chart in
    let debits =
      debit-total c opening period b.accounts charted
      ∙ ledger_lines-balanced new b.entries b.lines h.balanced
      ∙ sym (credit-total c opening period b.accounts charted) in
    let openings =
      opening-total c opening period b.accounts
        (selected c old b (before-company c branch date_from) chart)
      ∙ difference-zero _ _ (ledger_lines-balanced old b.entries b.lines h.balanced) in
    (
      debits,
      openings,
      closing-total b.accounts c opening period ∙ rw (openings, debits) (omega int_laws),
    )
