-- ===== src/Accounting/TrialBalance/Totals.antt =====
-- The totals of the trial balance: what the rows add up to.
use mathlib.Core.Path.{ap₂}
use alfahd_erp_system.Prelude.{
  ℕ, ◌+◌, ◌≡◌, refl, sym, ◌∙◌, Bool, true, ◌&&◌, List, [], ◌∷◌, ◌==◌, arith, if◌then◌else◌, ℤ, pos,
  ◌+ℤ◌, int_laws, keep, All, All-append, sum_of, sum_of-append, Bool-cases, inl, inr, +ℤ_swap,
  +ℤ_zero, zero_+ℤ,
}
use alfahd_erp_system.Accounting.Store.{Account, JournalEntry, JournalEntryLine, Books, lines_of}
use alfahd_erp_system.Accounting.Entries.Balance.{HasBalance}
use alfahd_erp_system.Accounting.Ledger.{ledger_lines, sum_debit, sum_credit}
use alfahd_erp_system.Accounting.TrialBalance.{posted_to}

-- How many of the rows that a query reads are the account with this id.
abbrev pub owned_rows : (Account → Bool) → ℕ → List Account → ℕ
owned_rows own i [] = 0
owned_rows own i (a ∷ as') = (if own a && i == a.id then 1 else 0) + owned_rows own i as'

-- `Account.company_id == company_id`
abbrev pub of_company : ℕ → Account → Bool
of_company c a = a.company_id == c

-- How many rows of the account table are the account with this id in this company.
abbrev pub account_rows : ℕ → ℕ → List Account → ℕ
account_rows c = owned_rows (of_company c)

-- The line is posted to an account of the company, in one row.
abbrev pub IsCharted : List Account → ℕ → JournalEntryLine → Type 0
IsCharted as' c l = account_rows c l.account_id as' ≡ 1

-- Every line of every entry is posted to an account of the entry's company.
abbrev pub HasChart : Books → Type 0
HasChart b = All (λ e. All (IsCharted b.accounts e.company_id) (lines_of e.id b.lines)) b.entries

module _ (p : JournalEntry → Bool) where
  -- Balanced entries give a balanced selection, whatever the clause selects.
  pub ledger_lines-balanced :
      (es : List JournalEntry) (ls : List JournalEntryLine)
      → All (λ e. HasBalance ls e.id) es
      → sum_debit (ledger_lines p es ls) ≡ sum_credit (ledger_lines p es ls)
  ledger_lines-balanced [] ls h = refl
  ledger_lines-balanced (e ∷ es) ls h = elim (Bool-cases (p e)) [
    | inl yes' ↦ rw yes' (
        sum_of-append (λ l. l.debit) (lines_of e.id ls) (ledger_lines p es ls)
        ∙ ap₂ ◌+ℤ◌ h.0.totals (ledger_lines-balanced es ls h.1)
        ∙ sym (sum_of-append (λ l. l.credit) (lines_of e.id ls) (ledger_lines p es ls)))
    | inr no' ↦ rw no' (ledger_lines-balanced es ls h.1)
  ]

  -- A fact about the lines of the selected entries.
  pub ledger_lines-All :
      (P : JournalEntryLine → Type 0) (es : List JournalEntry) (ls : List JournalEntryLine)
      → All (λ e. p e ≡ true → All P (lines_of e.id ls)) es
      → All P (ledger_lines p es ls)
  ledger_lines-All P [] ls h = tt
  ledger_lines-All P (e ∷ es) ls h = elim (Bool-cases (p e)) [
    | inl yes' ↦ rw yes' (
        All-append P (lines_of e.id ls) (ledger_lines p es ls) (h.0 yes')
          (ledger_lines-All P es ls h.1))
    | inr no' ↦ rw no' (ledger_lines-All P es ls h.1)
  ]

module _ (own : Account → Bool) (f : JournalEntryLine → ℤ) where
  -- What the lines posted to an account add up to.
  abbrev pub group_sum : List JournalEntryLine → Account → ℤ
  group_sum ls a = if own a then sum_of f (keep (posted_to a.id) ls) else pos 0

  abbrev one_line : JournalEntryLine → Account → ℤ
  one_line l a = if own a && l.account_id == a.id then f l else pos 0

  group_sum-cons :
      (l : JournalEntryLine) (ls : List JournalEntryLine) (a : Account)
      → group_sum (l ∷ ls) a ≡ one_line l a +ℤ group_sum ls a
  group_sum-cons l ls a = elim (Bool-cases (own a)) [
    | inl mine ↦ elim (Bool-cases (l.account_id == a.id)) [
      | inl here ↦ rw (mine, here)
      | inr there ↦ rw (mine, there) (sym (zero_+ℤ _))
    ]
    | inr other ↦ rw other (omega int_laws)
  ]

  one_line-none :
      (l : JournalEntryLine) (as' : List Account)
      → owned_rows own l.account_id as' ≡ 0
      → sum_of (one_line l) as' ≡ pos 0
  one_line-none l [] h = refl
  one_line-none l (a ∷ as') h = elim (Bool-cases (own a && l.account_id == a.id)) [
    | inl here ↦ absurd (ground arith)
    | inr there ↦ rw (there, one_line-none l as' (ground arith)) (omega int_laws)
  ]

  one_line-once :
      (l : JournalEntryLine) (as' : List Account)
      → owned_rows own l.account_id as' ≡ 1
      → sum_of (one_line l) as' ≡ f l
  one_line-once l [] h = absurd (omega arith)
  one_line-once l (a ∷ as') h = elim (Bool-cases (own a && l.account_id == a.id)) [
    | inl here ↦ rw (here, one_line-none l as' (ground arith)) (+ℤ_zero _)
    | inr there ↦ rw (there, one_line-once l as' (ground arith)) (zero_+ℤ _)
  ]

  sum_of-none : (as' : List Account) → sum_of (group_sum []) as' ≡ pos 0
  sum_of-none [] = refl
  sum_of-none (a ∷ as') = elim (Bool-cases (own a)) [
    | inl mine ↦ rw (mine, sum_of-none as') (omega int_laws)
    | inr other ↦ rw (other, sum_of-none as') (omega int_laws)
  ]

  sum_of-group_sum-cons :
      (l : JournalEntryLine) (ls : List JournalEntryLine) (as' : List Account)
      → sum_of (group_sum (l ∷ ls)) as' ≡ sum_of (one_line l) as' +ℤ sum_of (group_sum ls) as'
  sum_of-group_sum-cons l ls [] = sym (+ℤ_zero _)
  sum_of-group_sum-cons l ls (a ∷ as') =
      ap₂ ◌+ℤ◌ (group_sum-cons l ls a) (sum_of-group_sum-cons l ls as') ∙ +ℤ_swap _ _ _ _

  -- Grouped by account, the lines add up to what they add up to ungrouped.
  pub sum_of-group_sum :
      (ls : List JournalEntryLine) (as' : List Account)
      → All (λ (l : JournalEntryLine). owned_rows own l.account_id as' ≡ 1) ls
      → sum_of (group_sum ls) as' ≡ sum_of f ls
  sum_of-group_sum [] as' h = sum_of-none as'
  sum_of-group_sum (l ∷ ls) as' h =
      sum_of-group_sum-cons l ls as'
      ∙ ap₂ ◌+ℤ◌ (one_line-once l as' h.0) (sum_of-group_sum ls as' h.1)
