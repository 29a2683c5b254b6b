-- ===== src/Accounting/GeneralLedger/Closing.antt =====
-- The general ledger closes where the next one opens.
use mathlib.Core.Path.{ap₂}
use alfahd_erp_system.Prelude.{
  ℕ, suc, ◌≤◌, ◌≡◌, refl, sym, ◌∙◌, Bool, true, false, Option, List, [], ◌∷◌, map, arith, ℤ, ◌+ℤ◌,
  ◌-ℤ◌, int_laws, +ℤ_zero, zero_+ℤ, keep, sum_of, sum_of-append, Bool-cases, inl, inr,
}
use alfahd_erp_system.Accounting.Store.{CostCenter, JournalEntry, JournalEntryLine, Books, lines_of}
use alfahd_erp_system.Accounting.Ledger.{
  before, within, on_account, ledger_lines, account_balance_by_id,
}
use alfahd_erp_system.Accounting.Ledger.Sums.{net_of, keep-net, effect, sum_of-ledger_lines}
use alfahd_erp_system.Accounting.GeneralLedger.{
  LedgerLine, ledger_line, joined_lines, general_ledger_lines, running_balances, general_ledger,
}

abbrev moved : LedgerLine → ℤ
moved l = l.debit -ℤ l.credit

running_balances-closing :
    (x : ℤ) (ls : List LedgerLine) → (running_balances x ls).1 ≡ x +ℤ sum_of moved ls
running_balances-closing x [] = omega int_laws
running_balances-closing x (l ∷ ls) =
    running_balances-closing (x +ℤ l.debit -ℤ l.credit) ls ∙ omega int_laws

moved-entry :
    (q : JournalEntryLine → Bool) (ccs : List CostCenter) (e : JournalEntry)
    (ls : List JournalEntryLine)
    → sum_of moved (map (ledger_line ccs e) (keep q ls)) ≡ sum_of (net_of q) ls
moved-entry q ccs e [] = refl
moved-entry q ccs e (l ∷ ls) = elim (Bool-cases (q l)) [
  | inl kept ↦ rw (kept, moved-entry q ccs e ls)
  | inr left ↦ rw (left, moved-entry q ccs e ls) (omega int_laws)
]

moved-joined :
    (p : JournalEntry → Bool) (q : JournalEntryLine → Bool) (ccs : List CostCenter)
    (es : List JournalEntry) (ls : List JournalEntryLine)
    → sum_of moved (joined_lines p q ccs es ls) ≡ sum_of (λ e. effect p (net_of q) e ls) es
moved-joined p q ccs [] ls = refl
moved-joined p q ccs (e ∷ es) ls = elim (Bool-cases (p e)) [
  | inl yes' ↦ rw yes' (
      sum_of-append moved (map (ledger_line ccs e) (keep q (lines_of e.id ls)))
        (joined_lines p q ccs es ls)
      ∙ ap₂ ◌+ℤ◌ (moved-entry q ccs e (lines_of e.id ls)) (moved-joined p q ccs es ls))
  | inr no' ↦ rw (no', moved-joined p q ccs es ls) (omega int_laws)
]

-- An entry before the end of the period is before its start or within it, not both.
period-split :
    (c from to : ℕ) (branch : Option ℕ) (f : JournalEntryLine → ℤ) (e : JournalEntry)
    (ls : List JournalEntryLine)
    → from ≤ suc to
    → effect (before c branch from) f e ls +ℤ effect (within c branch from to) f e ls
      ≡ effect (before c branch (suc to)) f e ls
period-split c from to branch f e ls h = elim (Bool-cases (before c branch from e)) [
  | inl old ↦
      let not_in : within c branch from to e ≡ false = ground arith in
      let by_end : before c branch (suc to) e ≡ true = ground arith in
      rw (old, not_in, by_end) (+ℤ_zero _)
  | inr not_old ↦ elim (Bool-cases (within c branch from to e)) [
    | inl new ↦
        let by_end : before c branch (suc to) e ≡ true = ground arith in
        rw (not_old, new, by_end) (zero_+ℤ _)
    | inr not_new ↦
        let after : before c branch (suc to) e ≡ false = ground arith in
        rw (not_old, not_new, after) (zero_+ℤ _)
  ]
]

period-sum :
    (c from to : ℕ) (branch : Option ℕ) (f : JournalEntryLine → ℤ) (es : List JournalEntry)
    (ls : List JournalEntryLine)
    → from ≤ suc to
    → sum_of (λ e. effect (before c branch from) f e ls) es
        +ℤ sum_of (λ e. effect (within c branch from to) f e ls) es
      ≡ sum_of (λ e. effect (before c branch (suc to)) f e ls) es
period-sum c from to branch f [] ls h = omega int_laws
period-sum c from to branch f (e ∷ es) ls h =
    rw (sym (period-split c from to branch f e ls h), sym (period-sum c from to branch f es ls h))
      (omega int_laws)

balance-sum :
    (c a day : ℕ) (branch cost_center : Option ℕ) (b : Books)
    → account_balance_by_id c a day branch cost_center b
      ≡ sum_of
          (λ e. effect (before c branch day) (net_of (on_account a cost_center)) e b.lines)
          b.entries
unfolding account_balance_by_id
balance-sum c a day branch cost_center b =
    keep-net (on_account a cost_center) (ledger_lines (before c branch day) b.entries b.lines)
    ∙ sum_of-ledger_lines (before c branch day) (net_of (on_account a cost_center)) b.entries
        b.lines

-- When a period does not end more than a day before it starts, the general ledger of an account closes
-- at the balance that the account has at the start of the day after the period.
pub general_ledger_closes :
    (c a date_from date_to : ℕ) (branch cost_center : Option ℕ) (b : Books)
    → date_from ≤ suc date_to
    → (general_ledger c a date_from date_to branch cost_center b).closing_balance
      ≡ account_balance_by_id c a (suc date_to) branch cost_center b
unfolding general_ledger general_ledger_lines
general_ledger_closes c a date_from date_to branch cost_center b h =
    let q = on_account a cost_center in
    running_balances-closing _ _
    ∙ ap₂ ◌+ℤ◌ (balance-sum c a date_from branch cost_center b)
        (moved-joined (within c branch date_from date_to) q b.cost_centers b.entries b.lines)
    ∙ period-sum c date_from date_to branch (net_of q) b.entries b.lines h
    ∙ sym (balance-sum c a (suc date_to) branch cost_center b)
