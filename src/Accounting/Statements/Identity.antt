-- ===== src/Accounting/Statements/Identity.antt =====
-- Assets are liabilities and equity.
use alfahd_erp_system.Prelude.{
  ℕ, ◌≤◌, ◌≡◌, refl, sym, ◌∙◌, ap, Bool, true, false, not, Option, none, List, [], ◌∷◌, ◌==◌, arith,
  ℤ, pos, ◌+ℤ◌, ◌-ℤ◌, int_laws, eq-parts, keep, any, All, sum_of, Bool-cases, inl, inr,
}
use alfahd_erp_system.Accounting.Store.{
  Account, AccountType, asset, liability, equity, revenue, expense, JournalEntryLine, Books,
}
use alfahd_erp_system.Accounting.Entries.Balance.{IsConsistent}
use alfahd_erp_system.Accounting.Ledger.{within, ledger_lines}
use alfahd_erp_system.Accounting.TrialBalance.{posted_to}
use alfahd_erp_system.Accounting.TrialBalance.Totals.{
  owned_rows, account_rows, IsCharted, ledger_lines-balanced, group_sum, sum_of-group_sum,
}
use alfahd_erp_system.Accounting.TrialBalance.Balanced.{
  keep-none, sum-net, selected, within-company, difference-zero,
}
use alfahd_erp_system.Accounting.Lifecycle.{Reach}
use alfahd_erp_system.Accounting.Lifecycle.Invariant.{
  Reach-IsConsistent, IsPostable, Reach-IsPostable, IsDistinctAccounts,
}
use alfahd_erp_system.Accounting.Statements.{
  TypeBalance, of_income, of_position, type_balances, statement_lines, balances_by_type,
  IncomeStatement, add_income, income_loop, no_income, income_statement, net_income, BalanceSheet,
  place, no_position, inception, is_revenue, position_loop, balance_sheet,
  total_liabilities_and_equity,
}

-- The whole account table.
abbrev every : Account → Bool
every a = true

owned_rows-none :
    (i : ℕ) (as' : List Account) → any (λ x. x.id == i) as' ≡ false → owned_rows every i as' ≡ 0
owned_rows-none i [] h = refl
owned_rows-none i (a ∷ as') h = ground (arith, owned_rows-none i as')

owned_rows-most : (i : ℕ) (as' : List Account) → IsDistinctAccounts as' → owned_rows every i as' ≤ 1
owned_rows-most i [] d = omega arith
owned_rows-most i (a ∷ as') d = elim (Bool-cases (i == a.id)) [
  | inl this ↦
      let id : i ≡ a.id = ground arith in
      let rest : owned_rows every i as' ≡ 0 = owned_rows-none i as' (rw id d.0) in ground arith
  | inr other ↦ let rest = owned_rows-most i as' d.1 in ground arith
]

owned_rows-least : (c i : ℕ) (as' : List Account) → account_rows c i as' ≤ owned_rows every i as'
owned_rows-least c i [] = omega arith
owned_rows-least c i (a ∷ as') = let rest = owned_rows-least c i as' in ground arith

owned_rows-once :
    (c i : ℕ) (as' : List Account)
    → IsDistinctAccounts as'
    → account_rows c i as' ≡ 1
    → owned_rows every i as' ≡ 1
owned_rows-once c i as' d h =
    let most = owned_rows-most i as' d in let least = owned_rows-least c i as' in omega arith

lines-once :
    (c : ℕ) (as' : List Account) (ls : List JournalEntryLine)
    → IsDistinctAccounts as'
    → All (IsCharted as' c) ls
    → All (λ (l : JournalEntryLine). owned_rows every l.account_id as' ≡ 1) ls
lines-once c as' [] d h = tt
lines-once c as' (l ∷ ls) d h =
    (owned_rows-once c l.account_id as' d h.0, lines-once c as' ls d h.1)

keep-all : (ls : List JournalEntryLine) → keep (λ (l : JournalEntryLine). true) ls ≡ ls
keep-all [] = refl
keep-all (l ∷ ls) = ap (λ (x : List JournalEntryLine). l ∷ x) (keep-all ls)

-- The debit balance of a row.
abbrev row_net : TypeBalance → ℤ
row_net r = r.total_debit -ℤ r.total_credit

abbrev line_net : JournalEntryLine → ℤ
line_net l = l.debit -ℤ l.credit

of_income-of_position : (t : AccountType) → of_income t ≡ not (of_position t)
of_income-of_position asset = refl
of_income-of_position liability = refl
of_income-of_position equity = refl
of_income-of_position revenue = refl
of_income-of_position expense = refl

-- The two statements share the accounts out between them.
both-net :
    (ls : List JournalEntryLine) (as' : List Account)
    → sum_of row_net (type_balances of_position ls as')
        +ℤ sum_of row_net (type_balances of_income ls as')
      ≡ sum_of (group_sum every line_net ls) as'
both-net ls [] = omega int_laws
both-net ls (a ∷ as') =
    let rest = both-net ls as' in
    let net = sum-net (keep (posted_to a.id) ls) in
    let other_one = of_income-of_position a.account_type in
    elim (Bool-cases (any (posted_to a.id) ls)) [
      | inr idle ↦
          let nothing = keep-none a.id ls idle in
          elim (Bool-cases (of_position a.account_type)) [
            | inl p ↦ rw (other_one, p, idle, nothing, sym rest) (omega int_laws)
            | inr p ↦ rw (other_one, p, idle, nothing, sym rest) (omega int_laws)
          ]
      | inl active ↦ elim (Bool-cases (of_position a.account_type)) [
        | inl p ↦ rw (other_one, p, active, net, sym rest) (omega int_laws)
        | inr p ↦ rw (other_one, p, active, net, sym rest) (omega int_laws)
      ]
    ]

add_income-net :
    (cogs : ℕ → Bool) (row : TypeBalance) (s : IncomeStatement)
    → net_income (add_income cogs row s) ≡ net_income s -ℤ row_net row
add_income-net cogs row s = elim (Bool-cases (is_revenue row.type_code)) [
  | inl r ↦ rw r (omega int_laws)
  | inr r ↦ elim (Bool-cases (cogs row.account_id)) [
    | inl k ↦ rw (r, k) (omega int_laws)
    | inr k ↦ rw (r, k) (omega int_laws)
  ]
]

-- The loops keep the difference of what they add up.
income_loop-net :
    (cogs : ℕ → Bool) (rows : List TypeBalance) (s : IncomeStatement)
    → net_income (income_loop cogs rows s) ≡ net_income s -ℤ sum_of row_net rows
income_loop-net cogs [] s = omega int_laws
income_loop-net cogs (row ∷ rows) s =
    income_loop-net cogs rows (add_income cogs row s)
    ∙ rw (add_income-net cogs row s) (omega int_laws)

-- By how much the assets exceed the other side.
abbrev excess : BalanceSheet → ℤ
excess s = s.assets_total -ℤ total_liabilities_and_equity s

place-excess :
    (t : AccountType) (row : TypeBalance) (s : BalanceSheet)
    → excess (place t row s) ≡ excess s +ℤ row_net row
place-excess asset row s = omega int_laws
place-excess liability row s = omega int_laws
place-excess equity row s = omega int_laws
place-excess revenue row s = omega int_laws
place-excess expense row s = omega int_laws

position_loop-net :
    (rows : List TypeBalance) (s : BalanceSheet)
    → excess (position_loop rows s) ≡ excess s +ℤ sum_of row_net rows
position_loop-net [] s = omega int_laws
position_loop-net (row ∷ rows) s =
    position_loop-net rows (place row.type_code row s)
    ∙ rw (place-excess row.type_code row s) (omega int_laws)

lines-net :
    (c as_of : ℕ) (branch : Option ℕ) (b : Books)
    → IsConsistent b
    → IsPostable b
    → sum_of (group_sum every line_net (statement_lines c inception as_of branch none b)) b.accounts
      ≡ pos 0
lines-net c as_of branch b h k =
    let p = within c branch inception as_of in
    let ls = ledger_lines p b.entries b.lines in
    let once =
      lines-once c b.accounts ls k.accounts_distinct
        (selected c p b (within-company c branch inception as_of) k.chart) in
    rw (keep-all ls) (
      sum_of-group_sum every line_net ls b.accounts once
      ∙ sum-net ls
      ∙ difference-zero _ _ (ledger_lines-balanced p b.entries b.lines h.balanced))

sides :
    (a l e n x y : ℤ)
    → a -ℤ (l +ℤ e) ≡ pos 0 -ℤ (pos 0 +ℤ pos 0) +ℤ x
    → n ≡ pos 0 -ℤ pos 0 -ℤ pos 0 -ℤ y
    → x +ℤ y ≡ pos 0
    → a ≡ l +ℤ (e +ℤ n)
sides a l e n x y h i j = omega (int_laws, eq-parts h, eq-parts i, eq-parts j)

-- In consistent books with distinct accounts and charted lines, the balance sheet of every company, day
-- and branch has its assets equal to its liabilities and equity.
balance_sheet_balances :
    (cogs : ℕ → Bool) (c as_of : ℕ) (branch : Option ℕ) (b : Books)
    → IsConsistent b
    → IsPostable b
    → let s = balance_sheet cogs c as_of branch b in s.assets_total ≡ total_liabilities_and_equity s
unfolding balance_sheet income_statement balances_by_type
balance_sheet_balances cogs c as_of branch b h k =
    let ls = statement_lines c inception as_of branch none b in
    let position = position_loop-net (type_balances of_position ls b.accounts) no_position in
    let income = income_loop-net cogs (type_balances of_income ls b.accounts) no_income in
    let both = both-net ls b.accounts ∙ lines-net c as_of branch b h k in
    sides _ _ _ _ _ _ position income both

-- After any sequence of committed calls, from consistent books with distinct accounts and charted
-- lines, the assets of every balance sheet, of any company, branch and day, are equal to its liabilities
-- and equity, whichever accounts count as cost of goods sold.
pub Reach-balance_sheet :
    {b b' : Books} (cogs : ℕ → Bool) (c as_of : ℕ) (branch : Option ℕ)
    → IsConsistent b
    → IsPostable b
    → Reach b b'
    → let s = balance_sheet cogs c as_of branch b' in
      s.assets_total ≡ total_liabilities_and_equity s
Reach-balance_sheet {b} {b'} cogs c as_of branch h k r =
    balance_sheet_balances cogs c as_of branch b' (Reach-IsConsistent h r) (Reach-IsPostable h k r)
