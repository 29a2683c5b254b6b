-- ===== src/Accounting/Lifecycle/Invariant.antt =====
-- What every sequence of calls keeps: consistent books, charted lines and a trial balance that balances.
use alfahd_erp_system.Prelude.{
  ℕ, ◌≡◌, refl, sym, ap, Bool, false, Option, some, List, [], ◌∷◌, ◌++◌, map, ◌==◌, arith, pos, any,
  find?, All, sum_of, Bool-cases, inl, inr, ok, then-eq-ok,
}
use alfahd_erp_system.Accounting.Entities.{DomainLine}
use alfahd_erp_system.Accounting.Store.{
  Account, JournalEntry, JournalEntryLine, Books, has_account_id, get_account, get_entry,
  has_entry_id, lines_of, set_entry_id, add_entry, replace_entry, save_entry, get_lines,
}
use alfahd_erp_system.Accounting.Entries.{
  Wording, reverse_entry, orm_entry, orm_line, check_line, check_lines, mark_posted, mark_cancelled,
  mark_reversed, reversal_entry, reversal_line, require_account,
}
use alfahd_erp_system.Accounting.Entries.Rows.{IsDistinct, fresh-ne, replace_entry-fresh}
use alfahd_erp_system.Accounting.Entries.Balance.{
  IsConsistent, create_draft_entry-IsConsistent, post_entry-IsConsistent,
  cancel_draft_entry-IsConsistent, reverse_entry-IsConsistent, create_draft_entry-eq-ok,
  post_entry-eq-ok, cancel_draft_entry-eq-ok, reverse_entry-eq-ok, add_entry-eq-ok,
  lines_of-add_self, lines_of-add_ne, require_entry-eq-ok, require_entry-HasBalance,
  add_entry-IsConsistent, reversal_line-IsBalanced,
}
use alfahd_erp_system.Accounting.Ledger.Effects.{get_entry-added}
use alfahd_erp_system.Accounting.TrialBalance.{trial_balance}
use alfahd_erp_system.Accounting.TrialBalance.Balanced.{trial_balance_balances}
use mathlib.Core.Path.{subst}
use alfahd_erp_system.Accounting.TrialBalance.Totals.{account_rows, IsCharted, HasChart}
use alfahd_erp_system.Accounting.Lifecycle.{
  Step, creates, posts, cancels, reverses, Reach, here, next,
}

pub Step-IsConsistent : {b b' : Books} → Step b b' → IsConsistent b → IsConsistent b'
Step-IsConsistent {b} (creates d e eq) h = create_draft_entry-IsConsistent d b h eq
Step-IsConsistent {b} (posts i c now e eq) h = post_entry-IsConsistent i c now b h eq
Step-IsConsistent {b} (cancels i c e eq) h = cancel_draft_entry-IsConsistent i c b h eq
Step-IsConsistent {b} (reverses w i c u new_id today now e eq) h =
    reverse_entry-IsConsistent w i c u new_id today now b h eq

-- From consistent books, every sequence of committed calls leaves every entry with at least two
-- one-sided lines and equal debit and credit totals.
pub Reach-IsConsistent : {b b' : Books} → IsConsistent b → Reach b b' → IsConsistent b'
Reach-IsConsistent h here = h
Reach-IsConsistent h (next r s) = Step-IsConsistent s (Reach-IsConsistent h r)

abbrev pub IsDistinctAccounts : List Account → Type 0
IsDistinctAccounts [] = Unit
IsDistinctAccounts (a ∷ as') = (any (λ x. x.id == a.id) as' ≡ false) × IsDistinctAccounts as'

-- The account table has distinct ids, and every line is posted to an account of its entry's company.
pub record IsPostable (b : Books) : Type 0 where
  pub accounts_distinct : IsDistinctAccounts b.accounts
  pub chart : HasChart b

account_rows-none :
    (c i : ℕ) (as' : List Account) → any (λ x. x.id == i) as' ≡ false → account_rows c i as' ≡ 0
account_rows-none c i [] h = refl
account_rows-none c i (a ∷ as') h = ground (arith, account_rows-none c i as')

account_rows-once :
    (c i : ℕ) (as' : List Account) {a : Account}
    → IsDistinctAccounts as'
    → find? (has_account_id i) as' ≡ some a
    → a.company_id ≡ c
    → account_rows c i as' ≡ 1
account_rows-once c i [] d f own = cc
account_rows-once c i (x ∷ xs) {a} d f own = elim (Bool-cases (has_account_id i x)) [
  | inl this ↦
      let same : x ≡ a = ground arith in
      let id : x.id ≡ i = ground arith in
      let mine : x.company_id ≡ c = ground arith in
      let rest : account_rows c i xs ≡ 0 = account_rows-none c i xs (rw id at d.0) in ground arith
  | inr other ↦
      let rest : account_rows c i xs ≡ 1 =
        account_rows-once c i xs {a = a} d.1 (ground arith) own in
      elim (Bool-cases (x.id == i)) [
        | inl deleted ↦
            let id : x.id ≡ i = ground arith in
            let gone : account_rows c i xs ≡ 0 = account_rows-none c i xs (rw id at d.0) in
            absurd (omega arith)
        | inr elsewhere ↦ ground arith
      ]
]

check_line_charted :
    (checks : Bool) (c : ℕ) (l : DomainLine) (b : Books)
    → IsDistinctAccounts b.accounts
    → check_line checks c l b ≡ ok tt
    → account_rows c l.account_id b.accounts ≡ 1
unfolding check_line require_account get_account
check_line_charted checks c l b d eq =
    let (a, found, own) = the_account in
    account_rows-once c l.account_id b.accounts {a = a} d found own
  where
    the_account :
        (a : Account) × (find? (has_account_id l.account_id) b.accounts ≡ some a)
        × (a.company_id ≡ c)
    the_account = ground arith

check_lines-IsCharted :
    (checks : Bool) (c i : ℕ) (ls : List DomainLine) (b : Books)
    → IsDistinctAccounts b.accounts
    → check_lines checks c ls b ≡ ok tt
    → All (IsCharted b.accounts c) (map (set_entry_id i) (map (orm_line c i) ls))
unfolding check_lines
check_lines-IsCharted checks c i [] b d eq = tt
check_lines-IsCharted checks c i (l ∷ ls) b d eq =
    let (this, rest) = then-eq-ok (check_line checks c l b) (check_lines checks c ls b) eq in
    (check_line_charted checks c l b d this, check_lines-IsCharted checks c i ls b d rest)

HasChart-old :
    (i : ℕ) (as' : List Account) (new old : List JournalEntryLine) (es : List JournalEntry)
    → any (has_entry_id i) es ≡ false
    → All (λ e. All (IsCharted as' e.company_id) (lines_of e.id old)) es
    → All
        (λ e. All (IsCharted as' e.company_id) (lines_of e.id (map (set_entry_id i) new ++ old)))
        es
HasChart-old i as' new old [] fresh h = tt
HasChart-old i as' new old (e ∷ es) fresh h =
    let (ne, fresh') = fresh-ne i e es fresh in
    (rw (lines_of-add_ne i e.id new old ne) h.0, HasChart-old i as' new old es fresh' h.1)

add_entry-IsPostable :
    (e : JournalEntry) (ls : List JournalEntryLine) (b : Books) {r : JournalEntry × Books}
    → IsConsistent b
    → IsPostable b
    → All (IsCharted b.accounts e.company_id) (map (set_entry_id e.id) ls)
    → add_entry e ls b ≡ ok r
    → IsPostable r.1
add_entry-IsPostable e ls b h k charted eq =
    let (fresh, done) = add_entry-eq-ok e ls b eq in
    rw done (record {
      accounts_distinct = k.accounts_distinct;
      chart = (
        rw (lines_of-add_self e ls b h fresh) charted,
        HasChart-old e.id b.accounts ls b.lines b.entries fresh k.chart,
      );
    })

HasChart-replace_entry :
    (as' : List Account) (ls : List JournalEntryLine) (e e' : JournalEntry) (es : List JournalEntry)
    → find? (has_entry_id e'.id) es ≡ some e
    → e'.company_id ≡ e.company_id
    → IsDistinct es
    → All (λ x. All (IsCharted as' x.company_id) (lines_of x.id ls)) es
    → All (λ x. All (IsCharted as' x.company_id) (lines_of x.id ls)) (replace_entry e' es)
HasChart-replace_entry as' ls e e' [] f own d h = cc
HasChart-replace_entry as' ls e e' (x ∷ xs) f own d h = elim (Bool-cases (x.id == e'.id)) [
  | inl same ↦
      let this : x ≡ e = ground arith in
      let id : x.id ≡ e'.id = ground arith in
      let mine : x.company_id ≡ e'.company_id = ground arith in
      let absent : any (has_entry_id e'.id) xs ≡ false = rw id at d.0 in
      rw (same, replace_entry-fresh e' xs absent) (rw (id, mine) at h.0, h.1)
  | inr other ↦ rw other (h.0, HasChart-replace_entry as' ls e e' xs (rw other at f) own d.1 h.1)
]

save_entry-IsPostable :
    (e e' : JournalEntry) (b : Books)
    → IsConsistent b
    → IsPostable b
    → get_entry e'.id b ≡ some e
    → e'.company_id ≡ e.company_id
    → IsPostable (save_entry e' b)
unfolding save_entry get_entry
save_entry-IsPostable e e' b h k found own = record {
  accounts_distinct = k.accounts_distinct;
  chart = HasChart-replace_entry b.accounts b.lines e e' b.entries found own h.distinct k.chart;
}

chart-found :
    (as' : List Account) (ls : List JournalEntryLine) (i : ℕ) (es : List JournalEntry)
    {e : JournalEntry}
    → find? (has_entry_id i) es ≡ some e
    → All (λ x. All (IsCharted as' x.company_id) (lines_of x.id ls)) es
    → All (IsCharted as' e.company_id) (lines_of i ls)
chart-found as' ls i [] f h = cc
chart-found as' ls i (x ∷ xs) {e} f h = elim (Bool-cases (x.id == i)) [
  | inl same ↦
      let this : x ≡ e = ground arith in
      let id : x.id ≡ i = ground arith in
      let mine : x.company_id ≡ e.company_id = ground arith in rw (id, mine) at h.0
  | inr other ↦ chart-found as' ls i xs {e = e} (rw other at f) h.1
]

reversal_line-IsCharted :
    (as' : List Account) (w : Wording) (co i c : ℕ) (ls : List JournalEntryLine)
    → All (IsCharted as' c) ls
    → All (IsCharted as' c) (map (set_entry_id i) (map (reversal_line w co i) ls))
reversal_line-IsCharted as' w co i c [] h = tt
reversal_line-IsCharted as' w co i c (l ∷ ls) h = (h.0, reversal_line-IsCharted as' w co i c ls h.1)

reverse_entry-IsPostable :
    (w : Wording) (i c u new_id today now : ℕ) (b : Books) {r : JournalEntry × Books}
    → IsConsistent b
    → IsPostable b
    → reverse_entry w i c u new_id today now b ≡ ok r
    → IsPostable r.1
unfolding get_lines get_entry
reverse_entry-IsPostable w i c u new_id today now b h k eq =
    let (e, p, found, _, added, done) = reverse_entry-eq-ok w i c u new_id today now b eq in
    let (got, _) = require_entry-eq-ok i c b found in
    let (balanced, id) = require_entry-HasBalance i c b h found in
    let rv = reversal_entry w e new_id today now u in
    let new = map (reversal_line w c new_id) (lines_of i b.lines) in
    let (fresh, wrote) = add_entry-eq-ok rv new b added in
    let kept : IsConsistent p.1 =
      add_entry-IsConsistent rv new b h
        (reversal_line-IsBalanced w c new_id (lines_of i b.lines) balanced) added in
    let charted =
      reversal_line-IsCharted b.accounts w c new_id e.company_id (lines_of i b.lines)
        (chart-found b.accounts b.lines i b.entries {e = e} got k.chart) in
    let there : get_entry e.id p.1 ≡ some e =
      rw wrote (get_entry-added e rv new b (rw id got) fresh) in
    rw done (
      save_entry-IsPostable e (mark_reversed new_id e) p.1 kept
        (add_entry-IsPostable rv new b h k charted added) there refl)

pub Step-IsPostable : {b b' : Books} → Step b b' → IsConsistent b → IsPostable b → IsPostable b'
Step-IsPostable {b} (creates d e eq) h k =
    let (j, ls, _, _, checked, added) = create_draft_entry-eq-ok d b eq in
    add_entry-IsPostable (orm_entry d j) (map (orm_line d.company_id d.new_id) ls) b h k
      (check_lines-IsCharted d.checks_cost_centers d.company_id d.new_id ls b k.accounts_distinct
        checked)
      added
Step-IsPostable {b} (posts i c now e eq) h k =
    let (x, found, _, done) = post_entry-eq-ok i c now b eq in
    let (got, _) = require_entry-eq-ok i c b found in
    let (_, id) = require_entry-HasBalance i c b h found in
    subst (λ (s : Books). IsPostable s) (sym (ap (λ (q : JournalEntry × Books). q.1) done))
      (save_entry-IsPostable x (mark_posted now x) b h k (rw id got) refl)
Step-IsPostable {b} (cancels i c e eq) h k =
    let (x, found, _, done) = cancel_draft_entry-eq-ok i c b eq in
    let (got, _) = require_entry-eq-ok i c b found in
    let (_, id) = require_entry-HasBalance i c b h found in
    subst (λ (s : Books). IsPostable s) (sym (ap (λ (q : JournalEntry × Books). q.1) done))
      (save_entry-IsPostable x (mark_cancelled x) b h k (rw id got) refl)
Step-IsPostable {b} (reverses w i c u new_id today now e eq) h k =
    reverse_entry-IsPostable w i c u new_id today now b h k eq

pub Reach-IsPostable : {b b' : Books} → IsConsistent b → IsPostable b → Reach b b' → IsPostable b'
Reach-IsPostable h k here = k
Reach-IsPostable h k (next r s) =
    Step-IsPostable s (Reach-IsConsistent h r) (Reach-IsPostable h k r)

-- After any sequence of committed calls, from consistent books with distinct accounts and charted
-- lines, the trial balance of every company, period and branch balances: equal period debits and
-- credits, and opening and closing columns that add up to zero.
pub Reach-trial_balance :
    {b b' : Books} (c date_from date_to : ℕ) (branch : Option ℕ)
    → IsConsistent b
    → IsPostable b
    → Reach b b'
    → let rows = trial_balance c date_from date_to branch b' in
      (sum_of (λ r. r.period_debit) rows ≡ sum_of (λ r. r.period_credit) rows)
      × (sum_of (λ r. r.opening_balance) rows ≡ pos 0)
      × (sum_of (λ r. r.closing_balance) rows ≡ pos 0)
Reach-trial_balance {b} {b'} c date_from date_to branch h k r =
    let posted' : IsPostable b' = Reach-IsPostable h k r in
    trial_balance_balances c date_from date_to branch b' (Reach-IsConsistent h r) posted'.chart
