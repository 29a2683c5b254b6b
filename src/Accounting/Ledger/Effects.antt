-- ===== src/Accounting/Ledger/Effects.antt =====
-- What each journal service method does to every balance of every account.
use mathlib.Core.Path.{ap₂, subst}
use mathlib.Core.Option.{some-injective}
use alfahd_erp_system.Prelude.{
  ℕ, ◌<◌, ◌&&◌, ltb, ◌≡◌, refl, sym, ◌∙◌, ap, Bool, true, false, Option, some, List, [], ◌∷◌, ◌++◌,
  map, ◌==◌, arith, if◌then◌else◌, ℤ, pos, ◌+ℤ◌, ◌-ℤ◌, int_laws, any, find?, sum_of, Bool-cases,
  inl, inr, ok, +ℤ_comm, +ℤ_assoc, +ℤ_cancel_right, +ℤ_zero, +ℤ_swap, sub-eq_of_add-eq,
}
use alfahd_erp_system.Accounting.Entities.{is_draft, is_posted}
use alfahd_erp_system.Accounting.Store.{
  JournalEntry, JournalEntryLine, Books, has_entry_id, lines_of, set_entry_id, add_entry,
  save_entry, get_lines, get_entry,
}
use alfahd_erp_system.Accounting.Entries.{
  Draft, create_draft_entry, post_entry, cancel_draft_entry, Wording, reverse_entry, orm_entry,
  orm_line, mark_posted, mark_cancelled, mark_reversed, reversal_entry, reversal_line,
}
use alfahd_erp_system.Accounting.Entries.Balance.{
  require_entry-eq-ok, reversal_line-IsBalanced, add_entry-eq-ok, lines_of-add_self, IsConsistent,
  add_entry-IsConsistent, require_entry-HasBalance, post_entry-eq-ok, cancel_draft_entry-eq-ok,
  reverse_entry-eq-ok, create_draft_entry-eq-ok,
}
use alfahd_erp_system.Accounting.Ledger.{
  before, matches, on_account, ledger_lines, account_balance_by_id,
}
use alfahd_erp_system.Accounting.Ledger.Sums.{
  net_of, keep-net, effect, sum_of-ledger_lines, effect-add, effect-replace_entry,
}

-- A draft is in no ledger query.
before-draft :
    (c : ℕ) (branch : Option ℕ) (day : ℕ) (e : JournalEntry)
    → is_draft e.status ≡ true
    → before c branch day e ≡ false
before-draft c branch day e h = ground arith

-- A reversal is counted exactly where its original is, from a day after both dates.
reversal-before :
    (c : ℕ) (branch : Option ℕ) (day : ℕ) (w : Wording) (e : JournalEntry) (new_id today now u : ℕ)
    → is_posted e.status ≡ true
    → e.entry_date < day
    → today < day
    → before c branch day (reversal_entry w e new_id today now u) ≡ before c branch day e
reversal-before c branch day w e new_id today now u h d t = ground arith

reversed-before :
    (c : ℕ) (branch : Option ℕ) (day new_id : ℕ) (e : JournalEntry)
    → is_posted e.status ≡ true
    → before c branch day (mark_reversed new_id e) ≡ before c branch day e
reversed-before c branch day new_id e h = ground arith

find-any :
    (p : JournalEntry → Bool) (es : List JournalEntry) {e : JournalEntry}
    → find? p es ≡ some e
    → any p es ≡ true
find-any p [] h = cc
find-any p (x ∷ xs) {e} h = ground (arith, find-any p xs {e = e})

-- An entry is still found after another one was added.
pub get_entry-added :
    (e x : JournalEntry) (ls : List JournalEntryLine) (b : Books)
    → get_entry e.id b ≡ some e
    → any (has_entry_id x.id) b.entries ≡ false
    → get_entry e.id
        (record b { entries = x ∷ b.entries; lines = map (set_entry_id x.id) ls ++ b.lines })
      ≡ some e
unfolding get_entry
get_entry-added e x ls b found fresh = elim (Bool-cases (x.id == e.id)) [
  | inl same ↦
      let id : x.id ≡ e.id = ground arith in
      let used = find-any (has_entry_id e.id) b.entries found in
      let clash : false ≡ true = sym fresh ∙ rw id used in absurd (cc)
  | inr other ↦ rw other found
]

module _ (c a as_of : ℕ) (branch cost_center : Option ℕ) where
  -- What an entry, with its lines, adds to the balance.
  abbrev pub entry_effect : JournalEntry → List JournalEntryLine → ℤ
  entry_effect = effect (before c branch as_of) (net_of (on_account a cost_center))

  -- The balance is the sum of the entries' effects.
  pub account_balance_by_id-eq-sum :
      (b : Books)
      → account_balance_by_id c a as_of branch cost_center b
        ≡ sum_of (λ e. entry_effect e b.lines) b.entries
  unfolding account_balance_by_id
  account_balance_by_id-eq-sum b =
      keep-net (on_account a cost_center) (ledger_lines (before c branch as_of) b.entries b.lines)
      ∙ sum_of-ledger_lines (before c branch as_of) (net_of (on_account a cost_center)) b.entries
          b.lines

  balance-save_entry :
      (e e' : JournalEntry) (b : Books)
      → IsConsistent b
      → get_entry e'.id b ≡ some e
      → account_balance_by_id c a as_of branch cost_center (save_entry e' b)
          +ℤ entry_effect e b.lines
        ≡ account_balance_by_id c a as_of branch cost_center b +ℤ entry_effect e' b.lines
  unfolding save_entry get_entry
  balance-save_entry e e' b h found =
      rw (account_balance_by_id-eq-sum (save_entry e' b), account_balance_by_id-eq-sum b)
        (effect-replace_entry (before c branch as_of) (net_of (on_account a cost_center)) e e'
          b.entries b.lines h.distinct found)

  -- Inserting an entry adds its effect.
  balance-add_entry :
      (e : JournalEntry) (ls : List JournalEntryLine) (b : Books) {r : JournalEntry × Books}
      → IsConsistent b
      → add_entry e ls b ≡ ok r
      → account_balance_by_id c a as_of branch cost_center r.1
        ≡ account_balance_by_id c a as_of branch cost_center b
          +ℤ entry_effect e (map (set_entry_id e.id) ls ++ b.lines)
  balance-add_entry e ls b {r} h eq =
      let (fresh, done) = add_entry-eq-ok e ls b eq in
      rw (account_balance_by_id-eq-sum r.1, account_balance_by_id-eq-sum b, done)
        (rw
          (effect-add (before c branch as_of) (net_of (on_account a cost_center)) e.id ls b.lines
            b.entries fresh)
          (+ℤ_comm _ _))

  draft-effect :
      (e : JournalEntry) (ls : List JournalEntryLine)
      → is_draft e.status ≡ true
      → entry_effect e ls ≡ pos 0
  draft-effect e ls h = rw (before-draft c branch as_of e h)

  -- Saving a draft with a new status adds the effect it has then.
  balance-save_draft :
      (e e' : JournalEntry) (b : Books)
      → IsConsistent b
      → get_entry e'.id b ≡ some e
      → is_draft e.status ≡ true
      → account_balance_by_id c a as_of branch cost_center (save_entry e' b)
        ≡ account_balance_by_id c a as_of branch cost_center b +ℤ entry_effect e' b.lines
  balance-save_draft e e' b h found was =
      sym (+ℤ_zero _)
      ∙ ap (◌+ℤ◌ _) (sym (draft-effect e b.lines was))
      ∙ balance-save_entry e e' b h found

  -- Creating a draft changes no balance.
  pub balance-create_draft_entry :
      (d : Draft) (b : Books) {r : JournalEntry × Books}
      → IsConsistent b
      → create_draft_entry d b ≡ ok r
      → account_balance_by_id c a as_of branch cost_center r.1
        ≡ account_balance_by_id c a as_of branch cost_center b
  balance-create_draft_entry d b h eq =
      let (j, ls, _, _, _, added) = create_draft_entry-eq-ok d b eq in
      balance-add_entry (orm_entry d j) (map (orm_line d.company_id d.new_id) ls) b h added
      ∙ ap (◌+ℤ◌ _) (draft-effect (orm_entry d j) _ refl)
      ∙ +ℤ_zero _

  -- What the lines of an entry come to, for the company, the branch and the days before as_of.
  abbrev pub amount_in : JournalEntry → List JournalEntryLine → ℤ
  amount_in e ls =
      if e.company_id == c && ltb e.entry_date as_of && matches branch e.branch_id
      then sum_of (net_of (on_account a cost_center)) ls
      else pos 0

  posted-effect :
      (now : ℕ) (e : JournalEntry) (ls : List JournalEntryLine)
      → entry_effect (mark_posted now e) ls ≡ amount_in e (lines_of e.id ls)
  posted-effect now e ls = ground arith

  -- In consistent books, posting an entry, until then a draft, adds the debits less the credits of its
  -- lines on the account and cost centre to the account's balance when the entry is of the company and the
  -- branch and dated before the day, and nothing otherwise.
  pub balance-post_entry :
      (i co now : ℕ) (b : Books) {r : JournalEntry × Books} {e : JournalEntry}
      → IsConsistent b
      → get_entry i b ≡ some e
      → post_entry i co now b ≡ ok r
      → account_balance_by_id c a as_of branch cost_center r.1
        ≡ account_balance_by_id c a as_of branch cost_center b +ℤ amount_in e (get_lines i b)
  unfolding get_lines
  balance-post_entry i co now b {r} {e} h got eq =
      let (e₀, found, was, done) = post_entry-eq-ok i co now b eq in
      let (got₀, _) = require_entry-eq-ok i co b found in
      let (_, id) = require_entry-HasBalance i co b h found in
      let same : e₀ ≡ e = some-injective _ _ (sym got₀ ∙ got) in
      let saved = balance-save_draft e₀ (mark_posted now e₀) b h (rw id got₀) was in
      let added = posted-effect now e₀ b.lines in
      rw done (
        saved
        ∙ ap (◌+ℤ◌ _) added
        ∙ ap (◌+ℤ◌ _) (
            ap (λ (k : ℕ). amount_in e₀ (lines_of k b.lines)) id
            ∙ ap (λ (x : JournalEntry). amount_in x (lines_of i b.lines)) same))

  -- Cancelling a draft changes no balance.
  pub balance-cancel_draft_entry :
      (i co : ℕ) (b : Books) {r : JournalEntry × Books}
      → IsConsistent b
      → cancel_draft_entry i co b ≡ ok r
      → account_balance_by_id c a as_of branch cost_center r.1
        ≡ account_balance_by_id c a as_of branch cost_center b
  balance-cancel_draft_entry i co b h eq =
      let (e, found, was, done) = cancel_draft_entry-eq-ok i co b eq in
      let (got, _) = require_entry-eq-ok i co b found in
      let (_, id) = require_entry-HasBalance i co b h found in
      rw done (
        balance-save_draft e (mark_cancelled e) b h (rw id got) was
        ∙ ap (◌+ℤ◌ _) (cancelled-effect e b.lines)
        ∙ +ℤ_zero _)
    where
      cancelled-effect :
          (e : JournalEntry) (ls : List JournalEntryLine)
          → entry_effect (mark_cancelled e) ls ≡ pos 0
      cancelled-effect e ls = ground arith

  -- The swapped lines of a reversal take back what the originals added.
  net-reversal_line :
      (w : Wording) (co i j : ℕ) (ls : List JournalEntryLine)
      → sum_of
            (net_of (on_account a cost_center))
            (map (set_entry_id j) (map (reversal_line w co i) ls))
          +ℤ sum_of (net_of (on_account a cost_center)) ls
        ≡ pos 0
  net-reversal_line w co i j [] = omega int_laws
  net-reversal_line w co i j (l ∷ ls) =
      +ℤ_swap _ _ _ _
      ∙ ap₂ ◌+ℤ◌ (one (on_account a cost_center l)) (net-reversal_line w co i j ls)
      ∙ +ℤ_zero _
    where
      one :
          (t : Bool)
          → (if t then l.credit -ℤ l.debit else pos 0) +ℤ (if t then l.debit -ℤ l.credit else pos 0)
            ≡ pos 0
      one true = omega int_laws
      one false = omega int_laws

  -- Marking an entry as reversed leaves it in every ledger query.
  balance-mark_reversed :
      (new_id : ℕ) (e : JournalEntry) (b : Books)
      → IsConsistent b
      → get_entry e.id b ≡ some e
      → is_posted e.status ≡ true
      → account_balance_by_id c a as_of branch cost_center (save_entry (mark_reversed new_id e) b)
        ≡ account_balance_by_id c a as_of branch cost_center b
  balance-mark_reversed new_id e b h found was = +ℤ_cancel_right _ _ (entry_effect e b.lines) (
      balance-save_entry e (mark_reversed new_id e) b h found
      ∙ ap (◌+ℤ◌ _) (rw (reversed-before c branch as_of new_id e was)))

  -- The new entry, with its lines, against the original.
  reversal-effect :
      (w : Wording) (i co u new_id today now : ℕ) (e : JournalEntry) (b : Books)
      → IsConsistent b
      → any (has_entry_id new_id) b.entries ≡ false
      → e.id ≡ i
      → is_posted e.status ≡ true
      → e.entry_date < as_of
      → today < as_of
      → entry_effect (reversal_entry w e new_id today now u) (
            map (set_entry_id new_id) (map (reversal_line w co new_id) (lines_of i b.lines))
            ++ b.lines)
          +ℤ entry_effect e b.lines
        ≡ pos 0
  reversal-effect w i co u new_id today now e b h fresh id posted dated on =
      let rv = reversal_entry w e new_id today now u in
      let new = map (reversal_line w co new_id) (lines_of i b.lines) in
      let same : before c branch as_of rv ≡ before c branch as_of e =
        reversal-before c branch as_of w e new_id today now u posted dated on in
      elim (Bool-cases (before c branch as_of e)) [
        | inl counted ↦
            rw (same, counted, lines_of-add_self rv new b h fresh, id)
              (net-reversal_line w co new_id new_id (lines_of i b.lines))
        | inr skipped ↦ rw (same, skipped) (omega int_laws)
      ]

  -- In consistent books, reversing an entry takes what it added back from the balance of every account,
  -- seen from any day after both the entry's date and the day of the reversal.
  pub balance-reverse_entry :
      (w : Wording) (i co u new_id today now : ℕ) (b : Books) {r : JournalEntry × Books}
      {e : JournalEntry}
      → IsConsistent b
      → get_entry i b ≡ some e
      → e.entry_date < as_of
      → today < as_of
      → reverse_entry w i co u new_id today now b ≡ ok r
      → account_balance_by_id c a as_of branch cost_center r.1
        ≡ account_balance_by_id c a as_of branch cost_center b -ℤ entry_effect e b.lines
  unfolding get_lines
  balance-reverse_entry w i co u new_id today now b {r} {e} h found dated posted_on eq =
      let (e₀, p, found₀, was, added, done) = reverse_entry-eq-ok w i co u new_id today now b eq in
      let (got, _) = require_entry-eq-ok i co b found₀ in
      let same : e₀ ≡ e = some-injective _ _ (sym got ∙ found) in
      let (balanced, id₀) = require_entry-HasBalance i co b h found₀ in
      let id : e.id ≡ i = rw (← same) id₀ in
      let was' : is_posted e.status ≡ true = rw (← same) was in
      let rv = reversal_entry w e new_id today now u in
      let new = map (reversal_line w co new_id) (lines_of i b.lines) in
      let added' : add_entry rv new b ≡ ok p = rw same at added in
      let (fresh, wrote) = add_entry-eq-ok rv new b added' in
      let kept : IsConsistent p.1 =
        add_entry-IsConsistent rv new b h
          (reversal_line-IsBalanced w co new_id (lines_of i b.lines) balanced) added' in
      let found' : get_entry e.id b ≡ some e =
        subst (λ (k : ℕ). get_entry k b ≡ some e) (sym id) found in
      let there : get_entry e.id p.1 ≡ some e =
        rw wrote (get_entry-added e rv new b found' fresh) in
      rw (done, same)
        (balance-mark_reversed new_id e p.1 kept there was'
          ∙ sub-eq_of_add-eq _ _ _ (
              ap (λ (x : ℤ). x +ℤ entry_effect e b.lines) (balance-add_entry rv new b h added')
              ∙ +ℤ_assoc _ _ _
              ∙ ap (◌+ℤ◌ _)
                  (reversal-effect w i co u new_id today now e b h fresh id was' dated posted_on)
              ∙ +ℤ_zero _))
