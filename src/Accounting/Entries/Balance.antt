-- ===== src/Accounting/Entries/Balance.antt =====
-- Double entry: every service method keeps every entry of the journal balanced.
use alfahd_erp_system.Prelude.{
  ℕ, ◌≤◌, ◌≡◌, ◌≢◌, refl, sym, ◌∙◌, ◌==◌, find?, true, false, some, List, [], ◌∷◌, ◌++◌, map, arith,
  pos, ◌≤ℤ◌, length, keep-append, any, All, All-append, sum_of, Bool-cases, ◌⊎◌, inl, inr, ok,
  append-nil, bind-eq-ok, or_raise-eq-ok, then-eq-ok, eq_of_parts,
}
use alfahd_erp_system.Accounting.Entities.{
  value_error, DomainLine, is_draft, is_posted, post_init, post_init_all, assert_balanced,
  total_debit, total_credit,
}
use alfahd_erp_system.Accounting.Store.{
  Books, JournalEntry, JournalEntryLine, has_entry_id, of_entry, lines_of, set_entry_id, add_entry,
  save_entry, get_lines, get_entry, get_journal_by_code,
}
use alfahd_erp_system.Accounting.Entries.{
  mark_posted, mark_cancelled, mark_reversed, reversal_entry, Draft, orm_line, orm_entry,
  create_draft_entry, post_entry, cancel_draft_entry, Wording, reversal_line, reverse_entry,
  require_entry, check_lines,
}
use alfahd_erp_system.Accounting.Entries.Rows.{
  IsBalanced, IsOneSided, HasEntry, IsDistinct, line_debit, line_credit, lines_of-set_self,
  lines_of-set_ne, lines_of-fresh, fresh-ne, All-replace_entry, IsDistinct-replace_entry,
  HasEntry-replace_entry, HasEntry-cons, HasEntry-set_entry_id, IsBalanced-set_entry_id,
}

abbrev pub HasBalance : List JournalEntryLine → ℕ → Type 0
HasBalance ls i = IsBalanced (lines_of i ls)

-- The journal: ids are distinct, every line has its entry, and every entry is balanced.
pub record IsConsistent (b : Books) : Type 0 where
  pub distinct : IsDistinct b.entries
  pub owned : All (HasEntry b.entries) b.lines
  pub balanced : All (λ e. HasBalance b.lines e.id) b.entries

pub lines_of-add_self :
    (e : JournalEntry) (ls : List JournalEntryLine) (b : Books)
    → IsConsistent b
    → any (has_entry_id e.id) b.entries ≡ false
    → lines_of e.id (map (set_entry_id e.id) ls ++ b.lines) ≡ map (set_entry_id e.id) ls
lines_of-add_self e ls b h f =
    keep-append (of_entry e.id) (map (set_entry_id e.id) ls) b.lines
    ∙ rw (lines_of-set_self e.id ls, lines_of-fresh e.id b.entries b.lines h.owned f) (append-nil _)

pub lines_of-add_ne :
    (i j : ℕ) (ls old : List JournalEntryLine)
    → j ≢ i
    → lines_of j (map (set_entry_id i) ls ++ old) ≡ lines_of j old
lines_of-add_ne i j ls old h =
    keep-append (of_entry j) (map (set_entry_id i) ls) old ∙ rw (lines_of-set_ne i j ls h)

HasBalance-add :
    (i : ℕ) (ls old : List JournalEntryLine) (es : List JournalEntry)
    → any (has_entry_id i) es ≡ false
    → All (λ e. HasBalance old e.id) es
    → All (λ e. HasBalance (map (set_entry_id i) ls ++ old) e.id) es
HasBalance-add i ls old [] f h = tt
HasBalance-add i ls old (e ∷ es) f h =
    let (ne, f') = fresh-ne i e es f in
    (rw (lines_of-add_ne i e.id ls old ne) h.0, HasBalance-add i ls old es f' h.1)

-- What `add_entry` wrote.
pub add_entry-eq-ok :
    (e : JournalEntry) (ls : List JournalEntryLine) (b : Books) {r : JournalEntry × Books}
    → add_entry e ls b ≡ ok r
    → (any (has_entry_id e.id) b.entries ≡ false)
      × (r ≡ (
        e,
        record b { entries = e ∷ b.entries; lines = map (set_entry_id e.id) ls ++ b.lines },
      ))
unfolding add_entry
add_entry-eq-ok e ls b eq = ground arith

-- Inserting a balanced entry keeps the journal consistent.
pub add_entry-IsConsistent :
    (e : JournalEntry) (ls : List JournalEntryLine) (b : Books) {r : JournalEntry × Books}
    → IsConsistent b
    → IsBalanced ls
    → add_entry e ls b ≡ ok r
    → IsConsistent r.1
add_entry-IsConsistent e ls b h bal eq =
    let (fresh, done) = add_entry-eq-ok e ls b eq in
    rw done (record {
      distinct = (fresh, h.distinct);
      owned =
          All-append (HasEntry (e ∷ b.entries)) (map (set_entry_id e.id) ls) b.lines
            (HasEntry-set_entry_id e b.entries ls) (HasEntry-cons e b.entries b.lines h.owned);
      balanced = (
        rw (lines_of-add_self e ls b h fresh) (IsBalanced-set_entry_id e.id ls bal),
        HasBalance-add e.id ls b.lines b.entries fresh h.balanced,
      );
    })

-- Saving a changed entry touches no line.
pub save_entry-IsConsistent :
    (e : JournalEntry) (b : Books) → IsConsistent b → IsConsistent (save_entry e b)
unfolding save_entry
save_entry-IsConsistent e b h = record {
  distinct = IsDistinct-replace_entry e b.entries h.distinct;
  owned = HasEntry-replace_entry e b.entries b.lines h.owned;
  balanced = All-replace_entry (HasBalance b.lines) e b.entries h.balanced;
}

abbrev OneSidedLine : DomainLine → Type 0
OneSidedLine l =
    (pos 0 ≤ℤ l.debit) × (pos 0 ≤ℤ l.credit) × ((l.debit ≤ℤ pos 0) ⊎ (l.credit ≤ℤ pos 0))

-- `__post_init__` returns the line itself, if it is one-sided.
post_init_lem : (l : DomainLine) {l' : DomainLine} → post_init l ≡ ok l' → (l' ≡ l) × OneSidedLine l
unfolding post_init
post_init_lem l h = ground arith

pub post_init_all_lem :
    (ls : List DomainLine) {ls' : List DomainLine}
    → post_init_all ls ≡ ok ls'
    → (ls' ≡ ls) × All OneSidedLine ls
unfolding post_init_all
post_init_all_lem [] h = ground arith
post_init_all_lem (l ∷ ls) {ls'} h =
    let (l₁, e₁, h₁) = bind-eq-ok (post_init l) _ h in
    let (ls₁, e₂, h₂) = bind-eq-ok (post_init_all ls) _ h₁ in
    let (same, one) = post_init_lem l e₁ in
    let (sames, ones) = post_init_all_lem ls e₂ in (ground arith, (one, ones))

assert_balanced_lem :
    (ls : List DomainLine)
    → assert_balanced ls ≡ ok tt
    → (2 ≤ length ls) × (total_debit ls ≡ total_credit ls)
unfolding assert_balanced
assert_balanced_lem ls h = (ground arith, eq_of_parts _ _ (ground arith))

module _ (c i : ℕ) where
  orm_line-debit :
      (ls : List DomainLine) → sum_of line_debit (map (orm_line c i) ls) ≡ total_debit ls
  orm_line-debit [] = refl
  orm_line-debit (l ∷ ls) = rw (orm_line-debit ls)

  orm_line-credit :
      (ls : List DomainLine) → sum_of line_credit (map (orm_line c i) ls) ≡ total_credit ls
  orm_line-credit [] = refl
  orm_line-credit (l ∷ ls) = rw (orm_line-credit ls)

  orm_line-length : (ls : List DomainLine) → length (map (orm_line c i) ls) ≡ length ls
  orm_line-length [] = refl
  orm_line-length (l ∷ ls) = rw (orm_line-length ls)

  orm_line-IsOneSided :
      (ls : List DomainLine) → All OneSidedLine ls → All IsOneSided (map (orm_line c i) ls)
  orm_line-IsOneSided [] h = tt
  orm_line-IsOneSided (l ∷ ls) h = (h.0, orm_line-IsOneSided ls h.1)

  -- The stored lines of a checked draft are balanced.
  orm_line-IsBalanced :
      (ls : List DomainLine) {ls' : List DomainLine}
      → post_init_all ls ≡ ok ls'
      → assert_balanced ls' ≡ ok tt
      → IsBalanced (map (orm_line c i) ls')
  orm_line-IsBalanced ls {ls'} p a =
      let (same, ones) = post_init_all_lem ls p in
      let (long, totals) = assert_balanced_lem ls' a in
      record {
        two_lines = rw (orm_line-length ls') long;
        totals = rw (orm_line-debit ls', orm_line-credit ls') totals;
        one_sided = orm_line-IsOneSided ls' (rw same ones);
      }

-- What each method wrote, if it returned.
pub create_draft_entry-eq-ok :
    (d : Draft) (b : Books) {r : JournalEntry × Books}
    → create_draft_entry d b ≡ ok r
    → (j : ℕ) × (ls : List DomainLine) × (post_init_all d.lines ≡ ok ls)
      × (assert_balanced ls ≡ ok tt)
      × (check_lines d.checks_cost_centers d.company_id ls b ≡ ok tt)
      × (add_entry (orm_entry d j) (map (orm_line d.company_id d.new_id) ls) b ≡ ok r)
unfolding create_draft_entry
create_draft_entry-eq-ok d b eq =
    let (j, _, h₁) =
      or_raise-eq-ok (get_journal_by_code d.company_id d.journal_code b)
        (value_error "Unknown journal code") _ eq in
    let (ls, p, h₂) = bind-eq-ok (post_init_all d.lines) _ h₁ in
    let (a, h₃) = then-eq-ok (assert_balanced ls) _ h₂ in
    let (k, h₄) = then-eq-ok (check_lines d.checks_cost_centers d.company_id ls b) _ h₃ in
    (j.id, ls, p, a, k, h₄)

pub post_entry-eq-ok :
    (i c now : ℕ) (b : Books) {r : JournalEntry × Books}
    → post_entry i c now b ≡ ok r
    → (e : JournalEntry) × (require_entry i c b ≡ ok e)
      × (is_draft e.status ≡ true)
      × (r ≡ (mark_posted now e, save_entry (mark_posted now e) b))
unfolding post_entry
post_entry-eq-ok i c now b eq = ground arith

pub cancel_draft_entry-eq-ok :
    (i c : ℕ) (b : Books) {r : JournalEntry × Books}
    → cancel_draft_entry i c b ≡ ok r
    → (e : JournalEntry) × (require_entry i c b ≡ ok e)
      × (is_draft e.status ≡ true)
      × (r ≡ (mark_cancelled e, save_entry (mark_cancelled e) b))
unfolding cancel_draft_entry
cancel_draft_entry-eq-ok i c b eq = ground arith

pub reverse_entry-eq-ok :
    (w : Wording) (i c u new_id today now : ℕ) (b : Books) {r : JournalEntry × Books}
    → reverse_entry w i c u new_id today now b ≡ ok r
    → (e : JournalEntry) × (p : JournalEntry × Books) × (require_entry i c b ≡ ok e)
      × (is_posted e.status ≡ true)
      × (add_entry
            (reversal_entry w e new_id today now u)
            (map (reversal_line w c new_id) (get_lines i b))
            b
          ≡ ok p)
      × (r ≡ (p.0, save_entry (mark_reversed new_id e) p.1))
unfolding reverse_entry
reverse_entry-eq-ok w i c u new_id today now b eq = ground arith

pub create_draft_entry-IsConsistent :
    (d : Draft) (b : Books) {r : JournalEntry × Books}
    → IsConsistent b
    → create_draft_entry d b ≡ ok r
    → IsConsistent r.1
create_draft_entry-IsConsistent d b h eq =
    let (j, ls, p, a, _, added) = create_draft_entry-eq-ok d b eq in
    add_entry-IsConsistent (orm_entry d j) (map (orm_line d.company_id d.new_id) ls) b h
      (orm_line-IsBalanced d.company_id d.new_id d.lines p a) added

pub post_entry-IsConsistent :
    (i c now : ℕ) (b : Books) {r : JournalEntry × Books}
    → IsConsistent b
    → post_entry i c now b ≡ ok r
    → IsConsistent r.1
post_entry-IsConsistent i c now b h eq =
    let (e, _, _, done) = post_entry-eq-ok i c now b eq in
    rw done (save_entry-IsConsistent (mark_posted now e) b h)

pub cancel_draft_entry-IsConsistent :
    (i c : ℕ) (b : Books) {r : JournalEntry × Books}
    → IsConsistent b
    → cancel_draft_entry i c b ≡ ok r
    → IsConsistent r.1
cancel_draft_entry-IsConsistent i c b h eq =
    let (e, _, _, done) = cancel_draft_entry-eq-ok i c b eq in
    rw done (save_entry-IsConsistent (mark_cancelled e) b h)

-- The lines of an entry that is found are balanced.
find-All :
    (P : ℕ → Type 0) (i : ℕ) (es : List JournalEntry) {e : JournalEntry}
    → All (λ x. P x.id) es
    → find? (has_entry_id i) es ≡ some e
    → P i × (e.id ≡ i)
find-All P i [] h f = cc
find-All P i (x ∷ xs) {e} h f = elim (Bool-cases (x.id == i)) [
  | inl same ↦ let here : x.id ≡ i = ground arith in (rw here at h.0, ground arith)
  | inr other ↦ find-All P i xs {e = e} h.1 (ground arith)
]

pub require_entry-eq-ok :
    (i c : ℕ) (b : Books) {e : JournalEntry}
    → require_entry i c b ≡ ok e
    → (get_entry i b ≡ some e) × (e.company_id ≡ c)
unfolding require_entry
require_entry-eq-ok i c b eq = ground arith

pub require_entry-HasBalance :
    (i c : ℕ) (b : Books) {e : JournalEntry}
    → IsConsistent b
    → require_entry i c b ≡ ok e
    → HasBalance b.lines i × (e.id ≡ i)
unfolding require_entry get_entry
require_entry-HasBalance i c b {e} h eq =
    find-All (HasBalance b.lines) i b.entries {e = e} h.balanced (ground arith)

module _ (w : Wording) (c i : ℕ) where
  reversal_line-debit :
      (ls : List JournalEntryLine)
      → sum_of line_debit (map (reversal_line w c i) ls) ≡ sum_of line_credit ls
  reversal_line-debit [] = refl
  reversal_line-debit (l ∷ ls) = rw (reversal_line-debit ls)

  reversal_line-credit :
      (ls : List JournalEntryLine)
      → sum_of line_credit (map (reversal_line w c i) ls) ≡ sum_of line_debit ls
  reversal_line-credit [] = refl
  reversal_line-credit (l ∷ ls) = rw (reversal_line-credit ls)

  reversal_line-length :
      (ls : List JournalEntryLine) → length (map (reversal_line w c i) ls) ≡ length ls
  reversal_line-length [] = refl
  reversal_line-length (l ∷ ls) = rw (reversal_line-length ls)

  reversal_line-IsOneSided :
      (ls : List JournalEntryLine)
      → All IsOneSided ls
      → All IsOneSided (map (reversal_line w c i) ls)
  reversal_line-IsOneSided [] h = tt
  reversal_line-IsOneSided (l ∷ ls) h =
      ((h.0.1, h.0.0, swap h.0.2), reversal_line-IsOneSided ls h.1)
    where
      swap : (l.debit ≤ℤ pos 0) ⊎ (l.credit ≤ℤ pos 0) → (l.credit ≤ℤ pos 0) ⊎ (l.debit ≤ℤ pos 0)
      swap (inl d) = inr d
      swap (inr k) = inl k

  pub reversal_line-IsBalanced :
      (ls : List JournalEntryLine) → IsBalanced ls → IsBalanced (map (reversal_line w c i) ls)
  reversal_line-IsBalanced ls h = record {
    two_lines = rw (reversal_line-length ls) h.two_lines;
    totals = rw (reversal_line-debit ls, reversal_line-credit ls) (sym h.totals);
    one_sided = reversal_line-IsOneSided ls h.one_sided;
  }

pub reverse_entry-IsConsistent :
    (w : Wording) (i c u new_id today now : ℕ) (b : Books) {r : JournalEntry × Books}
    → IsConsistent b
    → reverse_entry w i c u new_id today now b ≡ ok r
    → IsConsistent r.1
unfolding get_lines
reverse_entry-IsConsistent w i c u new_id today now b h eq =
    let (e, p, found, _, added, done) = reverse_entry-eq-ok w i c u new_id today now b eq in
    let (balanced, _) = require_entry-HasBalance i c b h found in
    let ls = map (reversal_line w c new_id) (get_lines i b) in
    rw done (
      save_entry-IsConsistent (mark_reversed new_id e) p.1 (
        add_entry-IsConsistent (reversal_entry w e new_id today now u) ls b h
          (reversal_line-IsBalanced w c new_id (get_lines i b) balanced) added))
