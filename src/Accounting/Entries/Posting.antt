-- ===== src/Accounting/Entries/Posting.antt =====
-- When `post_entry` and `reverse_entry` return, and what they return.
use alfahd_erp_system.Prelude.{
  ℕ, ◌≤◌, ◌≡◌, ◌↔◌, refl, true, false, Option, some, List, [], ◌∷◌, ◌++◌, map, arith, any, sum_of,
  length, All, ok, err,
}
use alfahd_erp_system.Accounting.Entities.{
  posted_entry_immutable, period_closed, is_draft, is_posted, DomainLine, post_init, post_init_all,
  assert_balanced, total_debit, total_credit,
}
use alfahd_erp_system.Accounting.Store.{
  JournalEntry, JournalEntryLine, Books, FiscalPeriod, has_entry_id, find_covering, get_lines,
  lines_of, set_entry_id, add_entry, save_entry,
}
use alfahd_erp_system.Accounting.Entries.{
  post_entry, Wording, reverse_entry, domain_line, is_locked, mark_posted, reversal_entry,
  reversal_line, mark_reversed, require_entry,
}
use alfahd_erp_system.Accounting.Entries.Rows.{IsBalanced, IsOneSided, line_debit, line_credit}
use alfahd_erp_system.Accounting.Entries.Balance.{IsConsistent, require_entry-HasBalance}

-- Stored lines pass the domain's checks again.
post_init-stored :
    (l : JournalEntryLine) → IsOneSided l → post_init (domain_line l) ≡ ok (domain_line l)
unfolding post_init
post_init-stored l h = ground arith

post_init_all-stored :
    (ls : List JournalEntryLine)
    → All IsOneSided ls
    → post_init_all (map domain_line ls) ≡ ok (map domain_line ls)
unfolding post_init_all
post_init_all-stored [] h = refl
post_init_all-stored (l ∷ ls) h = rw (post_init-stored l h.0, post_init_all-stored ls h.1)

stored-debit :
    (ls : List JournalEntryLine) → total_debit (map domain_line ls) ≡ sum_of line_debit ls
stored-debit [] = refl
stored-debit (l ∷ ls) = rw (stored-debit ls)

stored-credit :
    (ls : List JournalEntryLine) → total_credit (map domain_line ls) ≡ sum_of line_credit ls
stored-credit [] = refl
stored-credit (l ∷ ls) = rw (stored-credit ls)

stored-length : (ls : List JournalEntryLine) → length (map domain_line ls) ≡ length ls
stored-length [] = refl
stored-length (l ∷ ls) = rw (stored-length ls)

assert_balanced-passes :
    (ls : List DomainLine)
    → 2 ≤ length ls
    → total_debit ls ≡ total_credit ls
    → assert_balanced ls ≡ ok tt
unfolding assert_balanced
assert_balanced-passes ls long same = rw same (ground arith)

assert_balanced-stored :
    (ls : List JournalEntryLine) → IsBalanced ls → assert_balanced (map domain_line ls) ≡ ok tt
assert_balanced-stored ls h =
    assert_balanced-passes (map domain_line ls) (rw (stored-length ls) h.two_lines)
      (rw (stored-debit ls, stored-credit ls) h.totals)

-- Posting an entry that is found depends on its status and its period alone.
post_entry-found :
    (i c now : ℕ) (b : Books) (e : JournalEntry)
    → IsConsistent b
    → require_entry i c b ≡ ok e
    → is_draft e.status ≡ true
    → (p : Option FiscalPeriod) → find_covering c e.entry_date b ≡ ok p
    → is_locked p ≡ false
    → post_entry i c now b ≡ ok (mark_posted now e, save_entry (mark_posted now e) b)
unfolding post_entry get_lines
post_entry-found i c now b e h found was p covered free =
    let (balanced, _) = require_entry-HasBalance i c b h found in
    rw (
      found,
      was,
      covered,
      free,
      post_init_all-stored (lines_of i b.lines) balanced.one_sided,
      assert_balanced-stored (lines_of i b.lines) balanced,
    )

-- In consistent books, `post_entry` returns exactly when the entry is found in the company and is a
-- draft, and at most one fiscal period covers its date and that one is not closed.
pub post_entry_returns :
    (i c now : ℕ) (b : Books)
    → IsConsistent b
    → ((r : JournalEntry × Books) × (post_entry i c now b ≡ ok r)) ↔ (
        (e : JournalEntry) × (p : Option FiscalPeriod) × (require_entry i c b ≡ ok e)
        × (is_draft e.status ≡ true)
        × (find_covering c e.entry_date b ≡ ok p)
        × (is_locked p ≡ false))
unfolding post_entry
post_entry_returns i c now b h = (
  λ r. conditions r.0 r.1,
  λ s. (
    (mark_posted now s.0, save_entry (mark_posted now s.0) b),
    post_entry-found i c now b s.0 h s.2 s.3 s.1 s.4 s.5,
  ),
)
  where
    conditions :
        (r : JournalEntry × Books)
        → post_entry i c now b ≡ ok r
        → (e : JournalEntry) × (p : Option FiscalPeriod) × (require_entry i c b ≡ ok e)
          × (is_draft e.status ≡ true)
          × (find_covering c e.entry_date b ≡ ok p)
          × (is_locked p ≡ false)
    conditions r eq = ground arith

-- A draft whose date lies in a closed period is refused, and one that is not a draft any more too.
pub post_entry_refused :
    (i c now : ℕ) (b : Books) (e : JournalEntry)
    → require_entry i c b ≡ ok e
    → (is_draft e.status ≡ false → post_entry i c now b ≡ err posted_entry_immutable)
      × ((p : FiscalPeriod)
          → is_draft e.status ≡ true
          → find_covering c e.entry_date b ≡ ok (some p)
          → p.is_closed ≡ true
          → post_entry i c now b ≡ err period_closed)
unfolding post_entry
post_entry_refused i c now b e found =
    (λ n. rw (found, n), λ p was covered closed. rw (found, was, covered) (rw closed))

added_entry : (e : JournalEntry) (ls : List JournalEntryLine) (b : Books) → Books
added_entry e ls b = record b {
  entries = e ∷ b.entries;
  lines = map (set_entry_id e.id) ls ++ b.lines;
}

-- A posted entry of the company can be reversed under a fresh id although a closed period covers the
-- day: the call returns a posted entry dated on that day, and the period is still closed.
pub reverse_entry_in_closed_period :
    (w : Wording) (i c u new_id today now : ℕ) (b : Books) (e : JournalEntry) (p : FiscalPeriod)
    → require_entry i c b ≡ ok e
    → is_posted e.status ≡ true
    → any (has_entry_id new_id) b.entries ≡ false
    → find_covering c today b ≡ ok (some p)
    → p.is_closed ≡ true
    → (r : JournalEntry) × (b' : Books) × (reverse_entry w i c u new_id today now b ≡ ok (r, b'))
      × (is_posted r.status ≡ true)
      × (r.entry_date ≡ today)
      × (find_covering c today b' ≡ ok (some p))
unfolding reverse_entry add_entry added_entry find_covering save_entry
reverse_entry_in_closed_period w i c u new_id today now b e p found was fresh covered closed =
    let rv = reversal_entry w e new_id today now u in
    (
      rv,
      save_entry (mark_reversed new_id e)
          (added_entry rv (map (reversal_line w c new_id) (get_lines i b)) b),
      rw (found, was, fresh),
      refl,
      refl,
      covered,
    )
