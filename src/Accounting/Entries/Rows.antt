-- ===== src/Accounting/Entries/Rows.antt =====
-- Rows of the two journal tables under `add_entry` and `save_entry`, and what a balanced set of lines is.
use alfahd_erp_system.Prelude.{
  ℕ, ◌≤◌, ◌≡◌, ◌≢◌, ◌⊎◌, inl, inr, refl, ◌∙◌, true, false, List, [], ◌∷◌, map, ◌==◌, arith, ℤ, pos,
  ◌≤ℤ◌, length, any, All, sum_of, Bool-cases,
}
use alfahd_erp_system.Accounting.Store.{
  JournalEntry, JournalEntryLine, has_entry_id, lines_of, set_entry_id, replace_entry,
}

abbrev pub line_debit : JournalEntryLine → ℤ
line_debit l = l.debit

abbrev pub line_credit : JournalEntryLine → ℤ
line_credit l = l.credit

-- `ck_jel_nonnegative` and `ck_jel_debit_xor_credit`
abbrev pub IsOneSided : JournalEntryLine → Type 0
IsOneSided l = (pos 0 ≤ℤ l.debit) × (pos 0 ≤ℤ l.credit) × ((l.debit ≤ℤ pos 0) ⊎ (l.credit ≤ℤ pos 0))

pub record IsBalanced (ls : List JournalEntryLine) : Type 0 where
  pub two_lines : 2 ≤ length ls
  pub totals : sum_of line_debit ls ≡ sum_of line_credit ls
  pub one_sided : All IsOneSided ls

-- Every line's entry is in the table.
abbrev pub HasEntry : List JournalEntry → JournalEntryLine → Type 0
HasEntry es l = any (has_entry_id l.journal_entry_id) es ≡ true

abbrev pub IsDistinct : List JournalEntry → Type 0
IsDistinct [] = Unit
IsDistinct (e ∷ es) = (any (has_entry_id e.id) es ≡ false) × IsDistinct es

-- The lines of an entry with a fresh id are the new ones.
pub lines_of-set_self :
    (i : ℕ) (ls : List JournalEntryLine)
    → lines_of i (map (set_entry_id i) ls) ≡ map (set_entry_id i) ls
lines_of-set_self i [] = refl
lines_of-set_self i (l ∷ ls) = ground (arith, lines_of-set_self i ls)

pub lines_of-set_ne :
    (i j : ℕ) (ls : List JournalEntryLine) → j ≢ i → lines_of j (map (set_entry_id i) ls) ≡ []
lines_of-set_ne i j [] h = refl
lines_of-set_ne i j (l ∷ ls) h = ground (arith, lines_of-set_ne i j ls)

pub lines_of-fresh :
    (i : ℕ) (es : List JournalEntry) (ls : List JournalEntryLine)
    → All (HasEntry es) ls
    → any (has_entry_id i) es ≡ false
    → lines_of i ls ≡ []
lines_of-fresh i es [] h f = refl
lines_of-fresh i es (l ∷ ls) h f = elim (Bool-cases (l.journal_entry_id == i)) [
  | inl same ↦ ground (arith, lines_of-fresh i es ls h.1 f)
  | inr other ↦ rw other (lines_of-fresh i es ls h.1 f)
]

-- An entry that is in the table does not have a fresh id.
pub fresh-ne :
    (i : ℕ) (e : JournalEntry) (es : List JournalEntry)
    → any (has_entry_id i) (e ∷ es) ≡ false
    → (e.id ≢ i) × (any (has_entry_id i) es ≡ false)
fresh-ne i e es h = ground arith

-- A fact about the id of each row survives a save, which changes no id.
pub All-replace_entry :
    (P : ℕ → Type 0) (e : JournalEntry) (es : List JournalEntry)
    → All (λ x. P x.id) es
    → All (λ x. P x.id) (replace_entry e es)
All-replace_entry P e [] h = tt
All-replace_entry P e (x ∷ xs) h = elim (Bool-cases (x.id == e.id)) [
  | inl same ↦ rw same (rw (← (same_id same)) h.0, All-replace_entry P e xs h.1)
  | inr other ↦ rw other (h.0, All-replace_entry P e xs h.1)
]
  where
    same_id : (x.id == e.id) ≡ true → x.id ≡ e.id
    same_id s = ground arith

pub any-replace_entry :
    (i : ℕ) (e : JournalEntry) (es : List JournalEntry)
    → any (has_entry_id i) (replace_entry e es) ≡ any (has_entry_id i) es
any-replace_entry i e [] = refl
any-replace_entry i e (x ∷ xs) = ground (arith, any-replace_entry i e xs)

-- A save of an entry that is not there changes nothing.
pub replace_entry-fresh :
    (e : JournalEntry) (es : List JournalEntry)
    → any (has_entry_id e.id) es ≡ false
    → replace_entry e es ≡ es
replace_entry-fresh e [] h = refl
replace_entry-fresh e (x ∷ xs) h = ground (arith, replace_entry-fresh e xs)

pub IsDistinct-replace_entry :
    (e : JournalEntry) (es : List JournalEntry) → IsDistinct es → IsDistinct (replace_entry e es)
IsDistinct-replace_entry e [] h = tt
IsDistinct-replace_entry e (x ∷ xs) h = ground (
  arith,
  IsDistinct-replace_entry e xs h.1,
  any-replace_entry x.id e xs,
  any-replace_entry e.id e xs,
)

pub HasEntry-replace_entry :
    (e : JournalEntry) (es : List JournalEntry) (ls : List JournalEntryLine)
    → All (HasEntry es) ls
    → All (HasEntry (replace_entry e es)) ls
HasEntry-replace_entry e es [] h = tt
HasEntry-replace_entry e es (l ∷ ls) h =
    (any-replace_entry l.journal_entry_id e es ∙ h.0, HasEntry-replace_entry e es ls h.1)

pub HasEntry-cons :
    (e : JournalEntry) (es : List JournalEntry) (ls : List JournalEntryLine)
    → All (HasEntry es) ls
    → All (HasEntry (e ∷ es)) ls
HasEntry-cons e es [] h = tt
HasEntry-cons e es (l ∷ ls) h = (ground (arith, h.0), HasEntry-cons e es ls h.1)

pub HasEntry-set_entry_id :
    (e : JournalEntry) (es : List JournalEntry) (ls : List JournalEntryLine)
    → All (HasEntry (e ∷ es)) (map (set_entry_id e.id) ls)
HasEntry-set_entry_id e es [] = tt
HasEntry-set_entry_id e es (l ∷ ls) = (ground arith, HasEntry-set_entry_id e es ls)

-- Balance does not depend on the lines' entry id.
sum_of-set_debit :
    (i : ℕ) (ls : List JournalEntryLine)
    → sum_of line_debit (map (set_entry_id i) ls) ≡ sum_of line_debit ls
sum_of-set_debit i [] = refl
sum_of-set_debit i (l ∷ ls) = rw (sum_of-set_debit i ls)

sum_of-set_credit :
    (i : ℕ) (ls : List JournalEntryLine)
    → sum_of line_credit (map (set_entry_id i) ls) ≡ sum_of line_credit ls
sum_of-set_credit i [] = refl
sum_of-set_credit i (l ∷ ls) = rw (sum_of-set_credit i ls)

length-set_entry_id :
    (i : ℕ) (ls : List JournalEntryLine) → length (map (set_entry_id i) ls) ≡ length ls
length-set_entry_id i [] = refl
length-set_entry_id i (l ∷ ls) = rw (length-set_entry_id i ls)

IsOneSided-set_entry_id :
    (i : ℕ) (ls : List JournalEntryLine)
    → All IsOneSided ls
    → All IsOneSided (map (set_entry_id i) ls)
IsOneSided-set_entry_id i [] h = tt
IsOneSided-set_entry_id i (l ∷ ls) h = (h.0, IsOneSided-set_entry_id i ls h.1)

pub IsBalanced-set_entry_id :
    (i : ℕ) (ls : List JournalEntryLine) → IsBalanced ls → IsBalanced (map (set_entry_id i) ls)
IsBalanced-set_entry_id i ls h = record {
  two_lines = rw (length-set_entry_id i ls) h.two_lines;
  totals = rw (sum_of-set_debit i ls, sum_of-set_credit i ls) h.totals;
  one_sided = IsOneSided-set_entry_id i ls h.one_sided;
}
