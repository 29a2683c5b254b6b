-- ===== src/Accounting/Entities.antt =====
-- backend/src/modules/accounting/domain/entities.py: the journal entry aggregate and its checks.
use alfahd_erp_system.Prelude.{
  ℕ, Bool, ◌&&◌, Option, List, [], ◌∷◌, ltb, not, ℤ, pos, ltb_ℤ, eq_ℤ, Result, ok, ◌>>=◌, ◌>>◌,
  raise_if, length, sum_of, String,
}

-- What the accounting services raise. The named exceptions are the module's own; `value_error` is a
-- `ValueError` with the fixed part of its message; the last two come from the database.
pub data Error : Type 0 where
  unbalanced_entry : String → Error
  posted_entry_immutable period_closed entry_not_draft : Error
  domain_error value_error : String → Error
  multiple_results integrity_error : Error

pub data Status : Type 0 where
  draft posted reversed cancelled : Status

abbrev pub is_draft : Status → Bool
is_draft draft = Bool.true
is_draft _ = Bool.false

abbrev pub is_posted : Status → Bool
is_posted posted = Bool.true
is_posted _ = Bool.false

-- The domain's `JournalEntryLine`.
pub record DomainLine : Type 0 where
  pub account_id : ℕ
  pub debit : ℤ
  pub credit : ℤ
  pub cost_center_id : Option ℕ
  pub description : Option String

-- `JournalEntryLine.__post_init__`
unfoldable pub post_init : DomainLine → Result Error DomainLine
post_init l = do
  raise_if (ltb_ℤ l.debit (pos 0)) (domain_error "debit/credit cannot be negative")
  raise_if (ltb_ℤ l.credit (pos 0)) (domain_error "debit/credit cannot be negative")
  raise_if (ltb_ℤ (pos 0) l.debit && ltb_ℤ (pos 0) l.credit)
      (domain_error "a line cannot be both debit and credit")
  ok l

-- The list comprehension that builds the domain lines: the first line that raises ends it.
unfoldable pub post_init_all : List DomainLine → Result Error (List DomainLine)
post_init_all [] = ok []
post_init_all (l ∷ ls) =
    let rest = post_init_all ls in do l' ← post_init l; ls' ← rest; ok (l' ∷ ls')

-- `JournalEntry.total_debit` and `total_credit`
abbrev pub debit_of : DomainLine → ℤ
debit_of l = l.debit

abbrev pub credit_of : DomainLine → ℤ
credit_of l = l.credit

abbrev pub total_debit : List DomainLine → ℤ
total_debit = sum_of debit_of

abbrev pub total_credit : List DomainLine → ℤ
total_credit = sum_of credit_of

-- `JournalEntry.assert_balanced`
unfoldable pub assert_balanced : List DomainLine → Result Error (Unit {0})
assert_balanced ls = do
  raise_if (ltb (length ls) 2) (unbalanced_entry "a journal entry needs at least two lines")
  raise_if (not (eq_ℤ (total_debit ls) (total_credit ls)))
      (unbalanced_entry "total debit does not equal total credit")
  ok tt
