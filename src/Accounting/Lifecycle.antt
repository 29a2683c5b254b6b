-- ===== src/Accounting/Lifecycle.antt =====
-- The journal over time: any sequence of calls of `JournalEntryService`.
pub mod Invariant
pub mod Statuses
use alfahd_erp_system.Prelude.{ℕ, ◌≡◌, ok}
use alfahd_erp_system.Accounting.Store.{Books, JournalEntry}
use alfahd_erp_system.Accounting.Entries.{
  Draft, create_draft_entry, post_entry, cancel_draft_entry, Wording, reverse_entry,
}

-- One committed call. A call that raises commits nothing, so it is no step.
pub data Step (b : Books) (b' : Books) : Type 0 where
  creates : (d : Draft) (e : JournalEntry) → create_draft_entry d b ≡ ok (e, b') → Step b b'
  posts : (i c now : ℕ) (e : JournalEntry) → post_entry i c now b ≡ ok (e, b') → Step b b'
  cancels : (i c : ℕ) (e : JournalEntry) → cancel_draft_entry i c b ≡ ok (e, b') → Step b b'
  reverses :
      (w : Wording) (i c u new_id today now : ℕ) (e : JournalEntry)
      → reverse_entry w i c u new_id today now b ≡ ok (e, b')
      → Step b b'

pub data Reach (b : Books) : Books → Type 0 where
  here : Reach b b
  next : {b' b'' : Books} → Reach b b' → Step b' b'' → Reach b b''
