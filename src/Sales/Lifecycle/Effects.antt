-- ===== src/Sales/Lifecycle/Effects.antt =====
-- What a call leaves: nothing outside its own tables, or one document more; and what any sequence of
-- calls leaves in the books and in the stock.
use mathlib.Core.Path.{subst}
use alfahd_erp_system.Prelude.{ℕ, ◌≡◌, sym, Bool, Option, List, ◌⊎◌, inl, inr, sum_of}
use alfahd_erp_system.Accounting.TrialBalance.{trial_balance}
use alfahd_erp_system.Accounting.Lifecycle.{Reach, here}
use alfahd_erp_system.Accounting.Lifecycle.Invariant.{IsPostable, Reach-trial_balance}
use alfahd_erp_system.Accounting.Entries.Balance.{IsConsistent}
use alfahd_erp_system.Accounting.Statements.{balance_sheet, total_liabilities_and_equity}
use alfahd_erp_system.Accounting.Statements.Identity.{Reach-balance_sheet}
use alfahd_erp_system.Inventory.History.{StockReach, start, IsMovesSum, StockReach-IsMovesSum}
use alfahd_erp_system.Zatca.Processor.{Toolkit}
use alfahd_erp_system.Sales.Store.{SalesInvoice, ZatcaSubmission, SalesBook}
use alfahd_erp_system.Sales.Lines.{InvoiceItem}
use alfahd_erp_system.Sales.Effects.{Moves, Moves-refl, Moves-trans}
use alfahd_erp_system.Sales.Effects.Orders.{
  IsKept, create_quotation-IsKept, update_quotation-IsKept, cancel_order-IsKept,
  confirm_to_sales_order-IsReplaced, update_order-IsReplaced,
}
use alfahd_erp_system.Sales.Effects.Issued.{IsIssued}
use alfahd_erp_system.Sales.Effects.Calls.{issue_invoice_from_order-IsIssued}
use alfahd_erp_system.Sales.Effects.Notes.{
  issue_credit_note-IsIssued, issue_credit_note_for_lines-IsIssued,
}
use alfahd_erp_system.Sales.Lifecycle.{
  SalesStep, quotes, edits_quotation, confirms, edits_order, cancels, invoices, credits,
  credits_lines, SalesReach, opening, extended,
}

-- A document with its submission, or none.
abbrev pub Leaves : Toolkit → SalesBook → SalesBook → Type 0
Leaves k b b' = IsKept b b' ⊎ ((v : SalesInvoice) × (s : ZatcaSubmission) × IsIssued k b (v, s, b'))

module _ (k : Toolkit) (Asks : Option (List InvoiceItem) → Type 0) where
  issued :
      (t : Toolkit) (b b' : SalesBook) (v : SalesInvoice) (s : ZatcaSubmission)
      → t ≡ k
      → IsIssued t b (v, s, b')
      → Leaves k b b'
  issued t b b' v s same i = inr (v, s, subst (λ (y : Toolkit). IsIssued y b (v, s, b')) same i)

  pub SalesStep-Leaves : (b b' : SalesBook) → SalesStep k Asks b b' → Leaves k b b'
  SalesStep-Leaves b b' (quotes wired uuid c branch d q e) =
      inl (create_quotation-IsKept wired uuid c branch d b b' e).0
  SalesStep-Leaves b b' (edits_quotation wired i c d q e) =
      inl (update_quotation-IsKept wired i c d b b' e).0
  SalesStep-Leaves b b' (confirms uuid i c o e) =
      inl (confirm_to_sales_order-IsReplaced uuid i c b b' e).0
  SalesStep-Leaves b b' (edits_order wired uuid i c d o e) =
      inl (update_order-IsReplaced wired uuid i c d b b' e).0
  SalesStep-Leaves b b' (cancels i c reason o e) = inl (cancel_order-IsKept i c reason b b' e).0
  SalesStep-Leaves b b' (invoices seller w uuid now order c items v s same u e) =
      issued seller.toolkit b b' v s same
        (issue_invoice_from_order-IsIssued seller w uuid now order c items b e).0
  SalesStep-Leaves b b' (credits seller w uuid now today i c restock v s same e) =
      issued seller.toolkit b b' v s same
        (issue_credit_note-IsIssued seller w uuid now today i c restock b e).0
  SalesStep-Leaves b b' (credits_lines seller w uuid now today p c ls i restock v s same e) =
      issued seller.toolkit b b' v s same
        (issue_credit_note_for_lines-IsIssued seller w uuid now today p c ls i restock b e).0

  Leaves-Moves : (b b' : SalesBook) → Leaves k b b' → Moves (b.stock, b.books) (b'.stock, b'.books)
  Leaves-Moves b b' (inl kept) = record {
    stock = subst (StockReach b.stock) (sym kept.stock) start;
    books = subst (Reach b.books) (sym kept.books) here;
  }
  Leaves-Moves b b' (inr (v, s, i)) = i.moves

  pub SalesReach-Moves :
      (b b' : SalesBook) → SalesReach k Asks b b' → Moves (b.stock, b.books) (b'.stock, b'.books)
  SalesReach-Moves b _ opening = Moves-refl (b.stock, b.books)
  SalesReach-Moves b b' (extended {b' = mid} reach step) =
      Moves-trans (SalesReach-Moves b mid reach)
        (Leaves-Moves mid b' (SalesStep-Leaves mid b' step))

  -- Any sequence of committed calls of the two sales services keeps what is on hand of every product at
  -- every location equal to the sum of its stock moves.
  pub SalesReach-IsMovesSum :
      (b b' : SalesBook) → SalesReach k Asks b b' → IsMovesSum b.stock → IsMovesSum b'.stock
  SalesReach-IsMovesSum b b' reach h =
      StockReach-IsMovesSum b.stock b'.stock (SalesReach-Moves b b' reach).stock h

  -- Any sequence of committed calls of the two sales services, from consistent books with distinct accounts
  -- and charted lines, keeps every balance sheet's assets equal to its liabilities and equity, and every
  -- trial balance's period debits equal to its period credits.
  pub SalesReach-balances :
      (cogs : ℕ → Bool) (c date_from as_of : ℕ) (branch : Option ℕ) (b b' : SalesBook)
      → IsConsistent b.books
      → IsPostable b.books
      → SalesReach k Asks b b'
      → let sheet = balance_sheet cogs c as_of branch b'.books in
        let rows = trial_balance c date_from as_of branch b'.books in
        (sheet.assets_total ≡ total_liabilities_and_equity sheet)
        × (sum_of (λ r. r.period_debit) rows ≡ sum_of (λ r. r.period_credit) rows)
  SalesReach-balances cogs c date_from as_of branch b b' h p reach =
      let r = (SalesReach-Moves b b' reach).books in
      (
        Reach-balance_sheet cogs c as_of branch h p r,
        (Reach-trial_balance c date_from as_of branch h p r).0,
      )
