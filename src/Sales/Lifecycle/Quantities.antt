-- ===== src/Sales/Lifecycle/Quantities.antt =====
-- What every sequence of calls keeps of the order lines.
use mathlib.Core.Path.{subst}
use alfahd_erp_system.Prelude.{ℕ, sym, Option, List}
use alfahd_erp_system.Zatca.Processor.{Toolkit}
use alfahd_erp_system.Sales.Store.{SalesOrderLine, SalesBook, of_order}
use alfahd_erp_system.Sales.Lines.{InvoiceItem}
use alfahd_erp_system.Sales.Quantities.{IsDistinct-add_all_invoiced, IsWithin-add_all_invoiced}
use alfahd_erp_system.Sales.Quantities.Selection.{IsUnrepeatedIn, Picks-select_lines}
use alfahd_erp_system.Sales.Quantities.Orders.{IsSound, IsReplaced-IsSound}
use alfahd_erp_system.Sales.Effects.Orders.{
  create_quotation-IsKept, update_quotation-IsKept, cancel_order-IsKept,
  confirm_to_sales_order-IsReplaced, update_order-IsReplaced,
}
use alfahd_erp_system.Sales.Effects.Calls.{IsInvoiced, issue_invoice_from_order-IsIssued}
use alfahd_erp_system.Sales.Effects.Notes.{
  issue_credit_note-IsIssued, issue_credit_note_for_lines-IsIssued,
}
use alfahd_erp_system.Sales.Lifecycle.{
  SalesStep, quotes, edits_quotation, confirms, edits_order, cancels, invoices, credits,
  credits_lines, SalesReach, opening, extended,
}

IsInvoiced-IsSound :
    (items : Option (List InvoiceItem)) (order : ℕ) (b : SalesBook) (t : List SalesOrderLine)
    → IsUnrepeatedIn items
    → IsInvoiced items order b t
    → IsSound b.order_lines
    → IsSound t
IsInvoiced-IsSound items order b t u i (d, h) = subst IsSound (sym i.counted) (
  IsDistinct-add_all_invoiced i.selected b.order_lines d,
  IsWithin-add_all_invoiced i.selected b.order_lines d
      (Picks-select_lines items (of_order order) b.order_lines d u i.selects) h,
)

SalesStep-IsSound :
    (k : Toolkit) (b b' : SalesBook)
    → SalesStep k IsUnrepeatedIn b b'
    → IsSound b.order_lines
    → IsSound b'.order_lines
SalesStep-IsSound k b b' (quotes wired uuid c branch d q e) h =
    subst IsSound (sym (create_quotation-IsKept wired uuid c branch d b b' e).1) h
SalesStep-IsSound k b b' (edits_quotation wired i c d q e) h =
    subst IsSound (sym (update_quotation-IsKept wired i c d b b' e).1) h
SalesStep-IsSound k b b' (confirms uuid i c o e) h =
    IsReplaced-IsSound b b' (confirm_to_sales_order-IsReplaced uuid i c b b' e).1 h
SalesStep-IsSound k b b' (edits_order wired uuid i c d o e) h =
    IsReplaced-IsSound b b' (update_order-IsReplaced wired uuid i c d b b' e).1 h
SalesStep-IsSound k b b' (cancels i c reason o e) h =
    subst IsSound (sym (cancel_order-IsKept i c reason b b' e).1) h
SalesStep-IsSound k b b' (invoices seller w uuid now order c items v s same u e) h =
    IsInvoiced-IsSound items order b b'.order_lines u
      (issue_invoice_from_order-IsIssued seller w uuid now order c items b e).1 h
SalesStep-IsSound k b b' (credits seller w uuid now today i c restock v s same e) h =
    subst IsSound (sym (issue_credit_note-IsIssued seller w uuid now today i c restock b e).1) h
SalesStep-IsSound k b b' (credits_lines seller w uuid now today p c ls i restock v s same e) h =
    subst IsSound
      (sym (issue_credit_note_for_lines-IsIssued seller w uuid now today p c ls i restock b e).1) h

-- From order lines with distinct ids, none invoiced beyond its quantity, any sequence of committed calls
-- in which no request for an invoice names a line twice leads to such lines again: what is invoiced of a
-- line is not negative, and nothing or at most the line's quantity.
pub SalesReach-IsSound :
    (k : Toolkit) (b b' : SalesBook)
    → SalesReach k IsUnrepeatedIn b b'
    → IsSound b.order_lines
    → IsSound b'.order_lines
SalesReach-IsSound k b _ opening h = h
SalesReach-IsSound k b b' (extended {b' = mid} reach step) h =
    SalesStep-IsSound k mid b' step (SalesReach-IsSound k b mid reach h)
