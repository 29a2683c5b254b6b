-- ===== src/Sales/Effects/Notes.antt =====
-- The two calls that issue a credit note, each opened.
use mathlib.Core.Path.{subst}
use alfahd_erp_system.Prelude.{
  ℕ, ◌≡◌, Bool, true, false, Option, List, arith, String, some, ok, Result, ◌∙◌, ◌+ℤ◌, bind-eq-ok,
  raise_if-eq-ok, or_raise-eq-ok, if◌then◌else◌,
}
use text.Mathlib.Text.{◌==◌ as str_eq}
use alfahd_erp_system.Accounting.Entities.{integrity_error}
use alfahd_erp_system.Accounting.Store.{Books}
use alfahd_erp_system.Inventory.Store.{Stock}
use alfahd_erp_system.MasterData.{Partner, get_partner}
use alfahd_erp_system.Sales.Store.{
  SalesInvoice, SalesInvoiceLine, ZatcaSubmission, SalesBook, get_invoice_lines,
}
use alfahd_erp_system.Sales.Orders.{SalesError, LineIn, is_empty, books}
use alfahd_erp_system.Sales.Lines.{price_lines, subtotal_of, tax_of}
use alfahd_erp_system.Sales.Submission.{Seller}
use alfahd_erp_system.Sales.Posting.{Caller, record_invoice_commission}
use alfahd_erp_system.Sales.Restock.{restock_for_credit_note, restock_for_credit_note_lines}
use alfahd_erp_system.Sales.Numbers.{next_invoice_number}
use alfahd_erp_system.Sales.Issuing.{add_invoice, is_registered, submit_and_post, retry}
use alfahd_erp_system.Sales.Crediting.{
  complete_credit_note, complete_credit_note_for_lines, issue_credit_note,
  issue_credit_note_for_lines, require_original, require_customer, optional_original,
  or_default_warehouse, warehouse_of_original, note_of_invoice, new_credit_note, rep_of, id_of,
}
use alfahd_erp_system.Sales.Effects.{Moves, Moves-refl}
use alfahd_erp_system.Sales.Effects.Returns.{
  restock_for_credit_note-Moves, restock_for_credit_note_lines-Moves,
}
use alfahd_erp_system.Sales.Effects.Issued.{IsIssued, IsIssued-of, add_invoice-eq-ok}
use alfahd_erp_system.Sales.Effects.Calls.{IsAdded}

-- Goods come back, or nothing changes.
Moves-if :
    (restock : Bool) (m : Result SalesError (Stock × Books)) (sb : Stock × Books)
    {sb' : Stock × Books}
    → ((t : Stock × Books) → m ≡ ok t → Moves sb t)
    → (if restock then m else ok sb) ≡ ok sb'
    → Moves sb sb'
Moves-if true m sb f h = f _ h
Moves-if false m sb {sb'} f h =
    let same : sb ≡ sb' = ground arith in subst (Moves sb) same (Moves-refl sb)

complete_credit_note-IsIssued :
    (seller : Seller) (w : Caller) (uuid : ℕ → ℕ) (now : String) (clearance : Bool) (p : Partner)
    (v : SalesInvoice) (ls : List SalesInvoiceLine) (original : ℕ) (restock : Bool)
    (b mid : SalesBook) {x : SalesInvoice × ZatcaSubmission × SalesBook}
    → IsAdded b mid v
    → complete_credit_note seller w uuid now clearance p v ls original restock mid ≡ ok x
    → IsIssued seller.toolkit b x × (x.2.order_lines ≡ mid.order_lines)
unfolding complete_credit_note
complete_credit_note-IsIssued seller w uuid now clearance p v ls original restock b mid {x} a h =
    let ((v', s, b'), e, h₁) =
      bind-eq-ok (submit_and_post seller w uuid now clearance true p v ls mid) _ h in
    let (cm, ec, h₂) =
      bind-eq-ok (record_invoice_commission w true (uuid 3) v' (some original) b'.commissions) _
        h₁ in
    let returns = restock_for_credit_note w uuid 4 v' original (b'.stock, b'.books) in
    let ((stock', books'), ed, h₃) =
      bind-eq-ok (if restock then returns else ok (b'.stock, b'.books)) _ h₂ in
    let whole : (v', s, record b' { stock = stock'; books = books'; commissions = cm }) ≡ x =
      ground arith in
    subst
      (λ (y : SalesInvoice × ZatcaSubmission × SalesBook).
        IsIssued seller.toolkit b y × (y.2.order_lines ≡ mid.order_lines))
      whole
      (IsIssued-of seller w uuid now clearance true p v ls b mid b' stock' books' cm a.fresh
        a.invoices a.submissions a.stock a.books e
        (Moves-if restock returns (b'.stock, b'.books)
          (λ t r. restock_for_credit_note-Moves w uuid 4 v' original (b'.stock, b'.books) r) ed))

complete_credit_note_for_lines-IsIssued :
    (seller : Seller) (w : Caller) (uuid : ℕ → ℕ) (now : String) (p : Partner) (v : SalesInvoice)
    (ls : List SalesInvoiceLine) (original : Option ℕ) (restock : Bool) (b mid : SalesBook)
    {x : SalesInvoice × ZatcaSubmission × SalesBook}
    → IsAdded b mid v
    → complete_credit_note_for_lines seller w uuid now p v ls original restock mid ≡ ok x
    → IsIssued seller.toolkit b x × (x.2.order_lines ≡ mid.order_lines)
unfolding complete_credit_note_for_lines
complete_credit_note_for_lines-IsIssued seller w uuid now p v ls original restock b mid {x} a h =
    let ((v', s, b'), e, h₁) =
      bind-eq-ok (submit_and_post seller w uuid now (is_registered p) true p v ls mid) _ h in
    let (cm, ec, h₂) =
      bind-eq-ok (record_invoice_commission w true (uuid 3) v' original b'.commissions) _ h₁ in
    let returns = restock_for_credit_note_lines w uuid 4 v' ls original b' (b'.stock, b'.books) in
    let ((stock', books'), ed, h₃) =
      bind-eq-ok (if restock then returns else ok (b'.stock, b'.books)) _ h₂ in
    let whole : (v', s, record b' { stock = stock'; books = books'; commissions = cm }) ≡ x =
      ground arith in
    subst
      (λ (y : SalesInvoice × ZatcaSubmission × SalesBook).
        IsIssued seller.toolkit b y × (y.2.order_lines ≡ mid.order_lines))
      whole
      (IsIssued-of seller w uuid now (is_registered p) true p v ls b mid b' stock' books' cm a.fresh
        a.invoices a.submissions a.stock a.books e
        (Moves-if restock returns (b'.stock, b'.books)
          (λ t r.
            restock_for_credit_note_lines-Moves w uuid 4 v' ls original b' (b'.stock, b'.books) r)
          ed))

pub issue_credit_note-IsIssued :
    (seller : Seller) (w : Caller) (uuid : ℕ → ℕ) (now : String) (today i c : ℕ) (restock : Bool)
    (b : SalesBook) {x : SalesInvoice × ZatcaSubmission × SalesBook}
    → issue_credit_note seller w uuid now today i c restock b ≡ ok x
    → IsIssued seller.toolkit b x × (x.2.order_lines ≡ b.order_lines)
unfolding issue_credit_note
issue_credit_note-IsIssued seller w uuid now today i c restock b h =
    let (original, eo, h₁) = bind-eq-ok (require_original i c _ b) _ h in
    let (p, ep, h₂) = or_raise-eq-ok (get_partner original.partner_id b.master) _ _ h₁ in
    let v = note_of_invoice (uuid 0) w today original (next_invoice_number c "credit_note" b) in
    let ls = get_invoice_lines i b in
    let (added, ea, h₃) = bind-eq-ok (add_invoice (books integrity_error) v ls b) _ h₂ in
    let (fresh, is, ss, ol, st, bk) = add_invoice-eq-ok (books integrity_error) v ls b ea in
    let a : IsAdded b added v = record {
      fresh = fresh;
      invoices = is;
      submissions = ss;
      stock = st;
      books = bk;
    } in
    let (issued, lines) =
      complete_credit_note-IsIssued seller w uuid now (str_eq original.invoice_type "tax") p v ls
        original.id restock b added a h₃ in
    (issued, lines ∙ ol)

pub issue_credit_note_for_lines-IsIssued :
    (seller : Seller) (w : Caller) (uuid : ℕ → ℕ) (now : String) (today partner c : ℕ)
    (lines : List LineIn) (i : Option ℕ) (restock : Bool) (b : SalesBook)
    {x : SalesInvoice × ZatcaSubmission × SalesBook}
    → issue_credit_note_for_lines seller w uuid now today partner c lines i restock b ≡ ok x
    → IsIssued seller.toolkit b x × (x.2.order_lines ≡ b.order_lines)
unfolding issue_credit_note_for_lines
issue_credit_note_for_lines-IsIssued seller w uuid now today partner c lines i restock b h =
    let (some_there, h₁) = raise_if-eq-ok (is_empty lines) _ _ h in
    let (p, ep, h₂) = bind-eq-ok (require_customer partner c b) _ h₁ in
    let (original, eo, h₃) = bind-eq-ok (optional_original i c partner b) _ h₂ in
    let (ls, el, h₄) = bind-eq-ok (price_lines c lines b.master) _ h₃ in
    let (warehouse, ew, h₅) =
      bind-eq-ok (or_default_warehouse w c b (warehouse_of_original original)) _ h₄ in
    let v =
      new_credit_note (uuid 0) c w.branch_id today partner original warehouse (rep_of original p)
        (next_invoice_number c "credit_note" b) (subtotal_of ls) (tax_of ls)
        (subtotal_of ls +ℤ tax_of ls) in
    let (added, ea, h₆) = bind-eq-ok (add_invoice retry v ls b) _ h₅ in
    let (fresh, is, ss, ol, st, bk) = add_invoice-eq-ok retry v ls b ea in
    let a : IsAdded b added v = record {
      fresh = fresh;
      invoices = is;
      submissions = ss;
      stock = st;
      books = bk;
    } in
    let (issued, order_lines') =
      complete_credit_note_for_lines-IsIssued seller w uuid now p v ls (id_of original) restock b
        added a h₆ in
    (issued, order_lines' ∙ ol)
