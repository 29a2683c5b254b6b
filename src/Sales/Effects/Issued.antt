-- ===== src/Sales/Effects/Issued.antt =====
-- What a call that issues an invoice or a credit note leaves: one invoice and one submission more, and
-- whatever the stock and the books went through.
use mathlib.Core.Path.{subst}
use alfahd_erp_system.Prelude.{
  ℕ, ◌≡◌, refl, sym, ap, ◌∙◌, Bool, true, false, some, List, [], ◌∷◌, ◌==◌, arith, String, any,
  keep, ok, bind-eq-ok, raise_if-eq-ok,
}
use alfahd_erp_system.Accounting.Store.{Books}
use alfahd_erp_system.Accounting.Lifecycle.{Reach}
use alfahd_erp_system.Commission.{CommissionBook}
use alfahd_erp_system.Inventory.Store.{Stock}
use alfahd_erp_system.Inventory.History.{start, StockReach}
use alfahd_erp_system.MasterData.{Partner}
use alfahd_erp_system.Zatca.Processor.{Toolkit}
use alfahd_erp_system.Sales.Store.{
  SalesInvoice, SalesInvoiceLine, ZatcaSubmission, SalesBook, replace_invoice, has_sales_invoice_id,
}
use alfahd_erp_system.Sales.Orders.{SalesError}
use alfahd_erp_system.Sales.Submission.{
  for_invoice, of_company, latest, after, Seller, run_zatca_pipeline, invoice_data,
}
use alfahd_erp_system.Sales.Posting.{Caller, post_invoice_entry}
use alfahd_erp_system.Sales.Issuing.{add_invoice, submit_and_post, mode_of, status_of}
use alfahd_erp_system.Sales.Effects.{
  lift_books, Moves, Moves-trans, post_invoice_entry-Reach, lift_books-eq-ok,
}
use alfahd_erp_system.Sales.Effects.Chained.{IsHashed}
use alfahd_erp_system.Sales.Effects.Documents.{IsRecorded, run_zatca_pipeline-IsRecorded}

-- The row that was added, as the calls that follow leave it.
record IsSubmitted (k : Toolkit) (v : SalesInvoice) (b : SalesBook)
    (x : SalesInvoice × ZatcaSubmission × SalesBook) : Type 0 where
  id : x.0.id ≡ v.id
  company : x.0.company_id ≡ v.company_id
  invoices : x.2.invoices ≡ replace_invoice x.0 b.invoices
  submissions : x.2.submissions ≡ x.1 ∷ b.submissions
  recorded : IsRecorded k v.company_id v.id b.invoices b.submissions x.1
  order_lines : x.2.order_lines ≡ b.order_lines
  stock : x.2.stock ≡ b.stock
  books : Reach b.books x.2.books

submit_and_post-IsSubmitted :
    (seller : Seller) (w : Caller) (uuid : ℕ → ℕ) (now : String) (clearance credit : Bool)
    (p : Partner) (v : SalesInvoice) (ls : List SalesInvoiceLine) (b : SalesBook)
    {x : SalesInvoice × ZatcaSubmission × SalesBook}
    → submit_and_post seller w uuid now clearance credit p v ls b ≡ ok x
    → IsSubmitted seller.toolkit v b x
unfolding submit_and_post
submit_and_post-IsSubmitted seller w uuid now clearance credit p v ls b {x} h =
    let d = invoice_data seller now v p.name p.vat_number ls v.subtotal_amount v.tax_amount in
    let ((s, mid), e, h₁) =
      bind-eq-ok
        (lift_books
          (run_zatca_pipeline seller.toolkit (uuid 1) d v (mode_of clearance) clearance b))
        _ h in
    let (recorded, same) =
      run_zatca_pipeline-IsRecorded seller.toolkit (uuid 1) d v (mode_of clearance) clearance b
        (lift_books-eq-ok _ e) in
    let ((entry, journal), e₂, h₂) =
      bind-eq-ok
        (post_invoice_entry w credit (uuid 2) (record v { status = status_of clearance s })
          mid.books)
        _ h₁ in
    let v' = record v { status = status_of clearance s; journal_entry_id = some entry.id } in
    let whole : (v', s, record mid { invoices = replace_invoice v' mid.invoices; books = journal })
        ≡ x =
      ground arith in
    subst (IsSubmitted seller.toolkit v b) whole (record {
      id = refl;
      company = refl;
      invoices = ap (λ (y : SalesBook). replace_invoice v' y.invoices) same;
      submissions = ap (λ (y : SalesBook). y.submissions) same;
      recorded = recorded;
      order_lines = ap (λ (y : SalesBook). y.order_lines) same;
      stock = ap (λ (y : SalesBook). y.stock) same;
      books =
          subst (λ (y : Books). Reach y journal) (ap (λ (y : SalesBook). y.books) same)
            (post_invoice_entry-Reach w credit (uuid 2) _ mid.books e₂);
    })

-- What every such call leaves.
pub record IsIssued (k : Toolkit) (b : SalesBook) (x : SalesInvoice × ZatcaSubmission × SalesBook)
    : Type 0 where
  pub invoice_fresh : any (has_sales_invoice_id x.0.id) b.invoices ≡ false
  pub invoices : x.2.invoices ≡ x.0 ∷ b.invoices
  pub submissions : x.2.submissions ≡ x.1 ∷ b.submissions
  pub submission_fresh : any (for_invoice x.0.id) b.submissions ≡ false
  pub owner : x.1.sales_invoice_id ≡ x.0.id
  pub chained :
      (x.1.icv, x.1.previous_hash)
      ≡ after k (latest (keep (of_company x.0.company_id b.invoices) b.submissions))
  pub hash : IsHashed k x.1
  pub moves : Moves (b.stock, b.books) (x.2.stock, x.2.books)

replace_invoice-absent :
    (v : SalesInvoice) (is : List SalesInvoice)
    → any (has_sales_invoice_id v.id) is ≡ false
    → replace_invoice v is ≡ is
replace_invoice-absent v [] h = refl
replace_invoice-absent v (x ∷ is) h = ground (arith, replace_invoice-absent v is)

-- An invoice without a submission is in nobody's chain.
pub chain-new :
    (c : ℕ) (v : SalesInvoice) (is : List SalesInvoice) (ss : List ZatcaSubmission)
    → any (for_invoice v.id) ss ≡ false
    → keep (of_company c (v ∷ is)) ss ≡ keep (of_company c is) ss
chain-new c v is [] h = refl
chain-new c v is (s ∷ ss) h =
    let rest = chain-new c v is ss (ground arith) in
    let other : (v.id == s.sales_invoice_id) ≡ false = ground arith in rw (other, rest) refl

pub add_invoice-eq-ok :
    (e : SalesError) (v : SalesInvoice) (ls : List SalesInvoiceLine) (b : SalesBook)
    {added : SalesBook}
    → add_invoice e v ls b ≡ ok added
    → (any (has_sales_invoice_id v.id) b.invoices ≡ false)
      × (added.invoices ≡ v ∷ b.invoices)
      × (added.submissions ≡ b.submissions)
      × (added.order_lines ≡ b.order_lines)
      × (added.stock ≡ b.stock)
      × (added.books ≡ b.books)
unfolding add_invoice
add_invoice-eq-ok e v ls b h =
    let (number, h₁) = raise_if-eq-ok _ _ _ h in
    let (fresh, h₂) = raise_if-eq-ok _ _ _ h₁ in
    (fresh, ground arith, ground arith, ground arith, ground arith, ground arith)

both : {x y : ℕ} {t u : String} → x ≡ y → t ≡ u → ◌≡◌ {A = ℕ × String} (x, t) (y, u)
both p q = λ i. (p i, q i)

-- The middle of the three calls: the row is added to tables that are the caller's otherwise, submitted
-- and posted, and the calls after that move the stock and the books only.
pub IsIssued-of :
    (seller : Seller) (w : Caller) (uuid : ℕ → ℕ) (now : String) (clearance credit : Bool)
    (p : Partner) (v : SalesInvoice) (ls : List SalesInvoiceLine) (b mid b' : SalesBook)
    {v' : SalesInvoice} {s : ZatcaSubmission} (st : Stock) (bk : Books) (cm : CommissionBook)
    → any (has_sales_invoice_id v.id) b.invoices ≡ false
    → mid.invoices ≡ v ∷ b.invoices
    → mid.submissions ≡ b.submissions
    → mid.stock ≡ b.stock
    → mid.books ≡ b.books
    → submit_and_post seller w uuid now clearance credit p v ls mid ≡ ok (v', s, b')
    → Moves (b'.stock, b'.books) (st, bk)
    → IsIssued seller.toolkit b (v', s, record b' { stock = st; books = bk; commissions = cm })
      × (b'.order_lines ≡ mid.order_lines)
IsIssued-of seller w uuid now clearance credit p v ls b mid b' {v'} {s} st bk cm fresh is ss st₀ bk₀
      h m =
    let x = submit_and_post-IsSubmitted seller w uuid now clearance credit p v ls mid h in
    let r = x.recorded in
    let first : (v.id == v'.id) ≡ true = ground (arith, x.id) in
    let absent : any (has_sales_invoice_id v'.id) b.invoices ≡ false = rw x.id fresh in
    let new : any (for_invoice v.id) b.submissions ≡ false =
      subst (λ (y : List ZatcaSubmission). any (for_invoice v.id) y ≡ false) ss r.fresh in
    let k = seller.toolkit in
    let counted : (s.icv, s.previous_hash)
        ≡ after k (latest (keep (of_company v.company_id mid.invoices) mid.submissions)) =
      both r.counter r.previous in
    let chain : keep (of_company v.company_id mid.invoices) mid.submissions
        ≡ keep (of_company v'.company_id b.invoices) b.submissions =
      rw (is, ss, x.company) (chain-new v.company_id v b.invoices b.submissions new) in
    (
      record {
        invoice_fresh = absent;
        invoices = x.invoices ∙ rw (is, first, replace_invoice-absent v' b.invoices absent) refl;
        submissions = x.submissions ∙ ap (λ (y : List ZatcaSubmission). s ∷ y) ss;
        submission_fresh = rw x.id new;
        owner = r.owner ∙ sym x.id;
        chained = counted ∙ ap (λ (y : List ZatcaSubmission). after k (latest y)) chain;
        hash = r.hash;
        moves =
            Moves-trans
              (record {
                stock = subst (StockReach b.stock) (sym (x.stock ∙ st₀)) start;
                books = subst (λ (y : Books). Reach y b'.books) bk₀ x.books;
              })
              m;
      },
      x.order_lines,
    )
