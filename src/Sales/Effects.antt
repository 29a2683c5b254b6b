-- ===== src/Sales/Effects.antt =====
-- What the calls of `SalesInvoiceService` leave in the tables: the books and the stock.
pub mod Returns
pub mod Chained
pub mod Documents
pub mod Orders
pub mod Issued
pub mod Calls
pub mod Notes
use mathlib.Core.Path.{subst}
use alfahd_erp_system.Prelude.{
  ℕ, ◌+◌, ◌≡◌, refl, sym, ◌∙◌, ap, Bool, true, false, Option, none, some, List, [], ◌∷◌, ◌==◌,
  arith, ℤ, pos, String, any, Result, ok, err, Result-cases, Bool-cases, inl, inr, leb_ℤ,
  if◌then◌else◌, bind-eq-ok, ◌>>=◌, raise_if-eq-ok, or_raise-eq-ok,
}
use alfahd_erp_system.Accounting.Store.{JournalEntry, Books}
use alfahd_erp_system.Accounting.Entries.{Draft, create_draft_entry, post_entry}
use alfahd_erp_system.Accounting.Lifecycle.{Reach, here, next, creates, posts}
use alfahd_erp_system.Accounting.Entities.{Error}
use alfahd_erp_system.Accounting.Store.{get_account_by_code}
use alfahd_erp_system.Inventory.Valuation.{StockError}
use alfahd_erp_system.Inventory.Store.{Stock}
use alfahd_erp_system.Inventory.Moves.{issue_stock}
use alfahd_erp_system.Inventory.History.{StockReach, receives, issues, start, later}
use alfahd_erp_system.MasterData.{MasterData, Location, get_product}
use alfahd_erp_system.Sales.Store.{SalesInvoice, SalesInvoiceLine, SalesBook}
use alfahd_erp_system.Sales.Lines.{lift_books}
use alfahd_erp_system.Sales.Posting.{
  deliver_lines, is_stocked, deduct_at, deduct_stock_for_lines, document_warehouse, location_of,
  Caller, create_and_post, lift_stock, post_invoice_entry, deliver, delivery, stock_draft,
  two_lines, to_column,
}

pub lift_books-eq-ok : {A : Type 0} (m : Result Error A) {a : A} → lift_books m ≡ ok a → m ≡ ok a
lift_books-eq-ok (ok x) h = ground arith
lift_books-eq-ok (err e) h = absurd (ground arith)

pub create_and_post-Reach :
    (now : ℕ) (d : Draft) (b : Books) {e : JournalEntry} {b' : Books}
    → create_and_post now d b ≡ ok (e, b')
    → Reach b b'
unfolding create_and_post
create_and_post-Reach now d b {e} {b'} h =
    let ((x, mid), c, rest) = bind-eq-ok (lift_books (create_draft_entry d b)) _ h in
    next (next here (creates d x (lift_books-eq-ok (create_draft_entry d b) c)))
      (posts x.id d.company_id now e (lift_books-eq-ok (post_entry x.id d.company_id now mid) rest))

pub Reach-trans : {a b c : Books} → Reach a b → Reach b c → Reach a c
Reach-trans r here = r
Reach-trans r (next s st) = next (Reach-trans r s) st

pub StockReach-trans : {a b c : Stock} → StockReach a b → StockReach b c → StockReach a c
StockReach-trans r start = r
StockReach-trans r (later s st) = later (StockReach-trans r s) st

-- The stock and the books change by calls of the inventory and the journal services only.
pub record Moves (x y : Stock × Books) : Type 0 where
  pub stock : StockReach x.0 y.0
  pub books : Reach x.1 y.1

pub Moves-refl : (x : Stock × Books) → Moves x x
Moves-refl x = record { stock = start; books = here }

pub Moves-trans : {x y z : Stock × Books} → Moves x y → Moves y z → Moves x z
Moves-trans m n = record {
  stock = StockReach-trans m.stock n.stock;
  books = Reach-trans m.books n.books;
}

pub lift_stock-eq-ok :
    {A : Type 0} (m : Result StockError A) {a : A} → lift_stock m ≡ ok a → m ≡ ok a
lift_stock-eq-ok (ok x) h = ground arith
lift_stock-eq-ok (err e) h = absurd (ground arith)

pub post_invoice_entry-Reach :
    (w : Caller) (credit : Bool) (i : ℕ) (v : SalesInvoice) (b : Books) {e : JournalEntry}
    {b' : Books}
    → post_invoice_entry w credit i v b ≡ ok (e, b')
    → Reach b b'
unfolding post_invoice_entry
post_invoice_entry-Reach w credit i v b h =
    let (r, er, h₁) = or_raise-eq-ok (get_account_by_code v.company_id "1200" b) _ _ h in
    let (t, et, h₂) = or_raise-eq-ok (get_account_by_code v.company_id "4100" b) _ _ h₁ in
    let (k, ek, h₃) = or_raise-eq-ok (get_account_by_code v.company_id "2200" b) _ _ h₂ in
    create_and_post-Reach w.now _ b h₃

deliver-Moves :
    (w : Caller) (v : SalesInvoice) (location cogs inventory move_id entry_id : ℕ)
    (l : SalesInvoiceLine) (sb : Stock × Books) {sb' : Stock × Books}
    → deliver w v location cogs inventory move_id entry_id l sb ≡ ok sb'
    → Moves sb sb'
unfolding deliver
deliver-Moves w v location cogs inventory move_id entry_id l (s, b) {sb'} h =
    let i = delivery w v location move_id l in
    let ((m, cost, s'), e, h₁) = bind-eq-ok (lift_stock (issue_stock w.alerts i s)) _ h in
    let moved = later start (issues w.alerts i (lift_stock-eq-ok (issue_stock w.alerts i s) e)) in
    elim (Bool-cases (leb_ℤ cost (pos 0))) [
      | inl free ↦
          let same : (s', b) ≡ sb' = ground arith in
          subst (Moves (s, b)) same (record { stock = moved; books = here })
      | inr costs ↦
          let d =
            stock_draft w (some v.branch_id) entry_id v "COGS for "
              (two_lines cogs inventory (to_column cost)) in
          let ((x, b'), c, h₂) = bind-eq-ok (create_and_post w.now d b) _ (rw costs at h₁) in
          let same : (s', b') ≡ sb' = ground arith in
          subst (Moves (s, b)) same
            (record { stock = moved; books = create_and_post-Reach w.now d b c })
    ]

deliver_lines-Moves :
    (w : Caller) (uuid : ℕ → ℕ) (n : ℕ) (v : SalesInvoice) (location cogs inventory : ℕ)
    (ls : List SalesInvoiceLine) (m : MasterData) (sb : Stock × Books) {sb' : Stock × Books}
    → deliver_lines w uuid n v location cogs inventory ls m sb ≡ ok sb'
    → Moves sb sb'
unfolding deliver_lines
deliver_lines-Moves w uuid n v location cogs inventory [] m sb {sb'} h =
    let same : sb ≡ sb' = ground arith in subst (Moves sb) same (Moves-refl sb)
deliver_lines-Moves w uuid n v location cogs inventory (l ∷ ls) m sb h =
    let sent = deliver w v location cogs inventory (uuid n) (uuid (n + 1)) l sb in
    let stocked = is_stocked (get_product l.product_id m) in
    let (mid, e, rest) = bind-eq-ok (if stocked then sent else ok sb) _ h in
    let later_lines = deliver_lines-Moves w uuid (n + 2) v location cogs inventory ls m mid rest in
    elim (Bool-cases stocked) [
      | inl yes' ↦
          Moves-trans
            (deliver-Moves w v location cogs inventory (uuid n) (uuid (n + 1)) l sb (rw yes' at e))
            later_lines
      | inr no' ↦
          let same : sb ≡ mid = ground arith in
          Moves-trans (subst (Moves sb) same (Moves-refl sb)) later_lines
    ]

deduct_at-Moves :
    (w : Caller) (uuid : ℕ → ℕ) (n : ℕ) (v : SalesInvoice) (ls : List SalesInvoiceLine)
    (m : MasterData) (l : Option Location) (sb : Stock × Books) {sb' : Stock × Books}
    → deduct_at w uuid n v ls m l sb ≡ ok sb'
    → Moves sb sb'
deduct_at-Moves w uuid n v ls m none sb {sb'} h =
    let same : sb ≡ sb' = ground arith in subst (Moves sb) same (Moves-refl sb)
deduct_at-Moves w uuid n v ls m (some location) sb h =
    let (cogs, ec, h₁) = or_raise-eq-ok (get_account_by_code v.company_id "5100" sb.1) _ _ h in
    let (inventory, ei, h₂) =
      or_raise-eq-ok (get_account_by_code v.company_id "1300" sb.1) _ _ h₁ in
    deliver_lines-Moves w uuid n v location.id cogs.id inventory.id ls m sb h₂

pub deduct_stock_for_lines-Moves :
    (w : Caller) (uuid : ℕ → ℕ) (n : ℕ) (v : SalesInvoice) (ls : List SalesInvoiceLine)
    (m : MasterData) (sb : Stock × Books) {sb' : Stock × Books}
    → deduct_stock_for_lines w uuid n v ls m sb ≡ ok sb'
    → Moves sb sb'
unfolding deduct_stock_for_lines
deduct_stock_for_lines-Moves w uuid n v ls m sb {sb'} h = elim (Bool-cases w.has_inventory) [
  | inl has ↦
      let opened : (document_warehouse v.company_id v.warehouse_id m
            >>= (λ found. deduct_at w uuid n v ls m (location_of m found) sb))
          ≡ ok sb' =
        ground arith in
      let (found, e, h₁) = bind-eq-ok (document_warehouse v.company_id v.warehouse_id m) _ opened in
      deduct_at-Moves w uuid n v ls m (location_of m found) sb h₁
  | inr none_there ↦ let same : sb ≡ sb' = ground arith in subst (Moves sb) same (Moves-refl sb)
]
