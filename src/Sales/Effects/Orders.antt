-- ===== src/Sales/Effects/Orders.antt =====
-- What the calls of `QuotationService` leave: no invoice, no entry, no move; the order lines change by
-- new lines of nothing invoiced.
use alfahd_erp_system.Prelude.{
  ℕ, ◌≡◌, refl, sym, ap, ◌∙◌, ◌||◌, Bool, true, false, not, List, [], ◌∷◌, suc, All, pos, ◌++◌, map,
  any, keep, arith, String, ok, bind-eq-ok, raise_if-eq-ok, then-eq-ok,
}
use alfahd_erp_system.Sales.Store.{
  Quotation, QuotationLine, SalesOrder, SalesOrderLine, SalesBook, add_quotation, add_order,
  replace_quotation_lines, replace_order_lines, set_order_id, of_order, get_quotation_lines,
  get_order_lines,
}
use alfahd_erp_system.Sales.Orders.{
  is_blank, quotation_clash, new_quotation, next_quotation_number, LineIn, new_order,
  next_order_number, order_clash, DocumentIn, create_quotation, update_quotation,
  confirm_to_sales_order, update_order, cancel_order, is_empty, is_draft, is_open, is_invoiced,
  check_sales_rep, require_quotation, require_order, ids_clash, lines_of_quotation, lines_of_input,
}

pub record IsKept (b b' : SalesBook) : Type 0 where
  pub invoices : b'.invoices ≡ b.invoices
  pub submissions : b'.submissions ≡ b.submissions
  pub stock : b'.stock ≡ b.stock
  pub books : b'.books ≡ b.books

pub create_quotation-IsKept :
    (wired : Bool) (uuid : ℕ → ℕ) (c branch : ℕ) (d : DocumentIn) (b b' : SalesBook) {q : Quotation}
    → create_quotation wired uuid c branch d b ≡ ok (q, b')
    → IsKept b b' × (b'.order_lines ≡ b.order_lines)
unfolding create_quotation add_quotation
create_quotation-IsKept wired uuid c branch d b b' h =
    let (some_there, h₁) = raise_if-eq-ok (is_empty d.lines) _ _ h in
    let (rep, h₂) = then-eq-ok (check_sales_rep wired c d.sales_rep_id b) _ h₁ in
    let q = new_quotation (uuid 0) c branch (next_quotation_number c b) d in
    let (clash, h₃) = raise_if-eq-ok (any (quotation_clash q) b.quotations) _ _ h₂ in
    (
      record {
        invoices = ground arith;
        submissions = ground arith;
        stock = ground arith;
        books = ground arith;
      },
      ground arith,
    )

pub update_quotation-IsKept :
    (wired : Bool) (i c : ℕ) (d : DocumentIn) (b b' : SalesBook) {q : Quotation}
    → update_quotation wired i c d b ≡ ok (q, b')
    → IsKept b b' × (b'.order_lines ≡ b.order_lines)
unfolding update_quotation replace_quotation_lines
update_quotation-IsKept wired i c d b b' h =
    let (some_there, h₁) = raise_if-eq-ok (is_empty d.lines) _ _ h in
    let (q, eq, h₂) = bind-eq-ok (require_quotation i c b) _ h₁ in
    let (drafted, h₃) = raise_if-eq-ok (not (is_draft q.status)) _ _ h₂ in
    let (rep, h₄) = then-eq-ok (check_sales_rep wired c d.sales_rep_id b) _ h₃ in
    (
      record {
        invoices = ground arith;
        submissions = ground arith;
        stock = ground arith;
        books = ground arith;
      },
      ground arith,
    )

pub cancel_order-IsKept :
    (i c : ℕ) (reason : String) (b b' : SalesBook) {o : SalesOrder}
    → cancel_order i c reason b ≡ ok (o, b')
    → IsKept b b' × (b'.order_lines ≡ b.order_lines)
unfolding cancel_order
cancel_order-IsKept i c reason b b' h =
    let (o, eo, h₁) = bind-eq-ok (require_order i c b) _ h in
    let (open', h₂) = raise_if-eq-ok (not (is_open o.status)) _ _ h₁ in
    let (untouched, h₃) = raise_if-eq-ok (any is_invoiced (get_order_lines i b)) _ _ h₂ in
    let (worded, h₄) = raise_if-eq-ok (is_blank reason) _ _ h₃ in
    (
      record {
        invoices = ground arith;
        submissions = ground arith;
        stock = ground arith;
        books = ground arith;
      },
      ground arith,
    )

-- Nothing is invoiced of the line.
abbrev pub IsNew : SalesOrderLine → Type 0
IsNew l = l.qty_invoiced ≡ pos 0

-- New lines in front of some that were there, with ids of their own.
pub record IsReplaced (b b' : SalesBook) : Type 0 where
  pub order : ℕ
  pub new : List SalesOrderLine
  pub stays : SalesOrderLine → Bool
  pub unused : ids_clash new b.order_lines ≡ false
  pub nothing_invoiced : All IsNew new
  pub lines : b'.order_lines ≡ map (set_order_id order) new ++ keep stays b.order_lines

pub keep-all : (ls : List SalesOrderLine) → keep (λ _. true) ls ≡ ls
keep-all [] = refl
keep-all (l ∷ ls) = rw (keep-all ls) refl

IsNew-lines_of_quotation :
    (uuid : ℕ → ℕ) (n c : ℕ) (ls : List QuotationLine) → All IsNew (lines_of_quotation uuid n c ls)
IsNew-lines_of_quotation uuid n c [] = tt
IsNew-lines_of_quotation uuid n c (l ∷ ls) = (refl, IsNew-lines_of_quotation uuid (suc n) c ls)

IsNew-lines_of_input :
    (uuid : ℕ → ℕ) (n c : ℕ) (ls : List LineIn) → All IsNew (lines_of_input uuid n c ls)
IsNew-lines_of_input uuid n c [] = tt
IsNew-lines_of_input uuid n c (l ∷ ls) = (refl, IsNew-lines_of_input uuid (suc n) c ls)

pub confirm_to_sales_order-IsReplaced :
    (uuid : ℕ → ℕ) (i c : ℕ) (b b' : SalesBook) {o : SalesOrder}
    → confirm_to_sales_order uuid i c b ≡ ok (o, b')
    → IsKept b b' × IsReplaced b b'
unfolding confirm_to_sales_order add_order
confirm_to_sales_order-IsReplaced uuid i c b b' h =
    let (q, eq, h₁) = bind-eq-ok (require_quotation i c b) _ h in
    let (drafted, h₂) = raise_if-eq-ok (not (is_draft q.status)) _ _ h₁ in
    let ls = lines_of_quotation uuid 1 c (get_quotation_lines i b) in
    let o = new_order (uuid 0) q (next_order_number c b) in
    let (clash, h₃) =
      raise_if-eq-ok (any (order_clash o) b.orders || ids_clash ls b.order_lines) _ _ h₂ in
    (
      record {
        invoices = ground arith;
        submissions = ground arith;
        stock = ground arith;
        books = ground arith;
      },
      record {
        order = uuid 0;
        new = ls;
        stays = λ _. true;
        unused = ground arith;
        nothing_invoiced = IsNew-lines_of_quotation uuid 1 c (get_quotation_lines i b);
        lines =
            let added : b'.order_lines ≡ map (set_order_id (uuid 0)) ls ++ b.order_lines =
              ground arith in
            added
            ∙ ap (λ (t : List SalesOrderLine). map (set_order_id (uuid 0)) ls ++ t)
                (sym (keep-all b.order_lines));
      },
    )

pub update_order-IsReplaced :
    (wired : Bool) (uuid : ℕ → ℕ) (i c : ℕ) (d : DocumentIn) (b b' : SalesBook) {o : SalesOrder}
    → update_order wired uuid i c d b ≡ ok (o, b')
    → IsKept b b' × IsReplaced b b'
unfolding update_order replace_order_lines
update_order-IsReplaced wired uuid i c d b b' h =
    let (some_there, h₁) = raise_if-eq-ok (is_empty d.lines) _ _ h in
    let (o, eo, h₂) = bind-eq-ok (require_order i c b) _ h₁ in
    let (open', h₃) = raise_if-eq-ok (not (is_open o.status)) _ _ h₂ in
    let (untouched, h₄) = raise_if-eq-ok (any is_invoiced (get_order_lines i b)) _ _ h₃ in
    let (rep, h₅) = then-eq-ok (check_sales_rep wired c d.sales_rep_id b) _ h₄ in
    let ls = lines_of_input uuid 0 c d.lines in
    let (clash, h₆) = raise_if-eq-ok (ids_clash ls b.order_lines) _ _ h₅ in
    (
      record {
        invoices = ground arith;
        submissions = ground arith;
        stock = ground arith;
        books = ground arith;
      },
      record {
        order = i;
        new = ls;
        stays = λ l. not (of_order i l);
        unused = clash;
        nothing_invoiced = IsNew-lines_of_input uuid 0 c d.lines;
        lines = ground arith;
      },
    )
