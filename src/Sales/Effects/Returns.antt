-- ===== src/Sales/Effects/Returns.antt =====
-- Goods that come back move the stock by receipts, and the books by drafts that are posted.
use mathlib.Core.Path.{subst}
use alfahd_erp_system.Prelude.{
  ℕ, ◌+◌, ◌≡◌, Option, none, some, List, [], ◌∷◌, arith, ℤ, pos, ok, ltb_ℤ, leb_ℤ, eq_ℤ, Bool-cases,
  inl, inr, ◌>>=◌, bind-eq-ok, or_raise-eq-ok,
}
use alfahd_erp_system.Accounting.Store.{Books, get_account_by_code}
use alfahd_erp_system.Accounting.Lifecycle.{Reach, here}
use alfahd_erp_system.Inventory.Store.{Stock, StockMove}
use alfahd_erp_system.Inventory.Moves.{Receipt, receive_stock}
use alfahd_erp_system.Inventory.History.{StockReach, receives, start, later}
use alfahd_erp_system.MasterData.{MasterData, Location, get_product}
use alfahd_erp_system.Sales.Store.{SalesInvoice, SalesInvoiceLine, SalesBook}
use alfahd_erp_system.Sales.Posting.{
  Caller, create_and_post, lift_stock, is_stocked, document_warehouse, location_of,
}
use alfahd_erp_system.Sales.Restock.{
  Restocked, returned, take_back, take_back_moves, post_return, post_variance, post_return_if,
  post_variance_if, nothing_yet, delivery_moves, restock_for_credit_note, return_cost,
  take_back_line, take_back_lines, restock_at, moves_of_original, warehouse_of, find_invoice,
  restock_for_credit_note_lines,
}
use alfahd_erp_system.Sales.Effects.{
  create_and_post-Reach, lift_stock-eq-ok, Moves, Moves-refl, Reach-trans, StockReach-trans,
}

take_back-StockReach :
    (r : Receipt) (acc : Restocked) {acc' : Restocked}
    → take_back r acc ≡ ok acc'
    → StockReach acc.stock acc'.stock
unfolding take_back
take_back-StockReach r acc {acc'} h =
    let ((m, variance, s), e, h₁) = bind-eq-ok (lift_stock (receive_stock r acc.stock)) _ h in
    let same : s ≡ acc'.stock = ground arith in
    subst (StockReach acc.stock) same
      (later start (receives r (lift_stock-eq-ok (receive_stock r acc.stock) e)))

take_back_moves-StockReach :
    (w : Caller) (uuid : ℕ → ℕ) (n : ℕ) (note : SalesInvoice) (ms : List StockMove)
    (acc : Restocked) {acc' : Restocked}
    → take_back_moves w uuid n note ms acc ≡ ok acc'
    → StockReach acc.stock acc'.stock
unfolding take_back_moves
take_back_moves-StockReach w uuid n note [] acc {acc'} h =
    let same : acc.stock ≡ acc'.stock = ground arith in subst (StockReach acc.stock) same start
take_back_moves-StockReach w uuid n note (m ∷ ms) acc h =
    let (l, el, h₁) = or_raise-eq-ok m.source_location_id _ _ h in
    let (mid, e, h₂) =
      bind-eq-ok (take_back (returned w uuid n note m.product_id l m.qty m.unit_cost) acc) _ h₁ in
    StockReach-trans (take_back-StockReach _ acc e)
      (take_back_moves-StockReach w uuid (n + 2) note ms mid h₂)

post_return_if-Reach :
    (w : Caller) (i : ℕ) (note : SalesInvoice) (cost : ℤ) (b : Books) {b' : Books}
    → post_return_if w i note cost b ≡ ok b'
    → Reach b b'
unfolding post_return_if post_return
post_return_if-Reach w i note cost b {b'} h = elim (Bool-cases (ltb_ℤ (pos 0) cost)) [
  | inr free ↦ let same : b ≡ b' = ground arith in subst (Reach b) same here
  | inl costs ↦
      let (cogs, ec, h₁) =
        or_raise-eq-ok (get_account_by_code note.company_id "5100" b) _ _ (rw costs at h) in
      let (inventory, ei, h₂) =
        or_raise-eq-ok (get_account_by_code note.company_id "1300" b) _ _ h₁ in
      let ((e, mid), c, h₃) = bind-eq-ok (create_and_post w.now _ b) _ h₂ in
      let same : mid ≡ b' = ground arith in subst (Reach b) same (create_and_post-Reach w.now _ b c)
]

post_variance_if-Reach :
    (w : Caller) (i : ℕ) (note : SalesInvoice) (variance : ℤ) (b : Books) {b' : Books}
    → post_variance_if w i note variance b ≡ ok b'
    → Reach b b'
unfolding post_variance_if post_variance
post_variance_if-Reach w i note variance b {b'} h = elim (Bool-cases (eq_ℤ variance (pos 0))) [
  | inl zero_there ↦ let same : b ≡ b' = ground arith in subst (Reach b) same here
  | inr some_there ↦
      let (inventory, ei, h₁) =
        or_raise-eq-ok (get_account_by_code note.company_id "1300" b) _ _ (rw some_there at h) in
      let (account, ea, h₂) =
        or_raise-eq-ok (get_account_by_code note.company_id "5150" b) _ _ h₁ in
      let ((e, mid), c, h₃) = bind-eq-ok (create_and_post w.now _ b) _ h₂ in
      let same : mid ≡ b' = ground arith in subst (Reach b) same (create_and_post-Reach w.now _ b c)
]

pub restock_for_credit_note-Moves :
    (w : Caller) (uuid : ℕ → ℕ) (n : ℕ) (note : SalesInvoice) (original : ℕ) (sb : Stock × Books)
    {sb' : Stock × Books}
    → restock_for_credit_note w uuid n note original sb ≡ ok sb'
    → Moves sb sb'
unfolding restock_for_credit_note delivery_moves take_back_moves post_return_if post_return
    post_variance_if post_variance
restock_for_credit_note-Moves w uuid n note original (s, b) {sb'} h =
    elim (Bool-cases w.has_inventory) [
      | inr without ↦
          let same : (s, b) ≡ sb' = ground arith in subst (Moves (s, b)) same (Moves-refl (s, b))
      | inl has ↦
          let (acc, e, h₁) =
            bind-eq-ok
              (take_back_moves w uuid (n + 2) note (delivery_moves note.company_id original s)
                (nothing_yet s))
              _ (rw has at h) in
          let (b₁, e₁, h₂) = bind-eq-ok (post_return_if w (uuid n) note acc.total_cost b) _ h₁ in
          let (b₂, e₂, h₃) =
            bind-eq-ok (post_variance_if w (uuid (n + 1)) note acc.variance b₁) _ h₂ in
          let same : (acc.stock, b₂) ≡ sb' = ground arith in
          subst (Moves (s, b)) same (record {
            stock = take_back_moves-StockReach w uuid (n + 2) note _ (nothing_yet s) e;
            books =
                Reach-trans (post_return_if-Reach w (uuid n) note acc.total_cost b e₁)
                  (post_variance_if-Reach w (uuid (n + 1)) note acc.variance b₁ e₂);
          })
    ]

take_back_line-StockReach :
    (w : Caller) (uuid : ℕ → ℕ) (n : ℕ) (note : SalesInvoice) (location : ℕ) (ms : List StockMove)
    (l : SalesInvoiceLine) (m : MasterData) (acc : Restocked) {acc' : Restocked}
    → take_back_line w uuid n note location ms l m acc ≡ ok acc'
    → StockReach acc.stock acc'.stock
unfolding take_back_line
take_back_line-StockReach w uuid n note location ms l m acc {acc'} h =
    let cost = return_cost l.product_id location ms acc.stock in
    elim (Bool-cases (is_stocked (get_product l.product_id m))) [
      | inr service ↦
          let same : acc.stock ≡ acc'.stock = ground arith in
          subst (StockReach acc.stock) same start
      | inl stocked ↦ elim (Bool-cases (leb_ℤ cost (pos 0))) [
        | inl free ↦
            let same : acc.stock ≡ acc'.stock = ground arith in
            subst (StockReach acc.stock) same start
        | inr costs ↦
            take_back-StockReach (returned w uuid n note l.product_id location l.qty cost) acc
              (rw (stocked, costs) at h)
      ]
    ]

take_back_lines-StockReach :
    (w : Caller) (uuid : ℕ → ℕ) (n : ℕ) (note : SalesInvoice) (location : ℕ) (ms : List StockMove)
    (ls : List SalesInvoiceLine) (m : MasterData) (acc : Restocked) {acc' : Restocked}
    → take_back_lines w uuid n note location ms ls m acc ≡ ok acc'
    → StockReach acc.stock acc'.stock
unfolding take_back_lines
take_back_lines-StockReach w uuid n note location ms [] m acc {acc'} h =
    let same : acc.stock ≡ acc'.stock = ground arith in subst (StockReach acc.stock) same start
take_back_lines-StockReach w uuid n note location ms (l ∷ ls) m acc h =
    let (mid, e, h₁) = bind-eq-ok (take_back_line w uuid n note location ms l m acc) _ h in
    StockReach-trans (take_back_line-StockReach w uuid n note location ms l m acc e)
      (take_back_lines-StockReach w uuid (n + 2) note location ms ls m mid h₁)

restock_at-Moves :
    (w : Caller) (uuid : ℕ → ℕ) (n : ℕ) (note : SalesInvoice) (ms : List StockMove)
    (ls : List SalesInvoiceLine) (m : MasterData) (l : Option Location) (sb : Stock × Books)
    {sb' : Stock × Books}
    → restock_at w uuid n note ms ls m l sb ≡ ok sb'
    → Moves sb sb'
restock_at-Moves w uuid n note ms ls m none sb {sb'} h =
    let same : sb ≡ sb' = ground arith in subst (Moves sb) same (Moves-refl sb)
restock_at-Moves w uuid n note ms ls m (some l) (s, b) {sb'} h =
    let (acc, e, h₁) =
      bind-eq-ok (take_back_lines w uuid (n + 2) note l.id ms ls m (nothing_yet s)) _ h in
    let (b₁, e₁, h₂) = bind-eq-ok (post_variance_if w (uuid n) note acc.variance b) _ h₁ in
    let (b₂, e₂, h₃) = bind-eq-ok (post_return_if w (uuid (n + 1)) note acc.total_cost b₁) _ h₂ in
    let same : (acc.stock, b₂) ≡ sb' = ground arith in
    subst (Moves (s, b)) same (record {
      stock = take_back_lines-StockReach w uuid (n + 2) note l.id ms ls m (nothing_yet s) e;
      books =
          Reach-trans (post_variance_if-Reach w (uuid n) note acc.variance b e₁)
            (post_return_if-Reach w (uuid (n + 1)) note acc.total_cost b₁ e₂);
    })

pub restock_for_credit_note_lines-Moves :
    (w : Caller) (uuid : ℕ → ℕ) (n : ℕ) (note : SalesInvoice) (ls : List SalesInvoiceLine)
    (original : Option ℕ) (t : SalesBook) (sb : Stock × Books) {sb' : Stock × Books}
    → restock_for_credit_note_lines w uuid n note ls original t sb ≡ ok sb'
    → Moves sb sb'
unfolding restock_for_credit_note_lines
restock_for_credit_note_lines-Moves w uuid n note ls original t sb {sb'} h =
    elim (Bool-cases w.has_inventory) [
      | inr without ↦ let same : sb ≡ sb' = ground arith in subst (Moves sb) same (Moves-refl sb)
      | inl has ↦
          let opened : (document_warehouse note.company_id (warehouse_of (find_invoice original t))
                  t.master
                >>= (λ found.
                    restock_at w uuid n note (moves_of_original note.company_id original sb.0) ls
                      t.master (location_of t.master found) sb))
              ≡ ok sb' =
            ground arith in
          let (found, e, h₁) =
            bind-eq-ok
              (document_warehouse note.company_id (warehouse_of (find_invoice original t)) t.master)
              _ opened in
          restock_at-Moves w uuid n note (moves_of_original note.company_id original sb.0) ls
            t.master (location_of t.master found) sb h₁
    ]
