-- ===== src/Payments/Posting.antt =====
-- A payment's journal entry: what it does to the balance of every account.
use mathlib.Core.Path.{subst}
use text.Mathlib.Text.{◌==◌ as str_eq}
use alfahd_erp_system.Prelude.{
  ℕ, ◌<◌, ◌&&◌, Bool, true, false, List, map, ◌==◌, if◌then◌else◌, ◌≡◌, refl, sym, ◌∙◌, ap, none,
  some, ℤ, pos, ◌+ℤ◌, ◌-ℤ◌, sum_of, ok, arith, int_laws, Bool-cases, Result-cases, inl, inr, String,
}
use alfahd_erp_system.Accounting.Entities.{DomainLine}
use alfahd_erp_system.Accounting.Store.{
  Account, JournalEntry, Books, get_account_by_code, get_entry, get_lines, set_entry_id,
}
use alfahd_erp_system.Accounting.Entries.{
  Draft, create_draft_entry, post_entry, orm_entry, orm_line,
}
use alfahd_erp_system.Accounting.Entries.Balance.{
  IsConsistent, create_draft_entry-eq-ok, create_draft_entry-IsConsistent, add_entry-eq-ok,
  lines_of-add_self, post_init_all_lem,
}
use alfahd_erp_system.Accounting.Ledger.{on_account, account_balance_by_id}
use alfahd_erp_system.Accounting.Ledger.Sums.{net_of}
use alfahd_erp_system.Accounting.Ledger.Effects.{
  amount_in, balance-create_draft_entry, balance-post_entry,
}
use alfahd_erp_system.Payments.Store.{Payment, PaymentAllocation, Treasury, next_number}
use alfahd_erp_system.Payments.Recording.{
  PaymentRequest, Wiring, new_payment, add_payment, payment_lines, payment_draft, customer_lines,
  vendor_lines, post_journal_entry, record_payment,
}
use alfahd_erp_system.Payments.Limits.{record_payment-Recorded}

-- A draft that was created is found, with the lines it was given.
pub record Created (d : Draft) (r : JournalEntry × Books) : Type 0 where
  pub journal : ℕ
  pub entry : r.0 ≡ orm_entry d journal
  pub found : get_entry r.0.id r.1 ≡ some r.0
  pub lines :
      get_lines r.0.id r.1
      ≡ map (set_entry_id d.new_id) (map (orm_line d.company_id d.new_id) d.lines)

pub create_draft_entry-Created :
    (d : Draft) (b : Books) {r : JournalEntry × Books}
    → IsConsistent b
    → create_draft_entry d b ≡ ok r
    → Created d r
unfolding get_entry get_lines
create_draft_entry-Created d b {r} h eq =
    let (j, ls, p, _, _, added) = create_draft_entry-eq-ok d b eq in
    let (same, _) = post_init_all_lem d.lines p in
    let (fresh, done) =
      add_entry-eq-ok (orm_entry d j) (map (orm_line d.company_id d.new_id) ls) b added in
    let stored =
      lines_of-add_self (orm_entry d j) (map (orm_line d.company_id d.new_id) ls) b h fresh in
    record {
      journal = j;
      entry = rw done refl;
      found = rw done (ground arith);
      lines = rw done (
          stored
          ∙ ap
              (λ (xs : List DomainLine).
                map (set_entry_id d.new_id) (map (orm_line d.company_id d.new_id) xs))
              same);
    }

-- The account that a payment is settled against, by its code, and what comes in on the bank's side.
abbrev pub settled_code : String → String
settled_code kind = if str_eq kind "customer" then "1200" else "2100"

abbrev pub comes_in : String → ℤ → ℤ
comes_in kind amount = if str_eq kind "customer" then amount else pos 0 -ℤ amount

abbrev pub if_account : ℕ → ℕ → ℤ → ℤ
if_account i a amount = if i == a then amount else pos 0

two_lines :
    (s t : Bool) (m : ℤ)
    → (if s && true then m -ℤ pos 0 else pos 0)
        +ℤ ((if t && true then pos 0 -ℤ m else pos 0) +ℤ pos 0)
      ≡ (if s then m else pos 0) -ℤ (if t then m else pos 0)
two_lines true true m = omega int_laws
two_lines true false m = omega int_laws
two_lines false true m = omega int_laws
two_lines false false m = omega int_laws

two_lines_out :
    (s t : Bool) (m : ℤ)
    → (if s && true then m -ℤ pos 0 else pos 0)
        +ℤ ((if t && true then pos 0 -ℤ m else pos 0) +ℤ pos 0)
      ≡ (if t then pos 0 -ℤ m else pos 0) -ℤ (if s then pos 0 -ℤ m else pos 0)
two_lines_out true true m = omega int_laws
two_lines_out true false m = omega int_laws
two_lines_out false true m = omega int_laws
two_lines_out false false m = omega int_laws

-- What the lines of a payment come to on an account.
lines_amount :
    (p : Payment) (b : Books) (a : ℕ) (x : Account) {ls : List DomainLine}
    → get_account_by_code p.company_id (settled_code p.payment_type) b ≡ some x
    → payment_lines p b ≡ ok ls
    → (c i j : ℕ)
    → sum_of (net_of (on_account a none)) (map (set_entry_id i) (map (orm_line c j) ls))
      ≡ if_account p.account_id a (comes_in p.payment_type p.amount)
        -ℤ if_account x.id a (comes_in p.payment_type p.amount)
unfolding payment_lines
lines_amount p b a x {ls} found eq c i j = elim (Bool-cases (str_eq p.payment_type "customer")) [
  | inl customer ↦
      let same : ls ≡ customer_lines p x.id = ground arith in
      rw (same, customer) (two_lines (p.account_id == a) (x.id == a) p.amount)
  | inr vendor ↦
      let same : ls ≡ vendor_lines p x.id = ground arith in
      rw (same, vendor) (two_lines_out (x.id == a) (p.account_id == a) p.amount)
]

post_journal_entry-balance :
    (checks : Bool) (entry_id now a as_of : ℕ) (p : Payment) (b : Books) (x : Account)
    {e : JournalEntry} {b' : Books}
    → IsConsistent b
    → get_account_by_code p.company_id (settled_code p.payment_type) b ≡ some x
    → p.payment_date < as_of
    → post_journal_entry checks entry_id now p b ≡ ok (e, b')
    → account_balance_by_id p.company_id a as_of none none b'
      ≡ account_balance_by_id p.company_id a as_of none none b
        +ℤ (if_account p.account_id a (comes_in p.payment_type p.amount)
            -ℤ if_account x.id a (comes_in p.payment_type p.amount))
unfolding post_journal_entry
post_journal_entry-balance checks entry_id now a as_of p b x {e} {b'} k found due h =
    elim (Result-cases (payment_lines p b)) [
      | inr (z, l) ↦ ground arith
      | inl (ls, l) ↦
          let d = payment_draft checks entry_id p ls in
          elim (Result-cases (create_draft_entry d b)) [
            | inr (z, c) ↦ ground arith
            | inl ((dr, mid), c) ↦ elim (Result-cases (post_entry dr.id p.company_id now mid)) [
              | inr (z, q) ↦ ground arith
              | inl ((z, last), q) ↦
                  let same : last ≡ b' = ground arith in
                  let made = create_draft_entry-Created d b k c in
                  let entry = made.entry in
                  let dated : amount_in p.company_id a as_of none none dr (get_lines dr.id mid)
                      ≡ sum_of (net_of (on_account a none)) (get_lines dr.id mid) =
                    rw entry (ground arith) in
                  ap (account_balance_by_id p.company_id a as_of none none) (sym same)
                  ∙ balance-post_entry p.company_id a as_of none none dr.id p.company_id now mid
                      (create_draft_entry-IsConsistent d b k c) made.found q
                  ∙ ap
                      (λ (n : ℤ).
                        n +ℤ amount_in p.company_id a as_of none none dr (get_lines dr.id mid))
                      (balance-create_draft_entry p.company_id a as_of none none d b k c)
                  ∙ ap (λ (n : ℤ). account_balance_by_id p.company_id a as_of none none b +ℤ n)
                      (dated
                        ∙ ap (sum_of (net_of (on_account a none))) made.lines
                        ∙ lines_amount p b a x found l p.company_id entry_id entry_id)
            ]
          ]
    ]

add_payment-books :
    (p : Payment) (xs : List PaymentAllocation) (t t' : Treasury)
    → add_payment p xs t ≡ ok t'
    → t'.books ≡ t.books
unfolding add_payment
add_payment-books p xs t t' h = ground arith

-- Over consistent books, a recorded payment changes the balance of every account of the company, seen
-- from any day after the payment's date, by exactly its two postings. A customer's payment adds its amount
-- to the cash or bank account that it names and takes it off the receivable account 1200; a payment to a
-- vendor takes it off the account that it names and adds it to the payable account 2100.
pub record_payment_posts :
    (w : Wiring) (r : PaymentRequest) (t : Treasury) (a as_of : ℕ) (x : Account) {p : Payment}
    {t' : Treasury}
    → IsConsistent t.books
    → get_account_by_code r.company_id (settled_code r.payment_type) t.books ≡ some x
    → r.payment_date < as_of
    → record_payment w r t ≡ ok (p, t')
    → account_balance_by_id r.company_id a as_of none none t'.books
      ≡ account_balance_by_id r.company_id a as_of none none t.books
        +ℤ (if_account r.account_id a (comes_in r.payment_type r.amount)
            -ℤ if_account x.id a (comes_in r.payment_type r.amount))
record_payment_posts w r t a as_of x {p} {t'} k found due h =
    let d = record_payment-Recorded w r t h in
    let q = new_payment r (next_number r.company_id r.payment_type t) in
    let same : d.added.books ≡ t.books = add_payment-books q d.prepared t d.added d.is_added in
    ap (account_balance_by_id r.company_id a as_of none none) d.leaves
    ∙ post_journal_entry-balance w.checks_cost_centers r.entry_id r.now a as_of q d.added.books x
        (subst IsConsistent (sym same) k)
        (ap (get_account_by_code r.company_id (settled_code r.payment_type)) same ∙ found) due
        d.is_posted
    ∙ ap
        (λ (b : Books).
          account_balance_by_id r.company_id a as_of none none b
          +ℤ (if_account r.account_id a (comes_in r.payment_type r.amount)
              -ℤ if_account x.id a (comes_in r.payment_type r.amount)))
        same
