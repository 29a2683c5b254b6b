-- ===== src/Sales/Lifecycle/Chain.antt =====
-- The tax authority's chain over any sequence of calls: a company's submissions count its documents
-- without a gap, and each holds the hash of the one before it.
use mathlib.Core.Path.{subst}
use alfahd_erp_system.Prelude.{
  if◌then◌else◌, ℕ, ◌+◌, ◌≡◌, refl, sym, ap, ◌∙◌, Bool, true, false, Option, some, List, [], ◌∷◌,
  ◌==◌, leb, arith, String, any, keep, length, Bool-cases, inl, inr,
}
use alfahd_erp_system.Zatca.Processor.{Toolkit, genesis_hash}
use alfahd_erp_system.Sales.Store.{SalesInvoice, ZatcaSubmission, SalesBook, has_sales_invoice_id}
use alfahd_erp_system.Sales.Lines.{InvoiceItem}
use alfahd_erp_system.Sales.Submission.{of_company, submits, later_of, latest, after as next_after}
use alfahd_erp_system.Sales.Effects.Chained.{IsHashed}
use alfahd_erp_system.Sales.Effects.Issued.{IsIssued, chain-new}
use alfahd_erp_system.Sales.Lifecycle.{SalesReach, opening, extended}
use alfahd_erp_system.Sales.Lifecycle.Effects.{Leaves, SalesStep-Leaves}

-- The submissions of a company's documents, the newest first.
abbrev pub chain_of : ℕ → SalesBook → List ZatcaSubmission
chain_of c b = keep (of_company c b.invoices) b.submissions

abbrev pub last_hash : Toolkit → List ZatcaSubmission → String
last_hash k [] = genesis_hash k
last_hash k (s ∷ ss) = s.invoice_hash

-- The n-th submission has the counter n, the hash of the one before it, or the genesis hash, and a hash
-- over that and its document.
abbrev pub IsChain : Toolkit → List ZatcaSubmission → Type 0
IsChain k [] = Unit
IsChain k (s ∷ ss) =
    (s.icv ≡ length ss + 1) × (s.previous_hash ≡ last_hash k ss) × IsHashed k s × IsChain k ss

-- The greatest counter is the newest one.
latest-newest :
    (k : Toolkit) (s : ZatcaSubmission) (ss : List ZatcaSubmission)
    → IsChain k (s ∷ ss)
    → latest (s ∷ ss) ≡ some s
latest-newest k s [] h = refl
latest-newest k s (t ∷ ss) h =
    let newest : latest (t ∷ ss) ≡ some t = latest-newest k t ss h.3 in
    let counted : t.icv ≡ length ss + 1 = h.3.0 in
    let later : leb t.icv s.icv ≡ true = ground (arith, h.0, counted) in
    let kept : later_of s (some t) ≡ s = rw later refl in
    ap (λ (y : Option ZatcaSubmission). some (later_of s y)) newest ∙ ap some kept

next-chain :
    (k : Toolkit) (ss : List ZatcaSubmission)
    → IsChain k ss
    → next_after k (latest ss) ≡ (length ss + 1, last_hash k ss)
next-chain k [] h = refl
next-chain k (s ∷ ss) h =
    let counted : s.icv ≡ length (s ∷ ss) = ground (arith, h.0) in
    ap (next_after k) (latest-newest k s ss h) ∙ ap (λ (n : ℕ). (n + 1, s.invoice_hash)) counted

-- An invoice of another company is in no chain of this one.
any-submits :
    (c i : ℕ) (is : List SalesInvoice) (s : ZatcaSubmission)
    → s.sales_invoice_id ≡ i
    → any (has_sales_invoice_id i) is ≡ false
    → any (submits s c) is ≡ false
any-submits c i [] s e h = refl
any-submits c i (v ∷ is) s e h =
    let other : (v.id == i) ≡ false = ground arith in
    let others : any (has_sales_invoice_id i) is ≡ false = ground arith in
    rw (e, other) (any-submits c i is s e others)

if-itself :
    (x : Bool) (ss ts : List ZatcaSubmission)
    → (if (if x then true else false) then ss else ts) ≡ (if x then ss else ts)
if-itself true ss ts = refl
if-itself false ss ts = refl

-- The chain of every company after one document more.
module _ (k : Toolkit) (b b' : SalesBook) (v : SalesInvoice) (s : ZatcaSubmission) where
  chain_of-issued :
      (c : ℕ)
      → IsIssued k b (v, s, b')
      → chain_of c b' ≡ (if v.company_id == c then s ∷ chain_of c b else chain_of c b)
  chain_of-issued c i =
      let old : keep (of_company c (v ∷ b.invoices)) b.submissions ≡ chain_of c b =
        chain-new c v b.invoices b.submissions i.submission_fresh in
      let none_other : any (submits s c) b.invoices ≡ false =
        any-submits c v.id b.invoices s i.owner i.invoice_fresh in
      let itself : (v.id == s.sales_invoice_id) ≡ true = ground (arith, i.owner) in
      let added : chain_of c b' ≡ (if submits s c v then s ∷ chain_of c b else chain_of c b) =
        rw (i.invoices, i.submissions, none_other, old) (if-itself (submits s c v) _ _) in
      added ∙ rw itself refl

  IsChain-issued :
      IsIssued k b (v, s, b')
      → ((c : ℕ) → IsChain k (chain_of c b))
      → (c : ℕ) → IsChain k (chain_of c b')
  IsChain-issued i h c = elim (Bool-cases (v.company_id == c)) [
    | inr other ↦
        subst (IsChain k)
          (sym (
            chain_of-issued c i
            ∙ ap (λ (x : Bool). if x then s ∷ chain_of c b else chain_of c b) other))
          (h c)
    | inl mine ↦
        let same : v.company_id ≡ c = ground arith in
        let next : ◌≡◌ {A = ℕ × String} (s.icv, s.previous_hash)
            (length (chain_of c b) + 1, last_hash k (chain_of c b)) =
          i.chained
          ∙ ap (λ (d : ℕ). next_after k (latest (chain_of d b))) same
          ∙ next-chain k (chain_of c b) (h c) in
        subst (IsChain k)
          (sym (
            chain_of-issued c i
            ∙ ap (λ (x : Bool). if x then s ∷ chain_of c b else chain_of c b) mine))
          (ap (λ (x : ℕ × String). x.0) next, ap (λ (x : ℕ × String). x.1) next, i.hash, h c)
  ]

module _ (k : Toolkit) (Asks : Option (List InvoiceItem) → Type 0) where
  Leaves-IsChain :
      (b b' : SalesBook)
      → Leaves k b b'
      → ((c : ℕ) → IsChain k (chain_of c b))
      → (c : ℕ) → IsChain k (chain_of c b')
  Leaves-IsChain b b' (inl kept) h c = rw (kept.invoices, kept.submissions) (h c)
  Leaves-IsChain b b' (inr (v, s, i)) h c = IsChain-issued k b b' v s i h c

  -- Along any sequence of committed calls of the sales services, whatever invoices ask for, the submissions
  -- of each company stay a chain: the counters are 1, 2, 3, … without a gap, the first holds the genesis
  -- hash and each other one the hash of the submission before it, and its own hash is over that and a
  -- document with its own counter.
  pub SalesReach-IsChain :
      (b b' : SalesBook)
      → SalesReach k Asks b b'
      → ((c : ℕ) → IsChain k (chain_of c b))
      → (c : ℕ) → IsChain k (chain_of c b')
  SalesReach-IsChain b _ opening h = h
  SalesReach-IsChain b b' (extended {b' = mid} reach step) h =
      Leaves-IsChain mid b' (SalesStep-Leaves k Asks mid b' step) (SalesReach-IsChain b mid reach h)
