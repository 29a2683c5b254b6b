-- ===== src/Accounting/Chart/Levels.antt =====
-- The levels of the chart: an account stands one level below its parent, none below the fourth.
use mathlib.Core.Path.{subst}
use alfahd_erp_system.Prelude.{
  ℕ, ◌+◌, ◌≤◌, ◌≡◌, refl, sym, ap, ◌∙◌, true, false, Option, none, some, List, [], ◌∷◌, ◌==◌, arith,
  any, find?, All, ok, Bool-cases, inl, inr, bind-eq-ok, raise_if-eq-ok, or_raise-eq-ok, not, ltb,
}
use alfahd_erp_system.Accounting.Store.{
  Account, Books, get_account, has_account_id, is_none, get_account_by_code,
}
use alfahd_erp_system.Accounting.Chart.{
  AccountIn, is_child, names_parent, has_children, replace_account, promote, promote_parent,
  require_parent, level_under, new_account, has_id, create_account, require_own, delete_account,
  read_account_type, has_transactions, max_account_level,
}

-- The level of the account that an id finds.
abbrev pub level_found : Option Account → Option ℕ
level_found none = none
level_found (some a) = some a.level

abbrev pub level_in : ℕ → List Account → Option ℕ
level_in i as' = level_found (find? (has_account_id i) as')

abbrev pub IsUnder : List Account → Option ℕ → ℕ → Type 0
IsUnder t none level = level ≡ 1
IsUnder t (some p) level = (above : ℕ) × (level_in p t ≡ some above) × (level ≡ above + 1)

-- A row that is not deleted has a level from 1 to 4 and stands right below its parent.
abbrev pub IsPlaced : List Account → Account → Type 0
IsPlaced t a =
    is_none a.deleted_at ≡ true → (1 ≤ a.level) × (a.level ≤ 4) × IsUnder t a.parent_id a.level

abbrev pub IsLeveled : Books → Type 0
IsLeveled b = All (IsPlaced b.accounts) b.accounts

level_in-promote : (i p : ℕ) (t : List Account) → level_in i (promote p t) ≡ level_in i t
level_in-promote i p [] = refl
level_in-promote i p (x ∷ xs) = ground (arith, level_in-promote i p xs)

level_in-promote_parent :
    (i : ℕ) (p : Option ℕ) (t : List Account) → level_in i (promote_parent p t) ≡ level_in i t
level_in-promote_parent i none t = refl
level_in-promote_parent i (some p) t = level_in-promote i p t

level_in-absent : (i : ℕ) (t : List Account) → any (has_id i) t ≡ false → level_in i t ≡ none
level_in-absent i [] h = refl
level_in-absent i (x ∷ xs) h = ground (arith, level_in-absent i xs)

-- A new row with an id of its own hides no other row.
level_in-added :
    (i : ℕ) (a : Account) (t : List Account) {level : ℕ}
    → any (has_id a.id) t ≡ false
    → level_in i t ≡ some level
    → level_in i (a ∷ t) ≡ some level
level_in-added i a t fresh h = elim (Bool-cases (a.id == i)) [
  | inl this ↦
      let same : a.id ≡ i = ground arith in
      let gone : level_in i t ≡ none = level_in-absent i t (rw same at fresh) in
      absurd (ground arith)
  | inr other ↦ rw other h
]

IsUnder-of :
    (t u : List Account) (p : Option ℕ) (level : ℕ)
    → ((i l : ℕ) → level_in i t ≡ some l → level_in i u ≡ some l)
    → IsUnder t p level
    → IsUnder u p level
IsUnder-of t u none level f h = h
IsUnder-of t u (some p) level f (above, found, below) = (above, f p above found, below)

pub IsPlaced-of :
    (t u : List Account) (a : Account)
    → ((i l : ℕ) → level_in i t ≡ some l → level_in i u ≡ some l)
    → IsPlaced t a
    → IsPlaced u a
IsPlaced-of t u a f h live =
    let (low, high, under) = h live in (low, high, IsUnder-of t u a.parent_id a.level f under)

All-IsPlaced :
    (t u rows : List Account)
    → ((i l : ℕ) → level_in i t ≡ some l → level_in i u ≡ some l)
    → All (IsPlaced t) rows
    → All (IsPlaced u) rows
All-IsPlaced t u [] f h = tt
All-IsPlaced t u (x ∷ xs) f h = (IsPlaced-of t u x f h.0, All-IsPlaced t u xs f h.1)

All-promote :
    (t : List Account) (p : ℕ) (rows : List Account)
    → All (IsPlaced t) rows
    → All (IsPlaced t) (promote p rows)
All-promote t p [] h = tt
All-promote t p (x ∷ xs) h = elim (Bool-cases (x.id == p)) [
  | inl this ↦ rw this (h.0, All-promote t p xs h.1)
  | inr other ↦ rw other (h.0, All-promote t p xs h.1)
]

All-promote_parent :
    (t : List Account) (p : Option ℕ) (rows : List Account)
    → All (IsPlaced t) rows
    → All (IsPlaced t) (promote_parent p rows)
All-promote_parent t none rows h = h
All-promote_parent t (some p) rows h = All-promote t p rows h

level_under-IsUnder :
    (p : Option ℕ) (c : ℕ) (b : Books) {level : ℕ}
    → level_under p c b ≡ ok level
    → (1 ≤ level) × (level ≤ 4) × IsUnder b.accounts p level
unfolding level_under require_parent get_account
level_under-IsUnder none c b {level} h =
    let one : 1 ≡ level = ground arith in (ground arith, ground arith, sym one)
level_under-IsUnder (some p) c b h =
    let (parent, e, h₁) = bind-eq-ok (require_parent p c b) _ h in
    let (found, own, e₁) = or_raise-eq-ok (get_account p b) _ _ e in
    let (company, e₂) = raise_if-eq-ok (not (found.company_id == c)) _ _ e₁ in
    let (shallow, h₂) = raise_if-eq-ok (ltb max_account_level (parent.level + 1)) _ _ h₁ in
    let same : found ≡ parent = ground arith in
    (
      ground arith,
      ground arith,
      (parent.level, ap level_found own ∙ ap (λ (a : Account). some a.level) same, ground arith),
    )

pub create_account-IsLeveled :
    (d : AccountIn) (b b' : Books) {a : Account}
    → create_account d b ≡ ok (a, b')
    → IsLeveled b
    → IsLeveled b'
unfolding create_account
create_account-IsLeveled d b b' h placed =
    let (kind, ek, h₁) = or_raise-eq-ok (read_account_type d.account_type_code) _ _ h in
    let (unused, h₂) =
      raise_if-eq-ok (not (is_none (get_account_by_code d.company_id d.code b))) _ _ h₁ in
    let (level, el, h₃) = bind-eq-ok (level_under d.parent_id d.company_id b) _ h₂ in
    let (fresh, h₄) = raise_if-eq-ok (any (has_id d.id) b.accounts) _ _ h₃ in
    let new = new_account d kind level in
    let t = new ∷ b.accounts in
    let u = promote_parent d.parent_id t in
    let grows : (i l : ℕ) → level_in i b.accounts ≡ some l → level_in i u ≡ some l =
      λ i l e. level_in-promote_parent i d.parent_id t ∙ level_in-added i new b.accounts fresh e in
    let (low, high, under) = level_under-IsUnder d.parent_id d.company_id b el in
    let whole : u ≡ b'.accounts = ground arith in
    subst (λ (x : List Account). All (IsPlaced x) x) whole
      (All-promote_parent u d.parent_id t (
        λ live. (low, high, IsUnder-of b.accounts u d.parent_id level grows under),
        All-IsPlaced b.accounts u b.accounts grows placed,
      ))

level_in-replaced :
    (j : ℕ) (a : Account) (t : List Account)
    → (a.id == j) ≡ false
    → level_in j (replace_account a t) ≡ level_in j t
level_in-replaced j a [] h = refl
level_in-replaced j a (x ∷ xs) h = ground (arith, level_in-replaced j a xs)

-- A row that stands under another account than the deleted one keeps its place.
IsUnder-deleted :
    (a : Account) (t : List Account) (p : Option ℕ) (level : ℕ)
    → names_parent a.id p ≡ false
    → IsUnder t p level
    → IsUnder (replace_account a t) p level
IsUnder-deleted a t none level h under = under
IsUnder-deleted a t (some p) level h (above, found, below) =
    let other : (a.id == p) ≡ false = ground arith in
    (above, level_in-replaced p a t other ∙ found, below)

All-deleted :
    (a : Account) (t rows : List Account)
    → is_none a.deleted_at ≡ false
    → any (is_child a.id) rows ≡ false
    → All (IsPlaced t) rows
    → All (IsPlaced (replace_account a t)) (replace_account a rows)
All-deleted a t [] dead childless h = tt
All-deleted a t (x ∷ xs) dead childless h =
    let rest = All-deleted a t xs dead (ground arith) h.1 in
    elim (Bool-cases (x.id == a.id)) [
      | inl this ↦ rw this (λ live. absurd (ground arith), rest)
      | inr other ↦ rw other (
        λ live.
            let (low, high, under) = h.0 live in
            let apart : names_parent a.id x.parent_id ≡ false = ground arith in
            (low, high, IsUnder-deleted a t x.parent_id x.level apart under),
        rest,
      )
    ]

pub delete_account-IsLeveled :
    (i c now : ℕ) (b b' : Books) → delete_account i c now b ≡ ok b' → IsLeveled b → IsLeveled b'
unfolding delete_account has_children
delete_account-IsLeveled i c now b b' h placed =
    let (a, ea, h₁) = bind-eq-ok (require_own i c b) _ h in
    let (childless, h₂) = raise_if-eq-ok (has_children a.id b) _ _ h₁ in
    let (unposted, h₃) = raise_if-eq-ok (has_transactions a.id b) _ _ h₂ in
    let gone = record a { deleted_at = some now } in
    let whole : replace_account gone b.accounts ≡ b'.accounts = ground arith in
    subst (λ (x : List Account). All (IsPlaced x) x) whole
      (All-deleted gone b.accounts b.accounts refl childless placed)
