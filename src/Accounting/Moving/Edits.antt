-- ===== src/Accounting/Moving/Edits.antt =====
-- An edit that moves no account leaves every level as it is.
use mathlib.Core.Path.{subst}
use text.Mathlib.Text.{◌==◌ as str_eq}
use alfahd_erp_system.Prelude.{
  ℕ, ◌≡◌, refl, sym, ap, ◌∙◌, Bool, true, false, not, ◌&&◌, String, Option, none, some, List, [],
  ◌∷◌, ◌==◌, arith, any, find?, All, ok, Bool-cases, inl, inr, bind-eq-ok, raise_if-eq-ok,
  or_raise-eq-ok,
}
use alfahd_erp_system.Accounting.Store.{
  Account, Books, get_account_by_code, has_account_id, is_none,
}
use alfahd_erp_system.Accounting.Chart.{replace_account, read_account_type, has_children}
use alfahd_erp_system.Accounting.Chart.Levels.{level_in, IsPlaced, IsPlaced-of}
use alfahd_erp_system.Accounting.Moving.{
  AccountChange, change_code, change_type, change_group, change_fields, is_another,
}
use alfahd_erp_system.Accounting.Lifecycle.Invariant.{IsDistinctAccounts}

-- The row's place in the tree is the same.
pub record IsSamePlace (a x : Account) : Type 0 where
  id : x.id ≡ a.id
  parent : x.parent_id ≡ a.parent_id
  level : x.level ≡ a.level
  deleted : x.deleted_at ≡ a.deleted_at

change_code-IsSamePlace :
    (code : Option String) (c : ℕ) (a : Account) (b : Books) {x : Account}
    → change_code code c a b ≡ ok x
    → IsSamePlace a x
unfolding change_code
change_code-IsSamePlace none c a b h = record {
  id = ground arith;
  parent = ground arith;
  level = ground arith;
  deleted = ground arith;
}
change_code-IsSamePlace (some code) c a b h = elim (Bool-cases (str_eq code a.code)) [
  | inl same ↦ record {
    id = ground arith;
    parent = ground arith;
    level = ground arith;
    deleted = ground arith;
  }
  | inr new ↦
      let (unused, h₁) =
        raise_if-eq-ok (is_another a.id (get_account_by_code c code b)) _ _ (rw new at h) in
      record {
        id = ground arith;
        parent = ground arith;
        level = ground arith;
        deleted = ground arith;
      }
]

change_type-IsSamePlace :
    (code : Option String) (a : Account) {x : Account} → change_type code a ≡ ok x → IsSamePlace a x
unfolding change_type
change_type-IsSamePlace none a h = record {
  id = ground arith;
  parent = ground arith;
  level = ground arith;
  deleted = ground arith;
}
change_type-IsSamePlace (some code) a h =
    let (kind, e, h₁) = or_raise-eq-ok (read_account_type code) _ _ h in
    record {
      id = ground arith;
      parent = ground arith;
      level = ground arith;
      deleted = ground arith;
    }

change_group-IsSamePlace :
    (flag : Option Bool) (a : Account) (b : Books) {x : Account}
    → change_group flag a b ≡ ok x
    → IsSamePlace a x
unfolding change_group
change_group-IsSamePlace none a b h = record {
  id = ground arith;
  parent = ground arith;
  level = ground arith;
  deleted = ground arith;
}
change_group-IsSamePlace (some flag) a b h =
    let (fine, h₁) = raise_if-eq-ok (not flag && has_children a.id b) _ _ h in
    record {
      id = ground arith;
      parent = ground arith;
      level = ground arith;
      deleted = ground arith;
    }

pub change_fields-IsSamePlace :
    (d : AccountChange) (c : ℕ) (a : Account) (b : Books) {x : Account}
    → change_fields d c a b ≡ ok x
    → IsSamePlace a x
unfolding change_fields
change_fields-IsSamePlace d c a b h =
    let (coded, e, h₁) = bind-eq-ok (change_code d.code c a b) _ h in
    let (typed, e₁, h₂) = bind-eq-ok (change_type d.account_type_code _) _ h₁ in
    let p = change_code-IsSamePlace d.code c a b e in
    let q = change_type-IsSamePlace d.account_type_code _ e₁ in
    let r = change_group-IsSamePlace d.is_group _ b h₂ in
    record {
      id = r.id ∙ q.id ∙ p.id;
      parent = r.parent ∙ q.parent ∙ p.parent;
      level = r.level ∙ q.level ∙ p.level;
      deleted = r.deleted ∙ q.deleted ∙ p.deleted;
    }

-- Every row with the id is in the place of the row.
abbrev pub IsRowOf : Account → Account → Type 0
IsRowOf x a = (a.id == x.id) ≡ true → IsSamePlace a x

level_in-cons :
    (j : ℕ) (a x : Account) (t u : List Account)
    → has_account_id j x ≡ has_account_id j a
    → x.level ≡ a.level
    → level_in j u ≡ level_in j t
    → level_in j (x ∷ u) ≡ level_in j (a ∷ t)
level_in-cons j a x t u same level rest = elim (Bool-cases (has_account_id j a)) [
  | inl found ↦ rw (found, same ∙ found) (ap some level)
  | inr other ↦ rw (other, same ∙ other) rest
]

pub level_in-edited :
    (j : ℕ) (x : Account) (t : List Account)
    → All (IsRowOf x) t
    → level_in j (replace_account x t) ≡ level_in j t
level_in-edited j x [] h = refl
level_in-edited j x (a ∷ t) h =
    let rest = level_in-edited j x t h.1 in
    elim (Bool-cases (a.id == x.id)) [
      | inr other ↦ rw other (level_in-cons j a a t (replace_account x t) refl refl rest)
      | inl this ↦
          let s = h.0 this in
          let same : has_account_id j x ≡ has_account_id j a = rw (s.id, s.deleted) refl in
          rw this (level_in-cons j a x t (replace_account x t) same s.level rest)
    ]

pub All-edited :
    (x : Account) (t u rows : List Account)
    → ((j : ℕ) → level_in j u ≡ level_in j t)
    → All (IsRowOf x) rows
    → All (IsPlaced t) rows
    → All (IsPlaced u) (replace_account x rows)
All-edited x t u [] same r h = tt
All-edited x t u (a ∷ rows) same r h =
    let rest = All-edited x t u rows same r.1 h.1 in
    let kept : IsPlaced u a = IsPlaced-of t u a (λ i l e. same i ∙ e) h.0 in
    elim (Bool-cases (a.id == x.id)) [
      | inr other ↦ rw other (kept, rest)
      | inl this ↦
          let s = r.0 this in
          rw this (λ live. rw (s.parent, s.level) (kept (ap is_none (sym s.deleted) ∙ live)), rest)
    ]

-- Under distinct ids, the row of the account is the only one with its id.
absent-IsRowOf :
    (x : Account) (t : List Account) → any (λ y. y.id == x.id) t ≡ false → All (IsRowOf x) t
absent-IsRowOf x [] h = tt
absent-IsRowOf x (a ∷ t) h = (λ this. absurd (ground arith), absent-IsRowOf x t (ground arith))

absent-found :
    (i k : ℕ) (t : List Account) {a : Account}
    → any (λ y. y.id == k) t ≡ false
    → find? (has_account_id i) t ≡ some a
    → (a.id == k) ≡ false
absent-found i k [] n f = absurd (ground arith)
absent-found i k (y ∷ t) {a} n f = elim (Bool-cases (has_account_id i y)) [
  | inl this ↦ ground arith
  | inr other ↦ absent-found i k t {a = a} (ground arith) (ground arith)
]

pub found-IsRowOf :
    (i : ℕ) (a x : Account) (t : List Account)
    → IsDistinctAccounts t
    → find? (has_account_id i) t ≡ some a
    → IsSamePlace a x
    → All (IsRowOf x) t
found-IsRowOf i a x [] d f s = absurd (ground arith)
found-IsRowOf i a x (y ∷ t) d f s = elim (Bool-cases (has_account_id i y)) [
  | inl this ↦
      let same : y ≡ a = ground arith in
      let id : x.id ≡ y.id = s.id ∙ ap (λ (z : Account). z.id) (sym same) in
      (λ e. subst (λ (z : Account). IsSamePlace z x) (sym same) s, absent-IsRowOf x t (rw id d.0))
  | inr other ↦
      let later : find? (has_account_id i) t ≡ some a = ground arith in
      let apart : (a.id == y.id) ≡ false = absent-found i y.id t d.0 later in
      (λ e. absurd (ground (arith, s.id)), found-IsRowOf i a x t d.1 later s)
]

any-edited :
    (i : ℕ) (x : Account) (t : List Account)
    → any (λ y. y.id == i) (replace_account x t) ≡ any (λ y. y.id == i) t
any-edited i x [] = refl
any-edited i x (a ∷ t) = ground (arith, any-edited i x t)

pub IsDistinct-edited :
    (x : Account) (t : List Account)
    → IsDistinctAccounts t
    → IsDistinctAccounts (replace_account x t)
IsDistinct-edited x [] d = tt
IsDistinct-edited x (a ∷ t) d = elim (Bool-cases (a.id == x.id)) [
  | inl this ↦
      let same : a.id ≡ x.id = ground arith in
      rw this (
        any-edited x.id x t ∙ subst (λ (i : ℕ). any (λ y. y.id == i) t ≡ false) same d.0,
        IsDistinct-edited x t d.1,
      )
  | inr other ↦ rw other (any-edited a.id x t ∙ d.0, IsDistinct-edited x t d.1)
]
