-- ===== src/Accounting/Moving/History.antt =====
-- The chart over any sequence of creations, deletions and edits that move no account.
use mathlib.Core.Path.{subst}
use alfahd_erp_system.Prelude.{
  ℕ, ◌≡◌, refl, ap, ◌∙◌, not, Option, none, some, List, [], ◌∷◌, ◌==◌, arith, any, find?, All, ok,
  Bool-cases, inl, inr, bind-eq-ok, raise_if-eq-ok, or_raise-eq-ok,
}
use alfahd_erp_system.Accounting.Store.{
  Account, Books, get_account, get_account_by_code, has_account_id, is_none,
}
use alfahd_erp_system.Accounting.Chart.{
  AccountIn, create_account, delete_account, replace_account, require_own, read_account_type,
  has_children, promote, promote_parent, has_id, new_account, level_under, has_transactions,
}
use alfahd_erp_system.Accounting.Chart.Levels.{
  IsPlaced, IsLeveled, create_account-IsLeveled, delete_account-IsLeveled,
}
use alfahd_erp_system.Accounting.Moving.{AccountChange, change_fields, move_if, update_account}
use alfahd_erp_system.Accounting.Moving.Edits.{
  change_fields-IsSamePlace, level_in-edited, All-edited, found-IsRowOf, IsDistinct-edited,
}
use alfahd_erp_system.Accounting.Lifecycle.Invariant.{IsDistinctAccounts}

-- Levels and distinct ids.
abbrev pub IsOrdered : Books → Type 0
IsOrdered b = IsLeveled b × IsDistinctAccounts b.accounts

any-promote :
    (i p : ℕ) (t : List Account) → any (λ y. y.id == i) (promote p t) ≡ any (λ y. y.id == i) t
any-promote i p [] = refl
any-promote i p (a ∷ t) = ground (arith, any-promote i p t)

IsDistinct-promote :
    (p : Option ℕ) (t : List Account)
    → IsDistinctAccounts t
    → IsDistinctAccounts (promote_parent p t)
IsDistinct-promote none t d = d
IsDistinct-promote (some p) [] d = tt
IsDistinct-promote (some p) (a ∷ t) d = elim (Bool-cases (a.id == p)) [
  | inl this ↦ rw this (any-promote a.id p t ∙ d.0, IsDistinct-promote (some p) t d.1)
  | inr other ↦ rw other (any-promote a.id p t ∙ d.0, IsDistinct-promote (some p) t d.1)
]

create_account-IsOrdered :
    (d : AccountIn) (b b' : Books) {a : Account}
    → create_account d b ≡ ok (a, b')
    → IsOrdered b
    → IsOrdered b'
unfolding create_account
create_account-IsOrdered d b b' h (placed, distinct) =
    let (kind, ek, h₁) = or_raise-eq-ok (read_account_type d.account_type_code) _ _ h in
    let (unused, h₂) =
      raise_if-eq-ok (not (is_none (get_account_by_code d.company_id d.code b))) _ _ h₁ in
    let (level, el, h₃) = bind-eq-ok (level_under d.parent_id d.company_id b) _ h₂ in
    let (fresh, h₄) = raise_if-eq-ok (any (has_id d.id) b.accounts) _ _ h₃ in
    let new = new_account d kind level in
    let whole : promote_parent d.parent_id (new ∷ b.accounts) ≡ b'.accounts = ground arith in
    (
      create_account-IsLeveled d b b' h placed,
      subst IsDistinctAccounts whole
          (IsDistinct-promote d.parent_id (new ∷ b.accounts) (fresh, distinct)),
    )

delete_account-IsOrdered :
    (i c now : ℕ) (b b' : Books) → delete_account i c now b ≡ ok b' → IsOrdered b → IsOrdered b'
unfolding delete_account
delete_account-IsOrdered i c now b b' h (placed, distinct) =
    let (a, ea, h₁) = bind-eq-ok (require_own i c b) _ h in
    let (childless, h₂) = raise_if-eq-ok (has_children a.id b) _ _ h₁ in
    let (unposted, h₃) = raise_if-eq-ok (has_transactions a.id b) _ _ h₂ in
    let gone = record a { deleted_at = some now } in
    let whole : replace_account gone b.accounts ≡ b'.accounts = ground arith in
    (
      delete_account-IsLeveled i c now b b' h placed,
      subst IsDistinctAccounts whole (IsDistinct-edited gone b.accounts distinct),
    )

update_account-IsOrdered :
    (fuel : ℕ) (d : AccountChange) (i c : ℕ) (b b' : Books) {a : Account}
    → d.parent_id ≡ none
    → update_account fuel d i c b ≡ ok (a, b')
    → IsOrdered b
    → IsOrdered b'
unfolding update_account move_if require_own get_account
update_account-IsOrdered fuel d i c b b' still h (placed, distinct) =
    let (a, ea, h₁) = bind-eq-ok (require_own i c b) _ h in
    let (found, ef, e₁) = or_raise-eq-ok (get_account i b) _ _ ea in
    let (own, e₂) = raise_if-eq-ok (not (found.company_id == c)) _ _ e₁ in
    let (a', ex, h₂) = bind-eq-ok (change_fields d c a b) _ h₁ in
    let same : found ≡ a = ground arith in
    let row : find? (has_account_id i) b.accounts ≡ some a = ef ∙ ap some same in
    let place = change_fields-IsSamePlace d c a b ex in
    let rows = found-IsRowOf i a a' b.accounts distinct row place in
    let whole : replace_account a' b.accounts ≡ b'.accounts = ground (arith, still) in
    subst (λ (t : List Account). All (IsPlaced t) t × IsDistinctAccounts t) whole
      (
        All-edited a' b.accounts (replace_account a' b.accounts) b.accounts
            (λ j. level_in-edited j a' b.accounts rows) rows placed,
        IsDistinct-edited a' b.accounts distinct,
      )

-- One committed call that moves no account.
pub data ChartStep (b b' : Books) : Type 0 where
  creates_account : (d : AccountIn) (a : Account) → create_account d b ≡ ok (a, b') → ChartStep b b'
  deletes_account : (i c now : ℕ) → delete_account i c now b ≡ ok b' → ChartStep b b'
  edits_account :
      (fuel : ℕ) (d : AccountChange) (i c : ℕ) (a : Account)
      → d.parent_id ≡ none
      → update_account fuel d i c b ≡ ok (a, b')
      → ChartStep b b'

pub data ChartReach (b : Books) : Books → Type 0 where
  untouched : ChartReach b b
  charted : {b' b'' : Books} → ChartReach b b' → ChartStep b' b'' → ChartReach b b''

ChartStep-IsOrdered : (b b' : Books) → ChartStep b b' → IsOrdered b → IsOrdered b'
ChartStep-IsOrdered b b' (creates_account d a e) h = create_account-IsOrdered d b b' e h
ChartStep-IsOrdered b b' (deletes_account i c now e) h = delete_account-IsOrdered i c now b b' e h
ChartStep-IsOrdered b b' (edits_account fuel d i c a still e) h =
    update_account-IsOrdered fuel d i c b b' still e h

-- Along any sequence of committed creations, deletions and edits that move no account, ids stay distinct
-- and every account that is not deleted keeps a level from 1 to 4, which is 1 without a parent and else
-- one more than that of its parent, which is in the chart.
pub ChartReach-IsOrdered : (b b' : Books) → ChartReach b b' → IsOrdered b → IsOrdered b'
ChartReach-IsOrdered b _ untouched h = h
ChartReach-IsOrdered b b' (charted {b' = mid} reach step) h =
    ChartStep-IsOrdered mid b' step (ChartReach-IsOrdered b mid reach h)
