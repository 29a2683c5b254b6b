-- ===== src/Accounting/Moving.antt =====
-- `update_account` of `ChartOfAccountsService` (backend/src/modules/accounting/application/services.py): an
-- account is edited, and moved with the accounts below it.
pub mod Depth
pub mod Walks
pub mod Edits
pub mod History
use text.Mathlib.Text.{◌==◌ as str_eq}
use alfahd_erp_system.Prelude.{
  ℕ, zero, suc, ◌+◌, Bool, true, false, ◌&&◌, not, Option, none, some, List, [], ◌∷◌, ltb, ◌==◌,
  if◌then◌else◌, String, Result, ok, err, ◌>>=◌, ◌>>◌, raise_if, or_raise,
}
use alfahd_erp_system.Accounting.Store.{
  Account, AccountType, Books, get_account, get_account_by_code, is_none,
}
use alfahd_erp_system.Accounting.Chart.{
  ChartError, raises, endless, value_error, max_account_level, read_account_type, list_children,
  has_children, replace_account, promote_parent, require_parent, require_own,
}

-- The arguments; `none` leaves a field as it is, and `some none` moves the account to the top.
pub record AccountChange : Type 0 where
  pub code : Option String
  pub name : Option String
  pub name_ar : Option String
  pub account_type_code : Option String
  pub parent_id : Option (Option ℕ)
  pub is_group : Option Bool
  pub is_active : Option Bool
  pub is_cash_equivalent : Option Bool

abbrev pub or_old {ℓ} : {A : Type ℓ} → A → Option A → A
or_old a none = a
or_old a (some x) = x

abbrev pub is_another : ℕ → Option Account → Bool
is_another i none = false
is_another i (some a) = not (a.id == i)

unfoldable pub change_code : Option String → ℕ → Account → Books → Result ChartError Account
change_code none c a b = ok a
change_code (some code) c a b = if str_eq code a.code then ok a else (do
  raise_if (is_another a.id (get_account_by_code c code b))
      (value_error "Account code already exists")
  ok (record a { code = code }))

unfoldable pub change_type : Option String → Account → Result ChartError Account
change_type none a = ok a
change_type (some code) a = do
  kind ← or_raise (read_account_type code) (value_error "Unknown account type")
  ok (record a { account_type = kind })

unfoldable pub change_group : Option Bool → Account → Books → Result ChartError Account
change_group none a b = ok a
change_group (some flag) a b = do
  raise_if (not flag && has_children a.id b)
      (value_error "Cannot mark an account with sub-accounts as a posting account")
  ok (record a { is_group = flag })

-- Everything but the parent.
unfoldable pub change_fields : AccountChange → ℕ → Account → Books → Result ChartError Account
change_fields d c a b = do
  coded ← change_code d.code c a b
  typed ← change_type d.account_type_code (record coded { name = or_old coded.name d.name })
  change_group d.is_group
      (record typed {
        name_ar = (elim d.name_ar [ none ↦ typed.name_ar | some n ↦ some n ]);
        is_active = or_old typed.is_active d.is_active;
        is_cash_equivalent = or_old typed.is_cash_equivalent d.is_cash_equivalent;
      })
      b

-- The walk from an account up to the top: whether it meets the account i.
abbrev pub parent_of : Option ℕ → Books → Option Account
parent_of none b = none
parent_of (some i) b = get_account i b

unfoldable pub meets : ℕ → ℕ → Option Account → Books → Option Bool
meets fuel i none b = some false
meets zero i (some a) b = none
meets (suc fuel) i (some a) b =
    let above = meets fuel i (parent_of a.parent_id b) b in if a.id == i then some true else above

-- `_deepest_descendant_offset`: what its comprehension finds for each child, and one more than the most.
abbrev pub max_ℕ : ℕ → ℕ → ℕ
max_ℕ m n = if ltb m n then n else m

abbrev pub with_most : Option ℕ → Option ℕ → Option ℕ
with_most none n = none
with_most (some m) none = none
with_most (some m) (some n) = some (max_ℕ m n)

abbrev pub deepest_of : (ℕ → Option ℕ) → List Account → Option ℕ
deepest_of offset [] = some 0
deepest_of offset (a ∷ as') =
    with_most (elim (offset a.id) [ none ↦ none | some n ↦ some (suc n) ]) (deepest_of offset as')

abbrev pub nothing_below : List Account → Option ℕ
nothing_below [] = some 0
nothing_below (a ∷ as') = none

unfoldable pub deepest_descendant_offset : ℕ → ℕ → Books → Option ℕ
deepest_descendant_offset zero i b = nothing_below (list_children i b)
deepest_descendant_offset (suc fuel) i b =
    deepest_of (λ j. deepest_descendant_offset fuel j b) (list_children i b)

-- `_recompute_subtree_levels`: the account's level, then those of its children, one after the other.
abbrev pub set_level : ℕ → ℕ → List Account → List Account
set_level i level [] = []
set_level i level (a ∷ as') =
    (if a.id == i then record a { level = level } else a) ∷ set_level i level as'

abbrev pub relevel_all : (ℕ → Books → Option Books) → List Account → Books → Option Books
relevel_all step [] b = some b
relevel_all step (a ∷ as') b = elim (step a.id b) [
  | none ↦ none
  | some b' ↦ relevel_all step as' b'
]

unfoldable pub recompute_subtree_levels : ℕ → ℕ → ℕ → Books → Option Books
recompute_subtree_levels zero i level b =
    let b' = record b { accounts = set_level i level b.accounts } in
    elim (list_children i b') [ [] ↦ some b' | a ∷ as' ↦ none ]
recompute_subtree_levels (suc fuel) i level b =
    let b' = record b { accounts = set_level i level b.accounts } in
    relevel_all (λ j t. recompute_subtree_levels fuel j (level + 1) t) (list_children i b') b'

-- The new level of a moved account: the new parent is not the account or below it.
abbrev pub checked_walk : Option Bool → Result ChartError (Unit {0})
checked_walk none = err endless
checked_walk (some meeting) =
    raise_if meeting (value_error "Cannot move an account under its own descendant")

unfoldable pub level_after_move : ℕ → Option ℕ → ℕ → ℕ → Books → Result ChartError ℕ
level_after_move fuel none i c b = ok 1
level_after_move fuel (some p) i c b = do
  raise_if (p == i) (value_error "An account cannot be its own parent")
  parent ← require_parent p c b
  checked_walk (meets fuel i (some parent) b)
  ok (parent.level + 1)

abbrev pub is_same : Option ℕ → Option ℕ → Bool
is_same none none = true
is_same none (some j) = false
is_same (some i) none = false
is_same (some i) (some j) = i == j

unfoldable pub move_account :
    ℕ → Option ℕ → ℕ → Account → Books → Result ChartError (Account × Books)
move_account fuel parent c a b = do
  level ← level_after_move fuel parent a.id c b
  deepest ← or_raise (deepest_descendant_offset fuel a.id b) endless
  raise_if (ltb max_account_level (level + deepest))
      (value_error "Cannot move the account here: a descendant would exceed 4 levels")
  let a' = record a { parent_id = parent; level = level }
  b' ←
      or_raise
        (recompute_subtree_levels fuel a.id level
          (record b { accounts = replace_account a' b.accounts }))
        endless
  ok (a', record b' { accounts = promote_parent parent b'.accounts })

-- The move if the parent is given and is another one.
unfoldable pub move_if :
    ℕ → Option (Option ℕ) → ℕ → Account → Books → Result ChartError (Account × Books)
move_if fuel none c a b = ok (a, b)
move_if fuel (some parent) c a b =
    if is_same parent a.parent_id then ok (a, b) else move_account fuel parent c a b

unfoldable pub update_account :
    ℕ → AccountChange → ℕ → ℕ → Books → Result ChartError (Account × Books)
update_account fuel d i c b = do
  a ← require_own i c b
  a' ← change_fields d c a b
  move_if fuel d.parent_id c a' (record b { accounts = replace_account a' b.accounts })
