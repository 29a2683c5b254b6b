-- ===== src/Accounting/Chart.antt =====
-- `ChartOfAccountsService` of backend/src/modules/accounting/application/services.py: accounts are created,
pub mod Levels
-- edited, moved and deleted. A walk along the tree has fuel; `endless` is a walk that outlasts it.
use text.Mathlib.Text.{◌==◌ as str_eq}
use alfahd_erp_system.Prelude.{
  ℕ, zero, suc, ◌+◌, Bool, true, false, ◌&&◌, not, Option, none, some, List, [], ◌∷◌, map, leb, ltb,
  ◌==◌, if◌then◌else◌, String, any, keep, Result, ok, err, ◌>>=◌, ◌>>◌, raise_if, or_raise,
  Option-cases,
}
use alfahd_erp_system.Accounting.Entities.{Error}
use alfahd_erp_system.Accounting.Store.{
  AccountType, asset, liability, equity, revenue, expense, Account, Books, JournalEntryLine,
  is_none, get_account, get_account_by_code,
}

pub data ChartError : Type 0 where
  raises : Error → ChartError
  endless : ChartError

abbrev pub value_error : String → ChartError
value_error m = raises (Error.value_error m)

abbrev pub max_account_level : ℕ
max_account_level = 4

-- `ACCOUNT_TYPES`, whose rows a migration seeds.
abbrev pub read_account_type : String → Option AccountType
read_account_type s =
    if str_eq s "asset"
    then some asset
    else if str_eq s "liability"
    then some liability
    else if str_eq s "equity"
    then some equity
    else if str_eq s "revenue"
    then some revenue
    else if str_eq s "expense"
    then some expense
    else none

-- `AccountRepository.list_children` and `has_children`
abbrev pub names_parent : ℕ → Option ℕ → Bool
names_parent i none = false
names_parent i (some p) = p == i

abbrev pub is_child : ℕ → Account → Bool
is_child i a = names_parent i a.parent_id && is_none a.deleted_at

unfoldable pub list_children : ℕ → Books → List Account
list_children i b = keep (is_child i) b.accounts

unfoldable pub has_children : ℕ → Books → Bool
has_children i b = any (is_child i) b.accounts

-- `AccountRepository.has_transactions`
abbrev line_on_account : ℕ → JournalEntryLine → Bool
line_on_account i l = l.account_id == i

unfoldable pub has_transactions : ℕ → Books → Bool
has_transactions i b = any (line_on_account i) b.lines

abbrev pub replace_account : Account → List Account → List Account
replace_account a [] = []
replace_account a (x ∷ xs) = (if x.id == a.id then a else x) ∷ replace_account a xs

-- An account that gains a child is a group.
abbrev pub promote : ℕ → List Account → List Account
promote i [] = []
promote i (x ∷ xs) = (if x.id == i then record x { is_group = true } else x) ∷ promote i xs

abbrev pub promote_parent : Option ℕ → List Account → List Account
promote_parent none as' = as'
promote_parent (some i) as' = promote i as'

pub record AccountIn : Type 0 where
  pub id : ℕ
  pub company_id : ℕ
  pub code : String
  pub name : String
  pub name_ar : Option String
  pub account_type_code : String
  pub parent_id : Option ℕ
  pub is_group : Bool
  pub is_cash_equivalent : Bool

-- The parent of the account, in its company.
unfoldable pub require_parent : ℕ → ℕ → Books → Result ChartError Account
require_parent i c b = do
  p ← or_raise (get_account i b) (value_error "Parent account not found in this company")
  raise_if (not (p.company_id == c)) (value_error "Parent account not found in this company")
  ok p

-- The level under the parent, if it is not too deep.
unfoldable pub level_under : Option ℕ → ℕ → Books → Result ChartError ℕ
level_under none c b = ok 1
level_under (some i) c b = do
  p ← require_parent i c b
  raise_if (ltb max_account_level (p.level + 1))
      (value_error "Cannot create account: a 4th-level maximum would be exceeded")
  ok (p.level + 1)

abbrev pub new_account : AccountIn → AccountType → ℕ → Account
new_account d kind level = record {
  id = d.id;
  company_id = d.company_id;
  code = d.code;
  name = d.name;
  name_ar = d.name_ar;
  account_type = kind;
  parent_id = d.parent_id;
  level = level;
  is_group = d.is_group;
  is_active = true;
  is_cash_equivalent = d.is_cash_equivalent;
  deleted_at = none;
}

abbrev pub has_id : ℕ → Account → Bool
has_id i a = a.id == i

unfoldable pub create_account : AccountIn → Books → Result ChartError (Account × Books)
create_account d b = do
  kind ← or_raise (read_account_type d.account_type_code) (value_error "Unknown account type")
  raise_if (not (is_none (get_account_by_code d.company_id d.code b)))
      (value_error "Account code already exists")
  level ← level_under d.parent_id d.company_id b
  raise_if (any (has_id d.id) b.accounts) (raises Error.integrity_error)
  let a = new_account d kind level
  ok (a, record b { accounts = promote_parent d.parent_id (a ∷ b.accounts) })

unfoldable pub require_own : ℕ → ℕ → Books → Result ChartError Account
require_own i c b = do
  a ← or_raise (get_account i b) (value_error "Account not found")
  raise_if (not (a.company_id == c)) (value_error "Account not found")
  ok a

unfoldable pub delete_account : ℕ → ℕ → ℕ → Books → Result ChartError Books
delete_account i c now b = do
  a ← require_own i c b
  raise_if (has_children a.id b) (value_error "Cannot delete the account: it has sub-accounts")
  raise_if (has_transactions a.id b)
      (value_error "Cannot delete the account: it has posted transactions")
  ok (record b { accounts = replace_account (record a { deleted_at = some now }) b.accounts })
