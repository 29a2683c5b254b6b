-- ===== src/Tests/Charts.antt =====
-- A chart with cash below the assets, and an account that is created, renamed and deleted.
use alfahd_erp_system.Prelude.{
  ℕ, ◌≡◌, ◌↔◌, true, refl, ◌+◌, ◌≤◌, true, false, none, some, Bool, List, [], ◌∷◌, arith, ok, err,
  Option,
}
use alfahd_erp_system.Accounting.Store.{Account, asset, Books, get_account, get_account_by_code}
use alfahd_erp_system.Accounting.Chart.{
  AccountIn, create_account, delete_account, level_under, require_parent, require_own, has_children,
  has_transactions, new_account, value_error, list_children,
}
use alfahd_erp_system.Accounting.Moving.Depth.{IsMet, Below}
use alfahd_erp_system.Accounting.Moving.{
  AccountChange, update_account, change_fields, change_code, change_type, change_group, move_if,
  move_account, meets, level_after_move, deepest_descendant_offset, recompute_subtree_levels,
}
use alfahd_erp_system.Accounting.Moving.Walks.{walks_return}
use alfahd_erp_system.Accounting.Moving.History.{
  IsOrdered, ChartReach, untouched, charted, creates_account, edits_account, deletes_account,
  ChartReach-IsOrdered,
}

abbrev assets : Account
assets = record {
  id = 1;
  company_id = 7;
  code = "1000";
  name = "Assets";
  name_ar = none;
  account_type = asset;
  parent_id = none;
  level = 1;
  is_group = true;
  is_active = true;
  is_cash_equivalent = false;
  deleted_at = none;
}

abbrev cash : Account
cash = record assets {
  id = 2;
  code = "1100";
  name = "Cash";
  parent_id = some 1;
  level = 2;
  is_group = false;
}

abbrev chart_of : List Account → Books
chart_of as' = record {
  accounts = as';
  journals = [];
  cost_centers = [];
  periods = [];
  entries = [];
  lines = [];
}

abbrev small_chart : Books
small_chart = chart_of (cash ∷ assets ∷ [])

small_chart-IsOrdered : IsOrdered small_chart
small_chart-IsOrdered = (
  (
    λ live. (omega arith, omega arith, (1, refl, refl)),
    (λ live. (omega arith, omega arith, refl), tt),
  ),
  (refl, (refl, tt)),
)

abbrev till_in : AccountIn
till_in = record {
  id = 3;
  company_id = 7;
  code = "1110";
  name = "Till";
  name_ar = none;
  account_type_code = "asset";
  parent_id = some 2;
  is_group = false;
  is_cash_equivalent = true;
}

abbrev till : Account
till = new_account till_in asset 3

-- The parent becomes a group.
abbrev with_till : Books
with_till = chart_of (till ∷ record cash { is_group = true } ∷ assets ∷ [])

till_created : create_account till_in small_chart ≡ ok (till, with_till)
unfolding create_account get_account_by_code level_under require_parent get_account
till_created = refl

abbrev renaming : AccountChange
renaming = record {
  code = some "1120";
  name = some "Main till";
  name_ar = none;
  account_type_code = none;
  parent_id = none;
  is_group = none;
  is_active = some false;
  is_cash_equivalent = none;
}

abbrev main_till : Account
main_till = record till { code = "1120"; name = "Main till"; is_active = false }

abbrev with_main_till : Books
with_main_till = chart_of (main_till ∷ record cash { is_group = true } ∷ assets ∷ [])

till_renamed : update_account 4 renaming 3 7 with_till ≡ ok (main_till, with_main_till)
unfolding update_account require_own get_account change_fields change_code get_account_by_code
    change_type change_group move_if
till_renamed = refl

abbrev without_till : Books
without_till =
    chart_of
      (record main_till { deleted_at = some 9 } ∷ record cash { is_group = true } ∷ assets ∷ [])

till_deleted : delete_account 3 7 9 with_main_till ≡ ok without_till
unfolding delete_account require_own get_account has_children has_transactions
till_deleted = refl

-- An account that has accounts below it stays.
cash_kept :
    delete_account 2 7 9 with_main_till
    ≡ err (value_error "Cannot delete the account: it has sub-accounts")
unfolding delete_account require_own get_account has_children
cash_kept = refl

-- Cash moves to the top with its till; the assets cannot move below the till.
abbrev moving : Option ℕ → AccountChange
moving p = record renaming { code = none; name = none; is_active = none; parent_id = some p }

cash_moved :
    update_account 4 (moving none) 2 7 with_till
    ≡ ok (
      record cash { is_group = true; parent_id = none; level = 1 },
      chart_of (
          record till { level = 2 }
          ∷ record cash { is_group = true; parent_id = none; level = 1 }
          ∷ assets
          ∷ []),
    )
unfolding update_account require_own get_account change_fields change_code change_type change_group
    move_if move_account level_after_move deepest_descendant_offset list_children
    recompute_subtree_levels
cash_moved = refl

assets_kept :
    update_account 4 (moving (some 3)) 1 7 with_till
    ≡ err (value_error "Cannot move an account under its own descendant")
unfolding update_account require_own get_account change_fields change_code change_type change_group
    move_if move_account level_after_move require_parent meets
assets_kept = refl

charted_till : ChartReach small_chart without_till
charted_till =
    charted
      (charted (charted untouched (creates_account till_in till till_created))
        (edits_account 4 renaming 3 7 main_till refl till_renamed))
      (deletes_account 3 7 9 till_deleted)

ChartReach-IsOrdered_example : IsOrdered without_till
ChartReach-IsOrdered_example =
    ChartReach-IsOrdered small_chart without_till charted_till small_chart-IsOrdered

walks_return_example :
    ((r : Bool) × (meets 4 1 (get_account 2 small_chart) small_chart ≡ some r)
      × ((r ≡ true) ↔ IsMet small_chart 1 (get_account 2 small_chart)))
    × ((n : ℕ) × (deepest_descendant_offset 4 1 small_chart ≡ some n)
        × ((j : ℕ) × Below small_chart 1 n j)
        × ((j k : ℕ) → Below small_chart 1 k j → k ≤ n)
        × (1 + n ≤ 4))
walks_return_example =
    walks_return small_chart 1 2 1 2 small_chart-IsOrdered.0 small_chart-IsOrdered.1 refl refl
