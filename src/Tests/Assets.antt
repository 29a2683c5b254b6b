-- ===== src/Tests/Assets.antt =====
-- A machine of 1.00 with a salvage value of 0.10, over three months; the run of its second month.
use alfahd_erp_system.Prelude.{
  All, List, ℕ, ◌≡◌, refl, true, false, none, [], ◌∷◌, map, arith, pos, ◌+ℤ◌, ◌-ℤ◌, ◌≤ℤ◌, ok,
  String, inr,
}
use alfahd_erp_system.Decimal.{half_up}
use alfahd_erp_system.Accounting.Entities.{post_init, post_init_all, assert_balanced}
use alfahd_erp_system.Accounting.Store.{
  Account, asset, Books, set_entry_id, get_account, get_journal_by_code, add_entry, find_covering,
  get_entry, get_lines, save_entry,
}
use alfahd_erp_system.Accounting.Entries.{
  orm_entry, orm_line, mark_posted, require_account, create_draft_entry, post_entry,
  check_cost_center, check_line, check_lines, require_entry, Draft,
}
use alfahd_erp_system.FixedAssets.Register.{
  day_number, to_ordinal, FixedAsset, DepreciationEntry, AssetRegister, list_active, sum_for_asset,
  get_for_asset_and_period,
}
use alfahd_erp_system.FixedAssets.Depreciation.{
  DepreciationRun, Outcome, posted, depreciable_base, depreciation_draft, depreciation_entry,
  run_depreciation, depreciate_all, depreciate, post_depreciation, outcome, monthly_amount,
}
use alfahd_erp_system.FixedAssets.Depreciation.Repeat.{WasSkipped, run_depreciation_repeats}
use alfahd_erp_system.FixedAssets.Depreciation.Limit.{run_depreciation_within_base}

to_ordinal_unix : to_ordinal (record { year = 1970; month = 1; day = 1 }) ≡ 719_163
unfolding to_ordinal
to_ordinal_unix = refl

to_ordinal_leap : to_ordinal (record { year = 2024; month = 3; day = 1 }) ≡ 738_946
unfolding to_ordinal
to_ordinal_leap = refl

day_number_start : day_number (record { year = 1900; month = 1; day = 1 }) ≡ 0
unfolding to_ordinal
day_number_start = refl

abbrev ledger_account : ℕ → String → Account
ledger_account i code = record {
  id = i;
  company_id = 7;
  code = code;
  name = code;
  name_ar = none;
  account_type = asset;
  parent_id = none;
  level = 1;
  is_group = false;
  is_active = true;
  is_cash_equivalent = false;
  deleted_at = none;
}

abbrev plant_books : Books
plant_books = record {
  accounts = ledger_account 1 "1500" ∷ ledger_account 2 "1590" ∷ ledger_account 3 "5200" ∷ [];
  journals = record { id = 5; company_id = 7; code = "GEN" } ∷ [];
  cost_centers = [];
  periods = [];
  entries = [];
  lines = [];
}

abbrev machine : FixedAsset
machine = record {
  id = 20;
  company_id = 7;
  asset_code = "FA-000001";
  name = "Press";
  category_id = none;
  fixed_asset_account_id = 1;
  accumulated_depreciation_account_id = 2;
  depreciation_expense_account_id = 3;
  acquisition_date = record { year = 2024; month = 1; day = 15 };
  cost = pos 10_000;
  salvage_value = pos 1_000;
  useful_life_months = 3;
  disposed_at = none;
}

abbrev january_row : DepreciationEntry
january_row = record {
  company_id = 7;
  fixed_asset_id = 20;
  period_month = record { year = 2024; month = 1; day = 1 };
  amount = pos 3_000;
  journal_entry_id = 1;
}

abbrev plant : AssetRegister
plant = record { assets = machine ∷ []; depreciation = january_row ∷ []; books = plant_books }

abbrev february : DepreciationRun
february = record {
  company_id = 7;
  branch_id = 3;
  period_month = record { year = 2024; month = 2; day = 9 };
  created_by = 1;
  category_id = none;
  entry_id = λ i. 60;
  now = 99;
  checks_cost_centers = true;
  description = λ a d. a.name;
}

abbrev february_draft : Draft
february_draft = depreciation_draft february machine (pos 3_000)

abbrev depreciated : AssetRegister
depreciated = record plant {
  depreciation = depreciation_entry february machine (pos 3_000) 60 ∷ january_row ∷ [];
  books = record plant_books {
    entries = mark_posted 99 (orm_entry february_draft 5) ∷ [];
    lines = map (set_entry_id 60) (map (orm_line 7 60) february_draft.lines);
  };
}

february_run : run_depreciation february plant ≡ ok ((20, posted (pos 3_000)) ∷ [], depreciated)
unfolding run_depreciation depreciate_all depreciate post_depreciation outcome monthly_amount
    half_up list_active sum_for_asset get_for_asset_and_period to_ordinal ◌+ℤ◌ ◌-ℤ◌ get_account
    get_journal_by_code create_draft_entry post_init_all post_init assert_balanced require_account
    check_cost_center check_line check_lines post_entry require_entry add_entry find_covering
    get_entry get_lines save_entry
february_run = refl

run_depreciation_within_base_example :
    sum_for_asset 20 depreciated.depreciation ≤ℤ depreciable_base machine
unfolding sum_for_asset ◌-ℤ◌ ◌+ℤ◌
run_depreciation_within_base_example =
    run_depreciation_within_base february machine plant depreciated (inr refl, tt) (omega arith)
      february_run

-- The run of the same month, from another call.
abbrev february_again : DepreciationRun
february_again = record february {
  period_month = record { year = 2024; month = 2; day = 28 };
  now = 120;
}

run_depreciation_repeats_example :
    (skipped : List (ℕ × Outcome)) × (run_depreciation february_again depreciated
      ≡ ok (skipped, depreciated))
    × All WasSkipped skipped
unfolding ◌-ℤ◌
run_depreciation_repeats_example =
    run_depreciation_repeats february february_again plant depreciated (omega arith, tt)
      february_run refl refl refl
