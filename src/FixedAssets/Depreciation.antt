-- ===== src/FixedAssets/Depreciation.antt =====
-- `run_depreciation` of `FixedAssetService`.
pub mod Limit
pub mod Repeat
use alfahd_erp_system.Prelude.{
  ℕ, zero, suc, ◌+◌, Bool, not, Option, none, some, List, [], ◌∷◌, ltb, leb, ◌==◌, if◌then◌else◌, ℤ,
  pos, ◌+ℤ◌, ◌-ℤ◌, leb_ℤ, min_ℤ, String, Result, ok, err, ◌>>=◌, ◌>>◌, raise_if, find?,
}
use alfahd_erp_system.Decimal.{half_up, signed}
use alfahd_erp_system.Accounting.Entities.{Error, value_error, DomainLine}
use alfahd_erp_system.Accounting.Store.{JournalEntry, Books, is_none}
use alfahd_erp_system.Accounting.Entries.{Draft, create_draft_entry, post_entry}
use alfahd_erp_system.FixedAssets.Register.{
  Date, day_number, to_ordinal, month_start, is_date, FixedAsset, DepreciationEntry, AssetRegister,
  list_active, sum_for_asset, get_for_asset_and_period,
}

-- The arguments of `run_depreciation`, the ids and the time that its calls make, and the f-string of a
-- description, a parameter.
pub record DepreciationRun : Type 0 where
  pub company_id : ℕ
  pub branch_id : ℕ
  pub period_month : Date
  pub created_by : ℕ
  pub category_id : Option ℕ
  pub entry_id : ℕ → ℕ
  pub now : ℕ
  pub checks_cost_centers : Bool
  pub description : FixedAsset → Date → String

pub data Outcome : Type 0 where
  not_yet_acquired already_posted fully_depreciated : Outcome
  posted : ℤ → Outcome

abbrev pub depreciable_base : FixedAsset → ℤ
depreciable_base a = a.cost -ℤ a.salvage_value

unfoldable pub monthly_amount : FixedAsset → ℤ
monthly_amount a = signed half_up (depreciable_base a) a.useful_life_months

-- What the run finds for an asset: why it is skipped, or how much is depreciated.
unfoldable pub outcome : Date → FixedAsset → List DepreciationEntry → Outcome
outcome period a es =
    if ltb (to_ordinal period) (to_ordinal (month_start a.acquisition_date))
    then not_yet_acquired
    else (if not (is_none (get_for_asset_and_period a.id period es))
        then already_posted
        else (if leb_ℤ (depreciable_base a -ℤ sum_for_asset a.id es) (pos 0)
            then fully_depreciated
            else posted (min_ℤ (monthly_amount a) (depreciable_base a -ℤ sum_for_asset a.id es))))

abbrev asset_line : ℕ → ℤ → ℤ → DomainLine
asset_line account debit credit = record {
  account_id = account;
  debit = debit;
  credit = credit;
  cost_center_id = none;
  description = none;
}

abbrev pub depreciation_draft : DepreciationRun → FixedAsset → ℤ → Draft
depreciation_draft r a amount = record {
  company_id = r.company_id;
  branch_id = some r.branch_id;
  journal_code = "GEN";
  entry_date = day_number (month_start r.period_month);
  reference = some a.asset_code;
  lines =
      asset_line a.depreciation_expense_account_id amount (pos 0)
      ∷ asset_line a.accumulated_depreciation_account_id (pos 0) amount
      ∷ [];
  created_by = r.created_by;
  description = some (r.description a (month_start r.period_month));
  source_table = some "fixed_asset";
  source_id = some a.id;
  new_id = r.entry_id a.id;
  checks_cost_centers = r.checks_cost_centers;
}

abbrev pub depreciation_entry : DepreciationRun → FixedAsset → ℤ → ℕ → DepreciationEntry
depreciation_entry r a amount entry_id = record {
  company_id = r.company_id;
  fixed_asset_id = a.id;
  period_month = month_start r.period_month;
  amount = amount;
  journal_entry_id = entry_id;
}

-- The row that the loop adds, once its entry is posted: the table's check on the amount raises an
-- `IntegrityError`, which the service hands on as a `ValueError`. The period is free: the loop has looked.
unfoldable pub post_depreciation :
    DepreciationRun → FixedAsset → ℤ → AssetRegister → Result Error AssetRegister
post_depreciation r a amount s = do
  (entry, b) ← create_draft_entry (depreciation_draft r a amount) s.books
  (done, b') ← post_entry entry.id r.company_id r.now b
  raise_if (leb_ℤ amount (pos 0))
      (value_error "Depreciation was posted concurrently for this period — please retry")
  ok (record s {
    depreciation = depreciation_entry r a amount done.id ∷ s.depreciation;
    books = b';
  })

-- One round of the loop.
abbrev pub apply :
    DepreciationRun → FixedAsset → Outcome → AssetRegister → Result Error AssetRegister
apply r a not_yet_acquired s = ok s
apply r a already_posted s = ok s
apply r a fully_depreciated s = ok s
apply r a (posted amount) s = post_depreciation r a amount s

unfoldable pub depreciate :
    DepreciationRun → FixedAsset → AssetRegister → Result Error AssetRegister
depreciate r a s = apply r a (outcome (month_start r.period_month) a s.depreciation) s

unfoldable pub depreciate_all :
    DepreciationRun
    → List FixedAsset
    → AssetRegister
    → Result Error (List (ℕ × Outcome) × AssetRegister)
depreciate_all r [] s = ok ([], s)
depreciate_all r (a ∷ rest) s = do
  s' ← depreciate r a s
  (lines, s'') ← depreciate_all r rest s'
  ok ((a.id, outcome (month_start r.period_month) a s.depreciation) ∷ lines, s'')

-- Returns each asset with what was done for it, posted or skipped, and the register.
unfoldable pub run_depreciation :
    DepreciationRun → AssetRegister → Result Error (List (ℕ × Outcome) × AssetRegister)
run_depreciation r s = depreciate_all r (list_active r.company_id r.category_id s) s
