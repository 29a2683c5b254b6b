-- ===== src/FixedAssets/Register.antt =====
-- The asset tables of backend/src/modules/fixed_assets/infrastructure and the queries over them; calendar
-- dates as `datetime.date` has them.
use alfahd_erp_system.Prelude.{
  ℕ, ◌+◌, ◌*◌, ◌/◌, ◌%◌, ◌-◌, Bool, true, false, ◌&&◌, ◌||◌, not, Option, none, some, List, ltb,
  leb, ◌==◌, if◌then◌else◌, ℤ, String, find?, keep, sum_of,
}
use alfahd_erp_system.Accounting.Store.{Books, is_none}

pub record Date : Type 0 where
  pub year : ℕ
  pub month : ℕ
  pub day : ℕ

abbrev pub is_leap : ℕ → Bool
is_leap y = y % 4 == 0 && (not (y % 100 == 0) || y % 400 == 0)

-- The days of a common year before a month.
abbrev days_before : ℕ → ℕ
days_before m =
    if leb m 1
    then 0
    else if m == 2
    then 31
    else if m == 3
    then 59
    else if m == 4
    then 90
    else if m == 5
    then 120
    else if m == 6
    then 151
    else if m == 7
    then 181
    else if m == 8
    then 212
    else if m == 9
    then 243
    else if m == 10
    then 273
    else if m == 11
    then 304
    else 334

-- `date.toordinal`; the year is at least 1.
unfoldable pub to_ordinal : Date → ℕ
to_ordinal d =
    let y = d.year - 1 in
    y * 365
    + y / 4
    - y / 100
    + y / 400
    + days_before d.month
    + (if is_leap d.year && ltb 2 d.month then 1 else 0)
    + d.day

-- The day number that the journal dates its entries by, which starts at 1 January 1900; the year is at
-- least 1900.
abbrev pub day_number : Date → ℕ
day_number d = to_ordinal d - 693_596

-- `_month_start`
abbrev pub month_start : Date → Date
month_start d = record { year = d.year; month = d.month; day = 1 }

abbrev pub is_date : Date → Date → Bool
is_date d e = d.year == e.year && d.month == e.month && d.day == e.day

pub record FixedAsset : Type 0 where
  pub id : ℕ
  pub company_id : ℕ
  pub asset_code : String
  pub name : String
  pub category_id : Option ℕ
  pub fixed_asset_account_id : ℕ
  pub accumulated_depreciation_account_id : ℕ
  pub depreciation_expense_account_id : ℕ
  pub acquisition_date : Date
  pub cost : ℤ
  pub salvage_value : ℤ
  pub useful_life_months : ℕ
  pub disposed_at : Option ℕ

-- No modelled code reads an entry's own id.
pub record DepreciationEntry : Type 0 where
  pub company_id : ℕ
  pub fixed_asset_id : ℕ
  pub period_month : Date
  pub amount : ℤ
  pub journal_entry_id : ℕ

pub record AssetRegister : Type 0 where
  pub assets : List FixedAsset
  pub depreciation : List DepreciationEntry
  pub books : Books

abbrev in_category : Option ℕ → Option ℕ → Bool
in_category none c = true
in_category (some x) none = false
in_category (some x) (some y) = y == x

-- `FixedAssetRepository.list_by_company(active_only=True)`
abbrev pub is_active : ℕ → Option ℕ → FixedAsset → Bool
is_active c category a =
    a.company_id == c && is_none a.disposed_at && in_category category a.category_id

unfoldable pub list_active : ℕ → Option ℕ → AssetRegister → List FixedAsset
list_active c category s = keep (is_active c category) s.assets

abbrev pub of_asset : ℕ → DepreciationEntry → Bool
of_asset i e = e.fixed_asset_id == i

-- `FixedAssetDepreciationRepository.sum_for_asset`
unfoldable pub sum_for_asset : ℕ → List DepreciationEntry → ℤ
sum_for_asset i es = sum_of (λ e. e.amount) (keep (of_asset i) es)

abbrev pub in_period : ℕ → Date → DepreciationEntry → Bool
in_period i d e = e.fixed_asset_id == i && is_date e.period_month d

-- `get_for_asset_and_period`; the table's unique constraint makes the row the only one.
unfoldable pub get_for_asset_and_period :
    ℕ → Date → List DepreciationEntry → Option DepreciationEntry
get_for_asset_and_period i d es = find? (in_period i d) es
