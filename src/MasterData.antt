-- ===== src/MasterData.antt =====
-- The master data that the document services read: partners and products
-- (backend/src/modules/identity/infrastructure), tax rates (backend/src/modules/accounting/infrastructure),
-- warehouses and their locations (backend/src/modules/inventory/infrastructure), and the queries over them.
use text.Mathlib.Text.{◌==◌ as str_eq}
use alfahd_erp_system.Prelude.{
  ℕ, Bool, ◌&&◌, Option, none, some, List, ◌==◌, if◌then◌else◌, ℤ, String, find?, keep, Result, ok,
  ◌>>=◌, or_raise,
}
use alfahd_erp_system.Accounting.Entities.{Error, value_error}
use alfahd_erp_system.Accounting.Store.{is_none, one_or_none}

pub record Partner : Type 0 where
  pub id : ℕ
  pub company_id : ℕ
  pub name : String
  pub vat_number : Option String
  pub credit_days : Option ℕ
  pub default_sales_rep_id : Option ℕ
  pub deleted_at : Option ℕ

pub record Product : Type 0 where
  pub id : ℕ
  pub name : String
  pub is_stockable : Bool
  pub deleted_at : Option ℕ

-- A rate is in units of 10^-2 percent.
pub record TaxRate : Type 0 where
  pub id : ℕ
  pub company_id : ℕ
  pub kind : String
  pub rate_percent : ℤ

pub record Warehouse : Type 0 where
  pub id : ℕ
  pub company_id : ℕ
  pub is_default : Bool

pub record Location : Type 0 where
  pub id : ℕ
  pub warehouse_id : ℕ

pub record MasterData : Type 0 where
  pub partners : List Partner
  pub products : List Product
  pub tax_rates : List TaxRate
  pub warehouses : List Warehouse
  pub locations : List Location

-- `PartnerRepository.get_by_id`: archived partners are not found.
abbrev has_partner_id : ℕ → Partner → Bool
has_partner_id i p = p.id == i && is_none p.deleted_at

unfoldable pub get_partner : ℕ → MasterData → Option Partner
get_partner i m = find? (has_partner_id i) m.partners

-- `ProductRepository.get_by_id`
abbrev has_product_id : ℕ → Product → Bool
has_product_id i p = p.id == i && is_none p.deleted_at

unfoldable pub get_product : ℕ → MasterData → Option Product
get_product i m = find? (has_product_id i) m.products

-- `WarehouseRepository.get_by_id`
abbrev has_warehouse_id : ℕ → Warehouse → Bool
has_warehouse_id i w = w.id == i

unfoldable pub get_warehouse : ℕ → MasterData → Option Warehouse
get_warehouse i m = find? (has_warehouse_id i) m.warehouses

-- `WarehouseRepository.get_default_for_company`: no index makes the default unique.
abbrev is_default_of : ℕ → Warehouse → Bool
is_default_of c w = w.company_id == c && w.is_default

unfoldable pub get_default_for_company : ℕ → MasterData → Result Error (Option Warehouse)
get_default_for_company c m = one_or_none (keep (is_default_of c) m.warehouses)

-- `LocationRepository.list_by_warehouse`
abbrev in_warehouse : ℕ → Location → Bool
in_warehouse w l = l.warehouse_id == w

unfoldable pub list_by_warehouse : ℕ → MasterData → List Location
list_by_warehouse w m = keep (in_warehouse w) m.locations

-- `TaxRepository.get_rate_by_id`
abbrev has_rate_id : ℕ → TaxRate → Bool
has_rate_id i r = r.id == i

unfoldable pub get_rate_by_id : ℕ → MasterData → Option TaxRate
get_rate_by_id i m = find? (has_rate_id i) m.tax_rates

-- The company's first standard rate.
abbrev is_standard_of : ℕ → TaxRate → Bool
is_standard_of c r = r.company_id == c && str_eq r.kind "standard"

unfoldable pub standard_rate : ℕ → MasterData → Result Error ℤ
standard_rate c m = do
  standard ←
      or_raise (find? (is_standard_of c) m.tax_rates)
        (value_error "No tax rate configuration exists for this company")
  ok standard.rate_percent

-- `_resolve_tax_rate_percent`: the company's own rate, or its standard one.
abbrev own_or_standard : ℕ → MasterData → Option TaxRate → Result Error ℤ
own_or_standard c m none = standard_rate c m
own_or_standard c m (some r) = if r.company_id == c then ok r.rate_percent else standard_rate c m

unfoldable pub resolve_tax_rate_percent : ℕ → ℕ → MasterData → Result Error ℤ
resolve_tax_rate_percent i c m = own_or_standard c m (get_rate_by_id i m)
