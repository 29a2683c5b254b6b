-- ===== src/Inventory/Store.antt =====
-- The stock tables (backend/src/modules/inventory/infrastructure/models.py) and the queries of the
-- repositories over them. A quantity is in units of 10^-6 (`Numeric(18, 6)`), and so is every unit
-- cost, one of four decimals being a multiple of 100; a value is in units of 10^-12.
pub mod ByTime
pub mod Quants
use alfahd_erp_system.Prelude.{
  ℕ, Bool, ◌&&◌, Option, none, some, List, [], ◌∷◌, ◌++◌, ◌==◌, ltb_ℤ, if◌then◌else◌, ℤ, pos, ◌-ℤ◌,
  leb, keep, find?, String, sum_of,
}

pub record StockQuant : Type 0 where
  pub company_id : ℕ
  pub product_id : ℕ
  pub location_id : ℕ
  pub qty_on_hand : ℤ
  pub moving_avg_cost : ℤ

pub record StockLayer : Type 0 where
  pub id : ℕ
  pub company_id : ℕ
  pub product_id : ℕ
  pub location_id : ℕ
  pub qty_remaining : ℤ
  pub unit_cost : ℤ
  pub received_at : ℕ

pub record StockMove : Type 0 where
  pub id : ℕ
  pub company_id : ℕ
  pub product_id : ℕ
  pub source_location_id : Option ℕ
  pub dest_location_id : Option ℕ
  pub qty : ℤ
  pub unit_cost : ℤ
  pub move_type : String
  pub source_table : String
  pub source_id : ℕ

-- A low-stock alert: who is told, about which product, at which stock.
pub record Notification : Type 0 where
  pub company_id : ℕ
  pub recipient_user_id : ℕ
  pub product_id : ℕ
  pub on_hand : ℤ

pub record Stock : Type 0 where
  pub quants : List StockQuant
  pub layers : List StockLayer
  pub moves : List StockMove
  pub notifications : List Notification

-- `StockQuantRepository.get`
abbrev pub is_quant : ℕ → ℕ → StockQuant → Bool
is_quant p l q = q.product_id == p && q.location_id == l

unfoldable pub get_quant : ℕ → ℕ → List StockQuant → Option StockQuant
get_quant p l qs = find? (is_quant p l) qs

abbrev pub new_quant : ℕ → ℕ → ℕ → StockQuant
new_quant c p l = record {
  company_id = c;
  product_id = p;
  location_id = l;
  qty_on_hand = pos 0;
  moving_avg_cost = pos 0;
}

-- `get_or_create_for_update`: the row, inserted with the column defaults if it was not there.
abbrev or_new : ℕ → ℕ → ℕ → List StockQuant → Option StockQuant → StockQuant × List StockQuant
or_new c p l qs none = (new_quant c p l, new_quant c p l ∷ qs)
or_new c p l qs (some q) = (q, qs)

unfoldable pub get_or_create_for_update : ℕ → ℕ → ℕ → List StockQuant → StockQuant × List StockQuant
unfolding get_quant
get_or_create_for_update c p l qs = or_new c p l qs (get_quant p l qs)

-- What the unit of work writes for a changed quant: `ux_stock_quant_product_location` makes product
-- and location its key.
abbrev pub save_quant : StockQuant → List StockQuant → List StockQuant
save_quant q [] = []
save_quant q (x ∷ xs) = (if is_quant q.product_id q.location_id x then q else x) ∷ save_quant q xs

-- `StockLayerRepository.list_available`, oldest first; layers of one time keep their order.
abbrev pub is_available : ℕ → ℕ → StockLayer → Bool
is_available p l x = x.product_id == p && x.location_id == l && ltb_ℤ (pos 0) x.qty_remaining

abbrev pub insert_by_time : StockLayer → List StockLayer → List StockLayer
insert_by_time x [] = x ∷ []
insert_by_time x (y ∷ ys) =
    if leb x.received_at y.received_at then x ∷ y ∷ ys else y ∷ insert_by_time x ys

abbrev pub sorted_by_time : List StockLayer → List StockLayer
sorted_by_time [] = []
sorted_by_time (x ∷ xs) = insert_by_time x (sorted_by_time xs)

unfoldable pub list_available : ℕ → ℕ → List StockLayer → List StockLayer
list_available p l xs = sorted_by_time (keep (is_available p l) xs)

-- `qty_remaining -= qty` on the row with this id.
abbrev pub subtract_layer : ℕ → ℤ → List StockLayer → List StockLayer
subtract_layer i t [] = []
subtract_layer i t (x ∷ xs) =
    (if x.id == i then record x { qty_remaining = x.qty_remaining -ℤ t } else x)
    ∷ subtract_layer i t xs

abbrev pub subtract_layers : List (ℕ × ℤ) → List StockLayer → List StockLayer
subtract_layers [] xs = xs
subtract_layers ((i, t) ∷ cs) xs = subtract_layers cs (subtract_layer i t xs)

-- `StockQuantRepository.qty_on_hand_for_product`
abbrev pub of_product : ℕ → ℕ → StockQuant → Bool
of_product c p q = q.company_id == c && q.product_id == p

unfoldable pub qty_on_hand_for_product : ℕ → ℕ → List StockQuant → ℤ
qty_on_hand_for_product c p qs = sum_of (λ q. q.qty_on_hand) (keep (of_product c p) qs)
