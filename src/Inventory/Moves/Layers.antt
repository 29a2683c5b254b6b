-- ===== src/Inventory/Moves/Layers.antt =====
-- Issues out of FIFO layers: the layer table loses what is issued and what it cost.
use mathlib.Core.Path.{subst}
use alfahd_erp_system.Prelude.{
  ℕ, ◌≡◌, refl, ◌∙◌, ap, false, Option, none, some, List, [], ◌∷◌, ◌++◌, map, keep, ◌==◌,
  if◌then◌else◌, ℤ, ◌-ℤ◌, ◌*ℤ◌, arith, int_laws, Bool-cases, inl, inr, All, sub_sub, sub_*ℤ,
}
use alfahd_erp_system.Inventory.Store.{StockLayer, is_available, subtract_layer, subtract_layers}
use alfahd_erp_system.Inventory.Store.ByTime.{total_qty, All-middle}
use alfahd_erp_system.Inventory.Valuation.Fifo.{
  total_value, layer_value, whole, IsStocked, Cut, cut_cost, cut_consumed,
}

-- Layer ids are primary keys.
abbrev pub HasOtherId : StockLayer → StockLayer → Type 0
HasOtherId x y = (y.id == x.id) ≡ false

abbrev pub IsKeyed : List StockLayer → Type 0
IsKeyed [] = Unit
IsKeyed (x ∷ xs) = All (HasOtherId x) xs × IsKeyed xs

-- The unit cost of the layer with this id.
abbrev pub cost_at : ℕ → List StockLayer → Option ℤ
cost_at i [] = none
cost_at i (x ∷ xs) = if x.id == i then some x.unit_cost else cost_at i xs

abbrev pub IsPriced : List StockLayer → StockLayer → Type 0
IsPriced ls l = cost_at l.id ls ≡ some l.unit_cost

subtract_layer-absent :
    (x : StockLayer) (t : ℤ) (ls : List StockLayer)
    → All (HasOtherId x) ls
    → subtract_layer x.id t ls ≡ ls
subtract_layer-absent x t [] h = refl
subtract_layer-absent x t (y ∷ ys) h = ground (arith, subtract_layer-absent x t ys h.1)

-- What is taken off one layer, in quantity and in value.
subtract_layer-totals :
    (i : ℕ) (t c : ℤ) (ls : List StockLayer)
    → IsKeyed ls
    → cost_at i ls ≡ some c
    → (total_qty (subtract_layer i t ls) ≡ total_qty ls -ℤ t)
      × (total_value (subtract_layer i t ls) ≡ total_value ls -ℤ t *ℤ c)
subtract_layer-totals i t c [] k h = cc
subtract_layer-totals i t c (x ∷ xs) k h = elim (Bool-cases (x.id == i)) [
  | inl e ↦
      let same : x.id ≡ i = ground arith in
      let gone : subtract_layer i t xs ≡ xs =
        subst (λ (n : ℕ). subtract_layer n t xs ≡ xs) same (subtract_layer-absent x t xs k.0) in
      let price : x.unit_cost ≡ c = ground (arith, e) in
      rw e (
        rw gone
          (omega int_laws, rw (sub_*ℤ x.qty_remaining t x.unit_cost) (rw price (omega int_laws))))
  | inr e ↦
      let rest = subtract_layer-totals i t c xs k.1 (ground (arith, e)) in
      rw e (rw (rest.0) (omega int_laws), rw (rest.1) (omega int_laws))
]

-- Ids and unit costs stay.
HasOtherId-subtract :
    (x : StockLayer) (i : ℕ) (t : ℤ) (ls : List StockLayer)
    → All (HasOtherId x) ls
    → All (HasOtherId x) (subtract_layer i t ls)
HasOtherId-subtract x i t [] h = tt
HasOtherId-subtract x i t (y ∷ ys) h = (ground (arith, h.0), HasOtherId-subtract x i t ys h.1)

IsKeyed-subtract :
    (i : ℕ) (t : ℤ) (ls : List StockLayer) → IsKeyed ls → IsKeyed (subtract_layer i t ls)
IsKeyed-subtract i t [] h = tt
IsKeyed-subtract i t (x ∷ xs) h = elim (Bool-cases (x.id == i)) [
  | inl e ↦ rw e (HasOtherId-subtract x i t xs h.0, IsKeyed-subtract i t xs h.1)
  | inr e ↦ rw e (HasOtherId-subtract x i t xs h.0, IsKeyed-subtract i t xs h.1)
]

cost_at-subtract :
    (j i : ℕ) (t : ℤ) (ls : List StockLayer) → cost_at j (subtract_layer i t ls) ≡ cost_at j ls
cost_at-subtract j i t [] = refl
cost_at-subtract j i t (x ∷ xs) = ground (arith, cost_at-subtract j i t xs)

IsPriced-subtract :
    (i : ℕ) (t : ℤ) (ls xs : List StockLayer)
    → All (IsPriced ls) xs
    → All (IsPriced (subtract_layer i t ls)) xs
IsPriced-subtract i t ls [] h = tt
IsPriced-subtract i t ls (x ∷ xs) h =
    (cost_at-subtract x.id i t ls ∙ h.0, IsPriced-subtract i t ls xs h.1)

-- A list of layers that are used up, one after the other.
used_up-totals :
    (xs ls : List StockLayer)
    → IsKeyed ls
    → All (IsPriced ls) xs
    → (total_qty (subtract_layers (map whole xs) ls) ≡ total_qty ls -ℤ total_qty xs)
      × (total_value (subtract_layers (map whole xs) ls) ≡ total_value ls -ℤ total_value xs)
used_up-totals [] ls k h = (omega int_laws, omega int_laws)
used_up-totals (x ∷ xs) ls k h =
    let step = subtract_layer-totals x.id x.qty_remaining x.unit_cost ls k h.0 in
    let rest =
      used_up-totals xs (subtract_layer x.id x.qty_remaining ls)
        (IsKeyed-subtract x.id x.qty_remaining ls k)
        (IsPriced-subtract x.id x.qty_remaining ls xs h.1) in
    (
      rest.0
          ∙ ap (λ (n : ℤ). n -ℤ total_qty xs) step.0
          ∙ sub_sub (total_qty ls) x.qty_remaining (total_qty xs),
      rest.1
          ∙ ap (λ (n : ℤ). n -ℤ total_value xs) step.1
          ∙ sub_sub (total_value ls) (layer_value x) (total_value xs),
    )

IsKeyed-subtract_layers :
    (cs : List (ℕ × ℤ)) (ls : List StockLayer) → IsKeyed ls → IsKeyed (subtract_layers cs ls)
IsKeyed-subtract_layers [] ls k = k
IsKeyed-subtract_layers ((i, t) ∷ cs) ls k =
    IsKeyed-subtract_layers cs (subtract_layer i t ls) (IsKeyed-subtract i t ls k)

cost_at-subtract_layers :
    (j : ℕ) (cs : List (ℕ × ℤ)) (ls : List StockLayer)
    → cost_at j (subtract_layers cs ls) ≡ cost_at j ls
cost_at-subtract_layers j [] ls = refl
cost_at-subtract_layers j ((i, t) ∷ cs) ls =
    cost_at-subtract_layers j cs (subtract_layer i t ls) ∙ cost_at-subtract j i t ls

subtract_layers-append :
    (xs ys : List (ℕ × ℤ)) (ls : List StockLayer)
    → subtract_layers (xs ++ ys) ls ≡ subtract_layers ys (subtract_layers xs ls)
subtract_layers-append [] ys ls = refl
subtract_layers-append ((i, t) ∷ xs) ys ls = subtract_layers-append xs ys (subtract_layer i t ls)

All-older : (P : StockLayer → Type 0) (xs ys : List StockLayer) → All P (xs ++ ys) → All P xs
All-older P [] ys h = tt
All-older P (x ∷ xs) ys h = (h.0, All-older P xs ys h.1)

-- What a cut of priced layers takes off the table.
pub consumed_totals :
    (ls xs : List StockLayer) (qty : ℤ)
    → IsKeyed ls
    → All (IsPriced ls) xs
    → (c : Cut xs qty)
    → (total_qty (subtract_layers (cut_consumed c) ls) ≡ total_qty ls -ℤ qty)
      × (total_value (subtract_layers (cut_consumed c) ls) ≡ total_value ls -ℤ cut_cost c)
consumed_totals ls xs qty k h c =
    let priced : All (IsPriced ls) (c.older ++ c.opened ∷ c.newer) =
      subst (All (IsPriced ls)) c.splits h in
    let before = subtract_layers (map whole c.older) ls in
    let used =
      used_up-totals c.older ls k (All-older (IsPriced ls) c.older (c.opened ∷ c.newer) priced) in
    let price =
      cost_at-subtract_layers c.opened.id (map whole c.older) ls
      ∙ All-middle (IsPriced ls) c.older c.opened c.newer priced in
    let last =
      subtract_layer-totals c.opened.id c.taken c.opened.unit_cost before
        (IsKeyed-subtract_layers (map whole c.older) ls k) price in
    let e = subtract_layers-append (map whole c.older) ((c.opened.id, c.taken) ∷ []) ls in
    (
      ap total_qty e
          ∙ last.0
          ∙ ap (λ (n : ℤ). n -ℤ c.taken) used.0
          ∙ sub_sub (total_qty ls) (total_qty c.older) c.taken
          ∙ ap (λ (n : ℤ). total_qty ls -ℤ n) c.adds_up,
      ap total_value e
          ∙ last.1
          ∙ ap (λ (n : ℤ). n -ℤ c.taken *ℤ c.opened.unit_cost) used.1
          ∙ sub_sub (total_value ls) (total_value c.older) (c.taken *ℤ c.opened.unit_cost),
    )

-- The layers that an issue may use are priced and in stock.
IsPriced-weaken :
    (x : StockLayer) (ls ys : List StockLayer)
    → All (HasOtherId x) ys
    → All (IsPriced ls) ys
    → All (IsPriced (x ∷ ls)) ys
IsPriced-weaken x ls [] o h = tt
IsPriced-weaken x ls (y ∷ ys) o h = (ground (arith, o.0, h.0), IsPriced-weaken x ls ys o.1 h.1)

pub All-IsPriced : (ls : List StockLayer) → IsKeyed ls → All (IsPriced ls) ls
All-IsPriced [] k = tt
All-IsPriced (x ∷ xs) k = (ground arith, IsPriced-weaken x xs xs k.0 (All-IsPriced xs k.1))

pub IsStocked-keep : (p l : ℕ) (xs : List StockLayer) → All IsStocked (keep (is_available p l) xs)
IsStocked-keep p l [] = tt
IsStocked-keep p l (x ∷ xs) = elim (Bool-cases (is_available p l x)) [
  | inl e ↦ rw e (ground arith, IsStocked-keep p l xs)
  | inr e ↦ rw e (IsStocked-keep p l xs)
]
