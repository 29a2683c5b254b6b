-- ===== src/Inventory/Store/ByTime.antt =====
-- Layers sorted by the time they came in.
use alfahd_erp_system.Prelude.{
  ◌≡◌, refl, ◌∙◌, ap, List, [], ◌∷◌, ◌++◌, ℤ, ◌+ℤ◌, arith, int_laws, Bool-cases, inl, inr, sum_of,
  All, ◌≤◌, leb,
}
use alfahd_erp_system.Inventory.Store.{StockLayer, sorted_by_time, insert_by_time}

abbrev pub total_qty : List StockLayer → ℤ
total_qty ls = sum_of (λ l. l.qty_remaining) ls

-- Sorting by time keeps what is stocked and the total, and puts older layers first.
abbrev pub IsBefore : StockLayer → StockLayer → Type 0
IsBefore a b = a.received_at ≤ b.received_at

abbrev pub IsSorted : List StockLayer → Type 0
IsSorted [] = Unit
IsSorted (x ∷ xs) = All (IsBefore x) xs × IsSorted xs

All-insert :
    (P : StockLayer → Type 0) (x : StockLayer) (ys : List StockLayer)
    → P x
    → All P ys
    → All P (insert_by_time x ys)
All-insert P x [] hx hy = (hx, tt)
All-insert P x (y ∷ ys) hx hy = elim (Bool-cases (leb x.received_at y.received_at)) [
  | inl e ↦ rw e (hx, hy)
  | inr e ↦ rw e (hy.0, All-insert P x ys hx hy.1)
]

pub All-sorted :
    (P : StockLayer → Type 0) (xs : List StockLayer) → All P xs → All P (sorted_by_time xs)
All-sorted P [] h = tt
All-sorted P (x ∷ xs) h = All-insert P x (sorted_by_time xs) h.0 (All-sorted P xs h.1)

All-IsBefore :
    (x y : StockLayer) (ys : List StockLayer)
    → IsBefore x y
    → All (IsBefore y) ys
    → All (IsBefore x) ys
All-IsBefore x y [] h hy = tt
All-IsBefore x y (z ∷ zs) h hy = (omega (arith, h, hy.0), All-IsBefore x y zs h hy.1)

IsSorted-insert :
    (x : StockLayer) (ys : List StockLayer) → IsSorted ys → IsSorted (insert_by_time x ys)
IsSorted-insert x [] h = (tt, tt)
IsSorted-insert x (y ∷ ys) h = elim (Bool-cases (leb x.received_at y.received_at)) [
  | inl e ↦ let xy : IsBefore x y = ground arith in rw e ((xy, All-IsBefore x y ys xy h.0), h)
  | inr e ↦
      let yx : IsBefore y x = ground arith in
      rw e (All-insert (IsBefore y) x ys yx h.0, IsSorted-insert x ys h.1)
]

pub sorted_by_time-IsSorted : (xs : List StockLayer) → IsSorted (sorted_by_time xs)
sorted_by_time-IsSorted [] = tt
sorted_by_time-IsSorted (x ∷ xs) =
    IsSorted-insert x (sorted_by_time xs) (sorted_by_time-IsSorted xs)

total_qty-insert :
    (x : StockLayer) (ys : List StockLayer)
    → total_qty (insert_by_time x ys) ≡ x.qty_remaining +ℤ total_qty ys
total_qty-insert x [] = refl
total_qty-insert x (y ∷ ys) = elim (Bool-cases (leb x.received_at y.received_at)) [
  | inl e ↦ rw e refl
  | inr e ↦ rw e (rw (total_qty-insert x ys) (omega int_laws))
]

pub total_qty-sorted : (xs : List StockLayer) → total_qty (sorted_by_time xs) ≡ total_qty xs
total_qty-sorted [] = refl
total_qty-sorted (x ∷ xs) =
    total_qty-insert x (sorted_by_time xs)
    ∙ ap (λ (n : ℤ). x.qty_remaining +ℤ n) (total_qty-sorted xs)

pub All-middle :
    (P : StockLayer → Type 0) (xs : List StockLayer) (y : StockLayer) (ys : List StockLayer)
    → All P (xs ++ y ∷ ys)
    → P y
All-middle P [] y ys h = h.0
All-middle P (x ∷ xs) y ys h = All-middle P xs y ys h.1

-- Around a layer of a sorted list stand the older and the newer ones.
pub IsSorted-split :
    (xs : List StockLayer) (y : StockLayer) (ys : List StockLayer)
    → IsSorted (xs ++ y ∷ ys)
    → All (λ x. IsBefore x y) xs × All (IsBefore y) ys
IsSorted-split [] y ys h = (tt, h.0)
IsSorted-split (x ∷ xs) y ys h =
    let rest = IsSorted-split xs y ys h.1 in ((All-middle (IsBefore x) xs y ys h.0, rest.0), rest.1)
