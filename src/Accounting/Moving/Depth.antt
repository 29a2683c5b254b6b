-- ===== src/Accounting/Moving/Depth.antt =====
-- What the walks of a move find: whether the moved account is on the way up, and how far down its
-- descendants go.
use mathlib.Core.Path.{subst}
use alfahd_erp_system.Prelude.{
  ℕ, zero, suc, ◌≤◌, ◌≡◌, ◌↔◌, refl, sym, Bool, true, Option, none, some, List, [], ◌∷◌, ◌==◌,
  arith, ◌⊎◌, inl, inr, Bool-cases, Option-cases,
}
use alfahd_erp_system.Accounting.Store.{Account, Books}
use alfahd_erp_system.Accounting.Chart.{list_children}
use alfahd_erp_system.Accounting.Moving.{
  ltb, nothing_below, meets, parent_of, deepest_of, deepest_descendant_offset,
}

-- The account itself, its parent, its parent's parent and so on, one of which has the id i.
pub data IsMet (b : Books) (i : ℕ) : Option Account → Type 0 where
  this : {a : Account} → a.id ≡ i → IsMet b i (some a)
  above : {a : Account} → IsMet b i (parent_of a.parent_id b) → IsMet b i (some a)

meets-IsMet :
    (fuel i : ℕ) (b : Books) (o : Option Account) → meets fuel i o b ≡ some true → IsMet b i o
unfolding meets
meets-IsMet zero i b none h = absurd (ground arith)
meets-IsMet (suc fuel) i b none h = absurd (ground arith)
meets-IsMet zero i b (some a) h = absurd (ground arith)
meets-IsMet (suc fuel) i b (some a) h = elim (Bool-cases (a.id == i)) [
  | inl same ↦ this (ground arith)
  | inr other ↦ above (meets-IsMet fuel i b (parent_of a.parent_id b) (rw other at h))
]

IsMet-meets :
    (fuel i : ℕ) (b : Books) (o : Option Account) {r : Bool}
    → meets fuel i o b ≡ some r
    → IsMet b i o
    → r ≡ true
unfolding meets
IsMet-meets zero i b none h m = elim m [ ]
IsMet-meets (suc fuel) i b none h m = elim m [ ]
IsMet-meets zero i b (some a) h m = absurd (ground arith)
IsMet-meets (suc fuel) i b (some a) h (this same) = ground arith
IsMet-meets (suc fuel) i b (some a) {r} h (above m) = elim (Bool-cases (a.id == i)) [
  | inl same ↦ ground arith
  | inr other ↦ IsMet-meets fuel i b (parent_of a.parent_id b) (rw other at h) m
]

pub meets-answers :
    (fuel i : ℕ) (b : Books) (o : Option Account) {r : Bool}
    → meets fuel i o b ≡ some r
    → (r ≡ true) ↔ IsMet b i o
meets-answers fuel i b o {r} h =
    (λ e. meets-IsMet fuel i b o (rw e at h), λ m. IsMet-meets fuel i b o h m)

abbrev IsIn : Account → List Account → Type 0
IsIn a [] = ⊥
IsIn a (x ∷ xs) = (x ≡ a) ⊎ IsIn a xs

-- The account j is k levels below the account i, from child to child.
pub data Below (b : Books) : ℕ → ℕ → ℕ → Type 0 where
  self : {i : ℕ} → Below b i 0 i
  down :
      {i k j : ℕ} (c : Account)
      → IsIn c (list_children i b)
      → Below b c.id k j
      → Below b i (suc k) j

deepest_of_bound :
    (offset : ℕ → Option ℕ) (cs : List Account) (c : Account) {n : ℕ}
    → deepest_of offset cs ≡ some n
    → IsIn c cs
    → (m : ℕ) × (offset c.id ≡ some m) × (suc m ≤ n)
deepest_of_bound offset [] c h there = elim there [ ]
deepest_of_bound offset (x ∷ xs) c {n} h there = elim (Option-cases (offset x.id)) [
  | inl missing ↦ absurd (ground arith)
  | inr (m, e) ↦ elim (Option-cases (deepest_of offset xs)) [
    | inl missing ↦ absurd (ground arith)
    | inr (most, e') ↦ elim there [
      | inl same ↦ (m, subst (λ (y : Account). offset y.id ≡ some m) same e, ground arith)
      | inr later ↦
          let (k, found, le) = deepest_of_bound offset xs c e' later in (k, found, ground arith)
    ]
  ]
]

deepest_of_reached :
    (offset : ℕ → Option ℕ) (cs : List Account) {n : ℕ}
    → deepest_of offset cs ≡ some n
    → (n ≡ 0) ⊎ ((c : Account) × IsIn c cs × ((m : ℕ) × (offset c.id ≡ some m) × (n ≡ suc m)))
deepest_of_reached offset [] h = inl (ground arith)
deepest_of_reached offset (x ∷ xs) {n} h = elim (Option-cases (offset x.id)) [
  | inl missing ↦ absurd (ground arith)
  | inr (m, e) ↦ elim (Option-cases (deepest_of offset xs)) [
    | inl missing ↦ absurd (ground arith)
    | inr (most, e') ↦ elim (Bool-cases (ltb (suc m) most)) [
      | inr first ↦ inr (x, inl refl, (m, e, ground arith))
      | inl more ↦ elim (deepest_of_reached offset xs e') [
        | inl none_below ↦ absurd (ground arith)
        | inr (c, there, (k, found, is)) ↦ inr (c, inr there, (k, found, ground arith))
      ]
    ]
  ]
]

nothing_below-IsIn :
    (cs : List Account) (c : Account) {n : ℕ} → nothing_below cs ≡ some n → IsIn c cs → ⊥
nothing_below-IsIn [] c h there = elim there [ ]
nothing_below-IsIn (x ∷ xs) c h there = ground arith

-- No descendant is further down than the offset.
pub deepest_bound :
    (b : Books) (fuel : ℕ) {i k j n : ℕ}
    → deepest_descendant_offset fuel i b ≡ some n
    → Below b i k j
    → k ≤ n
unfolding deepest_descendant_offset
deepest_bound b fuel h self = omega arith
deepest_bound b zero {i} h (down c there rest) =
    absurd (nothing_below-IsIn (list_children i b) c h there)
deepest_bound b (suc fuel) {i} h (down c there rest) =
    let (m, found, le) =
      deepest_of_bound (λ j. deepest_descendant_offset fuel j b) (list_children i b) c h there in
    let deep = deepest_bound b fuel found rest in omega (arith, deep, le)

-- And one is that far down.
pub deepest_reached :
    (fuel : ℕ) (b : Books) (i : ℕ) {n : ℕ}
    → deepest_descendant_offset fuel i b ≡ some n
    → (j : ℕ) × Below b i n j
unfolding deepest_descendant_offset
deepest_reached zero b i {n} h =
    let is : n ≡ 0 = nothing_below-zero (list_children i b) h in
    (i, subst (λ (k : ℕ). Below b i k i) (sym is) self)
  where
    nothing_below-zero : (cs : List Account) {m : ℕ} → nothing_below cs ≡ some m → m ≡ 0
    nothing_below-zero [] e = ground arith
    nothing_below-zero (x ∷ xs) e = absurd (ground arith)
deepest_reached (suc fuel) b i {n} h =
    elim (deepest_of_reached (λ j. deepest_descendant_offset fuel j b) (list_children i b) h) [
      | inl is ↦ (i, subst (λ (k : ℕ). Below b i k i) (sym is) self)
      | inr (c, there, (m, found, is)) ↦
          let (j, path) = deepest_reached fuel b c.id found in
          (j, subst (λ (k : ℕ). Below b i k j) (sym is) (down c there path))
    ]
