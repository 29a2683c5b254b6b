-- ===== src/Inventory/Store/Quants.antt =====
-- The row that a movement locks and writes, found by its key.
use mathlib.Core.Path.{subst}
use alfahd_erp_system.Prelude.{
  ℕ, ◌≡◌, refl, sym, ◌∙◌, ap, false, ◌&&◌, Option, none, some, List, [], ◌∷◌, ◌==◌, if◌then◌else◌,
  ℤ, pos, ◌+ℤ◌, arith, find?, find?-holds, Bool-cases, Option-cases, inl, inr, +ℤ_zero,
}
use alfahd_erp_system.Inventory.Store.{
  StockQuant, Stock, get_quant, is_quant, get_or_create_for_update, save_quant,
}

-- The row that a movement locks.
abbrev pub locked : ℕ → ℕ → ℕ → Stock → StockQuant
locked c p l s = (get_or_create_for_update c p l s.quants).0

-- Saving a row makes it the one that its key finds, if there was one.
pub get_quant-save :
    (p l : ℕ) (q : StockQuant) (qs : List StockQuant) {x : StockQuant}
    → q.product_id ≡ p
    → q.location_id ≡ l
    → get_quant p l qs ≡ some x
    → get_quant p l (save_quant q qs) ≡ some q
unfolding get_quant
get_quant-save p l q [] hp hl h = cc
get_quant-save p l q (y ∷ ys) {x} hp hl h = elim (Bool-cases (is_quant p l y)) [
  | inl e ↦ ground arith
  | inr e ↦ ground (arith, get_quant-save p l q ys {x = x} hp hl)
]

pub get_quant-locked :
    (c p l : ℕ) (qs : List StockQuant)
    → get_quant p l (get_or_create_for_update c p l qs).1
      ≡ some (get_or_create_for_update c p l qs).0
unfolding get_or_create_for_update get_quant
get_quant-locked c p l qs = ground (arith, find?-holds (is_quant p l) qs)

pub locked-key :
    (c p l : ℕ) (qs : List StockQuant)
    → let q = (get_or_create_for_update c p l qs).0 in (q.product_id ≡ p) × (q.location_id ≡ l)
unfolding get_or_create_for_update get_quant
locked-key c p l qs = elim (Option-cases (find? (is_quant p l) qs)) [
  | inl e ↦ ground arith
  | inr (x, e) ↦ ground (arith, find?-holds (is_quant p l) qs e)
]

-- What is on hand of a product at a location.
abbrev qty_of : Option StockQuant → ℤ
qty_of none = pos 0
qty_of (some q) = q.qty_on_hand

unfoldable pub on_hand : ℕ → ℕ → List StockQuant → ℤ
on_hand p l qs = qty_of (get_quant p l qs)

get_quant-save-other :
    (p l : ℕ) (q : StockQuant) (qs : List StockQuant)
    → is_quant p l q ≡ false
    → get_quant p l (save_quant q qs) ≡ get_quant p l qs
unfolding get_quant
get_quant-save-other p l q [] h = refl
get_quant-save-other p l q (y ∷ ys) h = ground (arith, get_quant-save-other p l q ys h)

get_quant-locked-other :
    (c p l p' l' : ℕ) (qs : List StockQuant)
    → (p == p' && l == l') ≡ false
    → get_quant p' l' (get_or_create_for_update c p l qs).1 ≡ get_quant p' l' qs
unfolding get_or_create_for_update get_quant
get_quant-locked-other c p l p' l' qs h = ground arith

on_hand-locked :
    (c p l : ℕ) (qs : List StockQuant)
    → on_hand p l qs ≡ (get_or_create_for_update c p l qs).0.qty_on_hand
unfolding get_or_create_for_update get_quant on_hand
on_hand-locked c p l qs = ground arith

-- A movement changes what is on hand at its own key by its quantity, and at no other.
pub on_hand-save :
    (c p l : ℕ) (qs : List StockQuant) (q : StockQuant) (d : ℤ) (p' l' : ℕ)
    → let found = get_or_create_for_update c p l qs in
      q.product_id ≡ p
      → q.location_id ≡ l
      → q.qty_on_hand ≡ found.0.qty_on_hand +ℤ d
      → on_hand p' l' (save_quant q found.1)
        ≡ on_hand p' l' qs +ℤ (if p == p' && l == l' then d else pos 0)
unfolding on_hand
on_hand-save c p l qs q d p' l' hp hl h =
    let found = get_or_create_for_update c p l qs in
    let after = save_quant q found.1 in
    let row = get_quant-save p l q found.1 {x = found.0} hp hl (get_quant-locked c p l qs) in
    elim (Bool-cases (p == p' && l == l')) [
      | inl e ↦
          let ep : p ≡ p' = ground arith in
          let el : l ≡ l' = ground arith in
          let same : on_hand p l after ≡ on_hand p l qs +ℤ d =
            ap qty_of row ∙ h ∙ ap (λ (n : ℤ). n +ℤ d) (sym (on_hand-locked c p l qs)) in
          rw e (
            subst (λ (n : ℕ). on_hand n l' after ≡ on_hand n l' qs +ℤ d) ep
              (subst (λ (n : ℕ). on_hand p n after ≡ on_hand p n qs +ℤ d) el same))
      | inr e ↦
          let other = get_quant-save-other p' l' q found.1 (ground arith) in
          rw e (
            ap qty_of (other ∙ get_quant-locked-other c p l p' l' qs e)
            ∙ sym (+ℤ_zero (on_hand p' l' qs)))
    ]
