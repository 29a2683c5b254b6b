-- ===== src/Inventory/Moves/Cardex.antt =====
-- The stock card: a running balance over the moves of a product, against the stock on hand.
use mathlib.Core.List.{reverse, reverse_aux}
use alfahd_erp_system.Prelude.{
  ℕ, Bool, true, none, some, ◌==◌, ◌≡◌, refl, ◌∙◌, ap, sym, List, [], ◌∷◌, map, ℤ, pos, ◌+ℤ◌,
  sum_of, keep, All, Bool-cases, inl, inr, ◌⊎◌, +ℤ_zero, zero_+ℤ, +ℤ_comm, +ℤ_assoc, arith,
}
use alfahd_erp_system.Inventory.Store.{StockMove, Stock}
use alfahd_erp_system.Inventory.Store.Quants.{on_hand}
use alfahd_erp_system.Inventory.Moves.{CardexLine, cardex_lines, signed_qty}
use alfahd_erp_system.Inventory.History.{
  move_effect, moved, sub_zero, IsMovesSum, StockReach, StockReach-IsMovesSum,
}

cardex_lines-sum :
    (opening : ℤ) (ms : List StockMove)
    → (map (λ (c : CardexLine). c.move) (cardex_lines opening ms).0 ≡ ms)
      × ((cardex_lines opening ms).1 ≡ opening +ℤ sum_of signed_qty ms)
unfolding cardex_lines
cardex_lines-sum opening [] = (refl, sym (+ℤ_zero opening))
cardex_lines-sum opening (m ∷ ms) =
    let rest = cardex_lines-sum (opening +ℤ signed_qty m) ms in
    (
      ap (λ (xs : List StockMove). m ∷ xs) rest.0,
      rest.1 ∙ +ℤ_assoc opening (signed_qty m) (sum_of signed_qty ms),
    )

sum_of-reverse_aux :
    (ms acc : List StockMove)
    → sum_of signed_qty (reverse_aux ms acc) ≡ sum_of signed_qty ms +ℤ sum_of signed_qty acc
sum_of-reverse_aux [] acc = sym (zero_+ℤ (sum_of signed_qty acc))
sum_of-reverse_aux (m ∷ ms) acc =
    sum_of-reverse_aux ms (m ∷ acc)
    ∙ sym (+ℤ_assoc (sum_of signed_qty ms) (signed_qty m) (sum_of signed_qty acc))
    ∙ ap (λ (n : ℤ). n +ℤ sum_of signed_qty acc) (+ℤ_comm (sum_of signed_qty ms) (signed_qty m))

sum_of-reverse : (ms : List StockMove) → sum_of signed_qty (reverse ms) ≡ sum_of signed_qty ms
sum_of-reverse ms = sum_of-reverse_aux ms [] ∙ +ℤ_zero (sum_of signed_qty ms)

-- A product whose moves go into or out of one location.
abbrev IsEnd : ℕ → StockMove → Type 0
IsEnd l m =
    (m.source_location_id ≡ none) × (m.dest_location_id ≡ some l)
    ⊎ (m.source_location_id ≡ some l) × (m.dest_location_id ≡ none)

abbrev pub IsKeptAt : ℕ → ℕ → StockMove → Type 0
IsKeptAt p l m = (m.product_id == p) ≡ true → IsEnd l m

abbrev pub is_of : ℕ → StockMove → Bool
is_of p m = m.product_id == p

-- At its end, a move does what the card says.
end-effect : (l : ℕ) (m : StockMove) → IsEnd l m → move_effect m.product_id l m ≡ signed_qty m
end-effect l m (inl (from, to)) = rw (from, to) (ground (arith, sub_zero m.qty))
end-effect l m (inr (from, to)) = rw (from, to) (ground arith)

signed_qty-moved :
    (p l : ℕ) (ms : List StockMove)
    → All (IsKeptAt p l) ms
    → sum_of signed_qty (keep (is_of p) ms) ≡ moved p l ms
signed_qty-moved p l [] h = refl
signed_qty-moved p l (m ∷ ms) h =
    let rest = signed_qty-moved p l ms h.1 in
    elim (Bool-cases (m.product_id == p)) [
      | inr other ↦ rw other (rest ∙ sym (zero_+ℤ (moved p l ms)))
      | inl own ↦
          let same : m.product_id ≡ p = ground arith in
          let effect : move_effect p l m ≡ signed_qty m =
            ap (λ (k : ℕ). move_effect k l m) (sym same) ∙ end-effect l m (h.0 own) in
          let first : sum_of signed_qty (keep (is_of p) (m ∷ ms))
              ≡ signed_qty m +ℤ sum_of signed_qty (keep (is_of p) ms) =
            rw own refl in
          first
          ∙ ap (λ (n : ℤ). signed_qty m +ℤ n) rest
          ∙ ap (λ (n : ℤ). n +ℤ moved p l ms) (sym effect)
    ]

-- Along any sequence of receipts and issues, from tables whose quantities on hand are the sums of their
-- moves: for a product all of whose moves go into or out of one location, the stock card over its moves, the
-- oldest first, lists them in order and, opened at zero, closes at the quantity on hand there.
pub cardex_closes_on_hand :
    (s t : Stock) (p l : ℕ)
    → StockReach s t
    → IsMovesSum s
    → All (IsKeptAt p l) t.moves
    → let ms = reverse (keep (is_of p) t.moves) in
      (map (λ (c : CardexLine). c.move) (cardex_lines (pos 0) ms).0 ≡ ms)
      × ((cardex_lines (pos 0) ms).1 ≡ on_hand p l t.quants)
cardex_closes_on_hand s t p l reach agree kept =
    let ms = reverse (keep (is_of p) t.moves) in
    let (listed, closing) = cardex_lines-sum (pos 0) ms in
    (
      listed,
      closing
          ∙ zero_+ℤ (sum_of signed_qty ms)
          ∙ sum_of-reverse (keep (is_of p) t.moves)
          ∙ signed_qty-moved p l t.moves kept
          ∙ sym (StockReach-IsMovesSum s t reach agree p l),
    )
