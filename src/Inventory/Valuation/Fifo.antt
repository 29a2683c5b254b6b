-- ===== src/Inventory/Valuation/Fifo.antt =====
-- The FIFO loop described by where it stops: some of the oldest layers are used up, one is opened, and
-- the rest is not touched.
use mathlib.Core.Path.{subst}
use alfahd_erp_system.Prelude.{
  ℕ, ◌≡◌, refl, sym, ◌∙◌, ap, List, [], ◌∷◌, ◌++◌, map, ltb_ℤ, ◌<ℤ◌, ◌≤ℤ◌, ℤ, pos, ◌+ℤ◌, ◌-ℤ◌, ◌*ℤ◌,
  ok, err, arith, int_laws, -ℤ_parts, eq_of_parts, Bool-cases, ◌⊎◌, inl, inr, ◌↔◌, sum_of, All,
  zero_+ℤ, sub_sub, eq-parts, append_assoc, sum_of-append,
}
use alfahd_erp_system.Inventory.Store.{StockLayer, sorted_by_time}
use alfahd_erp_system.Inventory.Store.ByTime.{
  total_qty, IsBefore, IsSorted, sorted_by_time-IsSorted, All-sorted, total_qty-sorted,
  IsSorted-split,
}
use alfahd_erp_system.Inventory.Valuation.{
  insufficient_stock, IssueResult, FifoState, take_layer, fifo_loop, fifo_start, fifo_issue_cost,
}

-- What using up whole layers takes and costs.
abbrev pub whole : StockLayer → ℕ × ℤ
whole l = (l.id, l.qty_remaining)

abbrev pub layer_value : StockLayer → ℤ
layer_value l = l.qty_remaining *ℤ l.unit_cost

abbrev pub total_value : List StockLayer → ℤ
total_value ls = sum_of layer_value ls

abbrev pub IsStocked : StockLayer → Type 0
IsStocked l = pos 0 <ℤ l.qty_remaining

-- `older` layers are used up and `taken` comes from the layer after them.
pub record Cut (layers : List StockLayer) (qty : ℤ) : Type 0 where
  pub older : List StockLayer
  pub opened : StockLayer
  pub newer : List StockLayer
  pub taken : ℤ
  pub splits : layers ≡ older ++ opened ∷ newer
  pub is_taken : pos 0 <ℤ taken
  pub is_there : taken ≤ℤ opened.qty_remaining
  pub adds_up : total_qty older +ℤ taken ≡ qty

abbrev pub cut_consumed : {layers : List StockLayer} {qty : ℤ} → Cut layers qty → List (ℕ × ℤ)
cut_consumed c = map whole c.older ++ (c.opened.id, c.taken) ∷ []

abbrev pub cut_cost : {layers : List StockLayer} {qty : ℤ} → Cut layers qty → ℤ
cut_cost c = total_value c.older +ℤ c.taken *ℤ c.opened.unit_cost

-- The loop after a layer that is used up, and at one that is not.
abbrev used_up : StockLayer → FifoState → FifoState
used_up l s = record {
  remaining = s.remaining -ℤ l.qty_remaining;
  total_cost = s.total_cost +ℤ layer_value l;
  consumed = s.consumed ++ whole l ∷ [];
}

abbrev drawn : StockLayer → FifoState → FifoState
drawn l s = record {
  remaining = s.remaining -ℤ s.remaining;
  total_cost = s.total_cost +ℤ s.remaining *ℤ l.unit_cost;
  consumed = s.consumed ++ (l.id, s.remaining) ∷ [];
}

take_layer-whole :
    (l : StockLayer) (s : FifoState)
    → IsStocked l
    → l.qty_remaining <ℤ s.remaining
    → take_layer l s ≡ used_up l s
unfolding take_layer
take_layer-whole l s hl h = ground arith

take_layer-part :
    (l : StockLayer) (s : FifoState)
    → pos 0 <ℤ s.remaining
    → s.remaining ≤ℤ l.qty_remaining
    → take_layer l s ≡ drawn l s
unfolding take_layer
take_layer-part l s hl h = ground (arith, eq_of_parts s.remaining l.qty_remaining)

fifo_loop-done : (ls : List StockLayer) (s : FifoState) → s.remaining ≤ℤ pos 0 → fifo_loop ls s ≡ s
unfolding fifo_loop
fifo_loop-done [] s h = refl
fifo_loop-done (l ∷ ls) s h = ground arith

fifo_loop-next :
    (l : StockLayer) (ls : List StockLayer) (s : FifoState)
    → pos 0 <ℤ s.remaining
    → fifo_loop (l ∷ ls) s ≡ fifo_loop ls (take_layer l s)
unfolding fifo_loop
fifo_loop-next l ls s h = ground arith

abbrev IsShort : List StockLayer → FifoState → FifoState → Type 0
IsShort ls s t = (t.remaining ≡ s.remaining -ℤ total_qty ls) × (pos 0 <ℤ t.remaining)

abbrev IsCut : List StockLayer → FifoState → FifoState → Type 0
IsCut ls s t =
    (c : Cut ls s.remaining) × (t.remaining ≡ pos 0)
    × (t.total_cost ≡ s.total_cost +ℤ cut_cost c)
    × (t.consumed ≡ s.consumed ++ cut_consumed c)

regroup : (s a v x : ℤ) → s +ℤ a +ℤ (v +ℤ x) ≡ s +ℤ (a +ℤ v +ℤ x)
regroup s a v x = omega int_laws

IsShort-next :
    (l : StockLayer) (ls : List StockLayer) (s t : FifoState)
    → IsShort ls (used_up l s) t
    → IsShort (l ∷ ls) s t
IsShort-next l ls s t h = (h.0 ∙ sub_sub s.remaining l.qty_remaining (total_qty ls), h.1)

IsCut-next :
    (l : StockLayer) (ls : List StockLayer) (s t : FifoState)
    → IsCut ls (used_up l s) t
    → IsCut (l ∷ ls) s t
IsCut-next l ls s t (c, e, v, m) = (
  record {
    older = l ∷ c.older;
    opened = c.opened;
    newer = c.newer;
    taken = c.taken;
    splits = ap (λ xs. l ∷ xs) c.splits;
    is_taken = c.is_taken;
    is_there = c.is_there;
    adds_up = omega (int_laws, eq-parts c.adds_up);
  },
  e,
  v ∙ regroup s.total_cost (layer_value l) (total_value c.older) (c.taken *ℤ c.opened.unit_cost),
  m ∙ append_assoc s.consumed (whole l ∷ []) (cut_consumed c),
)

IsCut-here :
    (l : StockLayer) (ls : List StockLayer) (s : FifoState)
    → pos 0 <ℤ s.remaining
    → s.remaining ≤ℤ l.qty_remaining
    → IsCut (l ∷ ls) s (drawn l s)
IsCut-here l ls s hs h = (
  record {
    older = [];
    opened = l;
    newer = ls;
    taken = s.remaining;
    splits = refl;
    is_taken = hs;
    is_there = h;
    adds_up = zero_+ℤ s.remaining;
  },
  omega int_laws,
  ap (λ (v : ℤ). s.total_cost +ℤ v) (sym (zero_+ℤ (s.remaining *ℤ l.unit_cost))),
  refl,
)

fifo_loop_cuts :
    (ls : List StockLayer) (s : FifoState)
    → All IsStocked ls
    → pos 0 <ℤ s.remaining
    → IsShort ls s (fifo_loop ls s) ⊎ IsCut ls s (fifo_loop ls s)
unfolding fifo_loop
fifo_loop_cuts [] s h hs = inl (omega int_laws, hs)
fifo_loop_cuts (l ∷ ls) s h hs = elim (Bool-cases (ltb_ℤ l.qty_remaining s.remaining)) [
  | inl e ↦
      let rest =
        fifo_loop_cuts ls (used_up l s) h.1
          (ground (arith, -ℤ_parts s.remaining l.qty_remaining)) in
      let step : fifo_loop (l ∷ ls) s ≡ fifo_loop ls (used_up l s) =
        fifo_loop-next l ls s hs ∙ ap (fifo_loop ls) (take_layer-whole l s h.0 (ground arith)) in
      rw step (elim rest [
        | inl r ↦ inl (IsShort-next l ls s (fifo_loop ls (used_up l s)) r)
        | inr r ↦ inr (IsCut-next l ls s (fifo_loop ls (used_up l s)) r)
      ])
  | inr e ↦
      let part = take_layer-part l s hs (ground arith) in
      let step : fifo_loop (l ∷ ls) s ≡ drawn l s =
        fifo_loop-next l ls s hs
        ∙ ap (fifo_loop ls) part
        ∙ fifo_loop-done ls (drawn l s) (omega int_laws) in
      rw step (inr (IsCut-here l ls s hs (ground arith)))
]

fifo_loop-sorted :
    (qty : ℤ) (layers : List StockLayer)
    → All IsStocked layers
    → pos 0 <ℤ qty
    → let ls = sorted_by_time layers in
      IsShort ls (fifo_start qty) (fifo_loop ls (fifo_start qty))
      ⊎ IsCut ls (fifo_start qty) (fifo_loop ls (fifo_start qty))
fifo_loop-sorted qty layers h hq =
    fifo_loop_cuts (sorted_by_time layers) (fifo_start qty) (All-sorted IsStocked layers h) hq

-- Over the layers in stock, whatever is charged for an issue comes from a cut of the layers by age: the
-- older ones are used up, one gives the rest of the quantity, the newer ones give nothing, and what is
-- charged is what each part cost.
pub fifo_issue_cost_cuts :
    (qty : ℤ) (layers : List StockLayer) {r : IssueResult}
    → All IsStocked layers
    → pos 0 <ℤ qty
    → fifo_issue_cost qty layers ≡ ok r
    → (c : Cut (sorted_by_time layers) qty) × All (λ (l : StockLayer). IsBefore l c.opened) c.older
      × All (IsBefore c.opened) c.newer
      × (r.total_cost ≡ cut_cost c)
      × (r.consumed ≡ cut_consumed c)
unfolding fifo_issue_cost
fifo_issue_cost_cuts qty layers {r} h hq hr = elim (fifo_loop-sorted qty layers h hq) [
  | inl short ↦ ground arith
  | inr (c, e, v, m) ↦
      let order =
        IsSorted-split c.older c.opened c.newer
          (subst IsSorted c.splits (sorted_by_time-IsSorted layers)) in
      let cost : r.total_cost ≡ (fifo_loop (sorted_by_time layers) (fifo_start qty)).total_cost =
        ground arith in
      let used : r.consumed ≡ (fifo_loop (sorted_by_time layers) (fifo_start qty)).consumed =
        ground arith in
      (c, order.0, order.1, cost ∙ v ∙ zero_+ℤ (cut_cost c), used ∙ m)
]

total_qty-nonneg : (ls : List StockLayer) → All IsStocked ls → pos 0 ≤ℤ total_qty ls
total_qty-nonneg [] h = omega arith
total_qty-nonneg (l ∷ ls) h = omega (int_laws, total_qty-nonneg ls h.1, h.0)

All-newer : (P : StockLayer → Type 0) (xs ys : List StockLayer) → All P (xs ++ ys) → All P ys
All-newer P [] ys h = h
All-newer P (x ∷ xs) ys h = All-newer P xs ys h.1

Cut-le : {ls : List StockLayer} {qty : ℤ} → All IsStocked ls → Cut ls qty → qty ≤ℤ total_qty ls
Cut-le {ls} {qty} h c =
    let e =
      ap total_qty c.splits
      ∙ sum_of-append (λ (l : StockLayer). l.qty_remaining) c.older (c.opened ∷ c.newer) in
    let there : All IsStocked (c.older ++ c.opened ∷ c.newer) = subst (All IsStocked) c.splits h in
    let rest =
      total_qty-nonneg c.newer (All-newer IsStocked c.older (c.opened ∷ c.newer) there).1 in
    omega (int_laws, eq-parts e, rest, c.is_there, eq-parts c.adds_up)

-- An issue is refused exactly when the layers hold less than is wanted.
pub fifo_issue_cost_refused :
    (qty : ℤ) (layers : List StockLayer)
    → All IsStocked layers
    → pos 0 <ℤ qty
    → (fifo_issue_cost qty layers ≡ err insufficient_stock) ↔ (total_qty layers <ℤ qty)
unfolding fifo_issue_cost
fifo_issue_cost_refused qty layers h hq =
    let same = total_qty-sorted layers in
    (
      λ he. elim (fifo_loop-sorted qty layers h hq) [
        | inl short ↦ omega (int_laws, eq-parts (short.0), short.1, eq-parts same)
        | inr (c, e, v, m) ↦ ground arith
      ],
      λ hl. elim (fifo_loop-sorted qty layers h hq) [
        | inl short ↦ ground arith
        | inr (c, e, v, m) ↦ absurd (
            omega
              (int_laws, Cut-le {qty = qty} (All-sorted IsStocked layers h) c, eq-parts same, hl))
      ],
    )
