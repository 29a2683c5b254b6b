-- ===== src/Payments/Subledger/Running.antt =====
-- The subledger against the movements it is built from.
use alfahd_erp_system.Prelude.{
  ℕ, ◌+◌, ◌≤◌, ◌≡◌, refl, sym, ◌∙◌, ap, List, [], ◌∷◌, ltb, leb, if◌then◌else◌, ℤ, pos, ◌+ℤ◌, arith,
  int_laws, Bool-cases, eq-parts, true, false, inl, inr, zero_+ℤ, +ℤ_zero, +ℤ_assoc,
}
use alfahd_erp_system.Payments.Subledger.{
  Movement, net, insert_by_date, sorted_by_date, opening_from, running_lines, build_subledger,
}

-- The net of the movements dated before a day.
abbrev pub net_before : ℕ → List Movement → ℤ
net_before day [] = pos 0
net_before day (m ∷ ms) = (if ltb m.date day then net m else pos 0) +ℤ net_before day ms

opening_from-eq :
    (day : ℕ) (ms : List Movement) (opening : ℤ)
    → opening_from day ms opening ≡ opening +ℤ net_before day ms
unfolding opening_from
opening_from-eq day [] opening = sym (+ℤ_zero opening)
opening_from-eq day (m ∷ ms) opening = elim (Bool-cases (ltb m.date day)) [
  | inl e ↦
      rw e
        (opening_from-eq day ms (opening +ℤ net m) ∙ +ℤ_assoc opening (net m) (net_before day ms))
  | inr e ↦ rw e (rw (zero_+ℤ (net_before day ms)) (opening_from-eq day ms opening))
]

running_lines-eq :
    (date_from date_to : ℕ) (ms : List Movement) (running : ℤ)
    → date_from ≤ date_to + 1
    → (running_lines date_from date_to ms running).1 +ℤ net_before date_from ms
      ≡ running +ℤ net_before (date_to + 1) ms
unfolding running_lines
running_lines-eq date_from date_to [] running h = refl
running_lines-eq date_from date_to (m ∷ ms) running h = elim (Bool-cases (ltb m.date date_from)) [
  | inl early ↦
      let out : leb date_from m.date ≡ false = ground arith in
      let due : ltb m.date (date_to + 1) ≡ true = ground arith in
      let rest = eq-parts (running_lines-eq date_from date_to ms running h) in
      rw (out, early, due) (omega (int_laws, rest))
  | inr e ↦
      let from : leb date_from m.date ≡ true = ground arith in
      elim (Bool-cases (leb m.date date_to)) [
        | inl y ↦
            let due : ltb m.date (date_to + 1) ≡ true = ground arith in
            let rest = eq-parts (running_lines-eq date_from date_to ms (running +ℤ net m) h) in
            rw (from, e, y, due) (omega (int_laws, rest))
        | inr n ↦
            let late : ltb m.date (date_to + 1) ≡ false = ground arith in
            let rest = eq-parts (running_lines-eq date_from date_to ms running h) in
            rw (from, e, n, late) (omega (int_laws, rest))
      ]
]

net_before-insert :
    (day : ℕ) (x : Movement) (ys : List Movement)
    → net_before day (insert_by_date x ys) ≡ net_before day (x ∷ ys)
net_before-insert day x [] = refl
net_before-insert day x (y ∷ ys) = elim (Bool-cases (leb x.date y.date)) [
  | inl e ↦ rw e refl
  | inr e ↦ rw e (rw (net_before-insert day x ys) (omega int_laws))
]

net_before-sorted :
    (day : ℕ) (ms : List Movement) → net_before day (sorted_by_date ms) ≡ net_before day ms
net_before-sorted day [] = refl
net_before-sorted day (m ∷ ms) =
    net_before-insert day m (sorted_by_date ms)
    ∙ ap (λ (n : ℤ). (if ltb m.date day then net m else pos 0) +ℤ n) (net_before-sorted day ms)

-- When the period does not start more than a day after its end, a subledger opens at the net of all that
-- is dated before its period, and closes at the net of all that is dated up to its end.
pub build_subledger_balances :
    (movements : List Movement) (date_from date_to : ℕ)
    → date_from ≤ date_to + 1
    → let s = build_subledger movements date_from date_to in
      (s.opening_balance ≡ net_before date_from movements)
      × (s.closing_balance ≡ net_before (date_to + 1) movements)
unfolding build_subledger
build_subledger_balances movements date_from date_to h =
    let ms = sorted_by_date movements in
    let opening = opening_from-eq date_from ms (pos 0) ∙ zero_+ℤ (net_before date_from ms) in
    let closing = running_lines-eq date_from date_to ms (opening_from date_from ms (pos 0)) h in
    (
      opening ∙ net_before-sorted date_from movements,
      omega (
        int_laws,
        eq-parts closing,
        eq-parts opening,
        eq-parts (net_before-sorted (date_to + 1) movements),
      ),
    )
