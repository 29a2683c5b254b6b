-- ===== src/FixedAssets/Depreciation/Repeat.antt =====
-- A depreciation run that is repeated for its month.
use mathlib.Core.Path.{subst}
use alfahd_erp_system.Prelude.{
  ℕ, ◌≡◌, refl, sym, ◌∙◌, ap, true, false, Option, List, [], ◌∷◌, ◌==◌, ℤ, pos, negsuc, ◌-ℤ◌, ◌≤ℤ◌,
  leb_ℤ, min_ℤ, All, All-keep, keep, ok, arith, int_laws, Bool-cases, Result-cases, inl, inr,
  -ℤ_parts,
}
use alfahd_erp_system.Decimal.{half_up, signed}
use alfahd_erp_system.FixedAssets.Register.{
  Date, month_start, FixedAsset, DepreciationEntry, AssetRegister, list_active, is_active,
  sum_for_asset, get_for_asset_and_period,
}
use alfahd_erp_system.FixedAssets.Depreciation.{
  DepreciationRun, Outcome, not_yet_acquired, already_posted, fully_depreciated, posted,
  depreciable_base, monthly_amount, outcome, depreciation_entry, apply, depreciate, depreciate_all,
  run_depreciation,
}
use alfahd_erp_system.FixedAssets.Depreciation.Limit.{
  is_skip, apply-assets, apply-adds, sum_for_asset-next,
}

-- The run would skip the asset.
abbrev IsSettled : Date → List DepreciationEntry → FixedAsset → Type 0
IsSettled period es a = is_skip (outcome period a es) ≡ true

abbrev pub IsDepreciable : FixedAsset → Type 0
IsDepreciable a = pos 0 ≤ℤ depreciable_base a

signed_nonneg : (n : ℤ) (d : ℕ) → pos 0 ≤ℤ n → pos 0 ≤ℤ signed half_up n d
signed_nonneg (pos n) d h = omega arith
signed_nonneg (negsuc n) d h = absurd (omega arith)

monthly_nonneg : (a : FixedAsset) → IsDepreciable a → pos 0 ≤ℤ monthly_amount a
unfolding monthly_amount
monthly_nonneg a h = signed_nonneg (depreciable_base a) a.useful_life_months h

min_nonneg : (m n : ℤ) → pos 0 ≤ℤ m → pos 0 ≤ℤ n → pos 0 ≤ℤ min_ℤ m n
min_nonneg m n hm hn = ground arith

outcome_nonneg :
    (period : Date) (a : FixedAsset) (es : List DepreciationEntry) (amount : ℤ)
    → IsDepreciable a
    → outcome period a es ≡ posted amount
    → pos 0 ≤ℤ amount
unfolding outcome
outcome_nonneg period a es amount d h =
    let left : ℤ = depreciable_base a -ℤ sum_for_asset a.id es in
    let e : amount ≡ min_ℤ (monthly_amount a) left = ground arith in
    let more : leb_ℤ left (pos 0) ≡ false = ground arith in
    rw e (min_nonneg (monthly_amount a) left (monthly_nonneg a d) (ground arith))

-- More rows settle no less.
sum_for_asset_mono :
    (i : ℕ) (e : DepreciationEntry) (es : List DepreciationEntry)
    → pos 0 ≤ℤ e.amount
    → sum_for_asset i es ≤ℤ sum_for_asset i (e ∷ es)
sum_for_asset_mono i e es h = elim (Bool-cases (e.fixed_asset_id == i)) [
  | inl y ↦ rw (sum_for_asset-next i e es) (rw y (omega (int_laws, h)))
  | inr n ↦ rw (sum_for_asset-next i e es) (rw n (omega arith))
]

left_mono : (b x y : ℤ) → x ≤ℤ y → leb_ℤ (b -ℤ x) (pos 0) ≡ true → leb_ℤ (b -ℤ y) (pos 0) ≡ true
left_mono b x y h l = ground (arith, -ℤ_parts b x, -ℤ_parts b y)

IsSettled-next :
    (period : Date) (a : FixedAsset) (e : DepreciationEntry) (es : List DepreciationEntry)
    → pos 0 ≤ℤ e.amount
    → IsSettled period es a
    → IsSettled period (e ∷ es) a
unfolding outcome get_for_asset_and_period
IsSettled-next period a e es h s =
    let more =
      left_mono (depreciable_base a) (sum_for_asset a.id es) (sum_for_asset a.id (e ∷ es))
        (sum_for_asset_mono a.id e es h) in
    elim (Bool-cases (leb_ℤ (depreciable_base a -ℤ sum_for_asset a.id es) (pos 0))) [
      | inl l ↦ let m = more l in ground (arith, m)
      | inr l ↦ ground arith
    ]

IsSettled-own :
    (r : DepreciationRun) (a : FixedAsset) (amount : ℤ) (i : ℕ) (es : List DepreciationEntry)
    → IsSettled (month_start r.period_month) (depreciation_entry r a amount i ∷ es) a
unfolding outcome get_for_asset_and_period
IsSettled-own r a amount i es = ground arith

-- A round settles its asset, and unsettles none.
depreciate-settles :
    (r : DepreciationRun) (x : FixedAsset) (s s' : AssetRegister)
    → depreciate r x s ≡ ok s'
    → IsSettled (month_start r.period_month) s'.depreciation x
unfolding depreciate
depreciate-settles r x s s' h =
    elim (apply-adds r x (outcome (month_start r.period_month) x s.depreciation) s s' h) [
      | inl (k, e) ↦ rw e k
      | inr (amount, i, o, e) ↦ rw e (IsSettled-own r x amount i s.depreciation)
    ]

depreciate-IsSettled :
    (r : DepreciationRun) (a x : FixedAsset) (s s' : AssetRegister)
    → IsDepreciable x
    → depreciate r x s ≡ ok s'
    → IsSettled (month_start r.period_month) s.depreciation a
    → IsSettled (month_start r.period_month) s'.depreciation a
unfolding depreciate
depreciate-IsSettled r a x s s' d h k =
    elim (apply-adds r x (outcome (month_start r.period_month) x s.depreciation) s s' h) [
      | inl (q, e) ↦ rw e k
      | inr (amount, i, o, e) ↦ rw e (
          IsSettled-next (month_start r.period_month) a (depreciation_entry r x amount i)
            s.depreciation (outcome_nonneg (month_start r.period_month) x s.depreciation amount d o)
            k)
    ]

-- The rounds of a run that returned.
depreciate_all-eq-ok :
    (r : DepreciationRun) (x : FixedAsset) (xs : List FixedAsset) (s s' : AssetRegister)
    {ls : List (ℕ × Outcome)}
    → depreciate_all r (x ∷ xs) s ≡ ok (ls, s')
    → (mid : AssetRegister) × ((rest : List (ℕ × Outcome)) × (depreciate r x s ≡ ok mid)
        × (depreciate_all r xs mid ≡ ok (rest, s')))
unfolding depreciate_all
depreciate_all-eq-ok r x xs s s' h = elim (Result-cases (depreciate r x s)) [
  | inl (mid, d) ↦ elim (Result-cases (depreciate_all r xs mid)) [
    | inl ((rest, last), q) ↦
        let e : last ≡ s' = ground arith in
        (mid, (rest, d, subst (λ (y : AssetRegister). depreciate_all r xs mid ≡ ok (rest, y)) e q))
    | inr (z, q) ↦ ground arith
  ]
  | inr (z, d) ↦ ground arith
]

depreciate_all-IsSettled :
    (r : DepreciationRun) (a : FixedAsset) (xs : List FixedAsset) (s s' : AssetRegister)
    {ls : List (ℕ × Outcome)}
    → All IsDepreciable xs
    → depreciate_all r xs s ≡ ok (ls, s')
    → IsSettled (month_start r.period_month) s.depreciation a
    → IsSettled (month_start r.period_month) s'.depreciation a
unfolding depreciate_all
depreciate_all-IsSettled r a [] s s' k h w =
    let e : s ≡ s' = ground arith in
    subst (λ (y : AssetRegister). IsSettled (month_start r.period_month) y.depreciation a) e w
depreciate_all-IsSettled r a (x ∷ xs) s s' k h w =
    let (mid, (rest, d, q)) = depreciate_all-eq-ok r x xs s s' h in
    depreciate_all-IsSettled r a xs mid s' k.1 q (depreciate-IsSettled r a x s mid k.0 d w)

depreciate_all-settles :
    (r : DepreciationRun) (xs : List FixedAsset) (s s' : AssetRegister) {ls : List (ℕ × Outcome)}
    → All IsDepreciable xs
    → depreciate_all r xs s ≡ ok (ls, s')
    → All (IsSettled (month_start r.period_month) s'.depreciation) xs
depreciate_all-settles r [] s s' k h = tt
depreciate_all-settles r (x ∷ xs) s s' k h =
    let (mid, (rest, d, q)) = depreciate_all-eq-ok r x xs s s' h in
    (
      depreciate_all-IsSettled r x xs mid s' k.1 q (depreciate-settles r x s mid d),
      depreciate_all-settles r xs mid s' k.1 q,
    )

-- Settled assets are skipped.
apply-skip :
    (r : DepreciationRun) (a : FixedAsset) (o : Outcome) (s : AssetRegister)
    → is_skip o ≡ true
    → apply r a o s ≡ ok s
apply-skip r a not_yet_acquired s h = refl
apply-skip r a already_posted s h = refl
apply-skip r a fully_depreciated s h = refl
apply-skip r a (posted amount) s h = cc

abbrev found : DepreciationRun → AssetRegister → List FixedAsset → List (ℕ × Outcome)
found r s [] = []
found r s (a ∷ rest) =
    (a.id, outcome (month_start r.period_month) a s.depreciation) ∷ found r s rest

depreciate_all-skips :
    (r : DepreciationRun) (xs : List FixedAsset) (s : AssetRegister)
    → All (IsSettled (month_start r.period_month) s.depreciation) xs
    → depreciate_all r xs s ≡ ok (found r s xs, s)
unfolding depreciate_all depreciate
depreciate_all-skips r [] s h = refl
depreciate_all-skips r (x ∷ xs) s h =
    rw (apply-skip r x (outcome (month_start r.period_month) x s.depreciation) s h.0)
      (rw (depreciate_all-skips r xs s h.1) refl)

depreciate_all-assets :
    (r : DepreciationRun) (xs : List FixedAsset) (s s' : AssetRegister) {ls : List (ℕ × Outcome)}
    → depreciate_all r xs s ≡ ok (ls, s')
    → s'.assets ≡ s.assets
unfolding depreciate_all depreciate
depreciate_all-assets r [] s s' h = ground arith
depreciate_all-assets r (x ∷ xs) s s' h =
    let (mid, (rest, d, q)) = depreciate_all-eq-ok r x xs s s' h in
    depreciate_all-assets r xs mid s' q
    ∙ apply-assets r x (outcome (month_start r.period_month) x s.depreciation) s mid d

abbrev pub WasSkipped : ℕ × Outcome → Type 0
WasSkipped x = is_skip x.1 ≡ true

found-WasSkipped :
    (r : DepreciationRun) (s : AssetRegister) (xs : List FixedAsset)
    → All (IsSettled (month_start r.period_month) s.depreciation) xs
    → All WasSkipped (found r s xs)
found-WasSkipped r s [] h = tt
found-WasSkipped r s (x ∷ xs) h = (h.0, found-WasSkipped r s xs h.1)

-- A run that is repeated for the same month, company and category returns, skips every asset and leaves
-- the register and the books as they are, when no asset's salvage value is above its cost.
pub run_depreciation_repeats :
    (r again : DepreciationRun) (s s' : AssetRegister) {ls : List (ℕ × Outcome)}
    → All IsDepreciable s.assets
    → run_depreciation r s ≡ ok (ls, s')
    → again.company_id ≡ r.company_id
    → again.category_id ≡ r.category_id
    → month_start again.period_month ≡ month_start r.period_month
    → (skipped : List (ℕ × Outcome)) × (run_depreciation again s' ≡ ok (skipped, s'))
      × All WasSkipped skipped
unfolding run_depreciation list_active
run_depreciation_repeats r again s s' k h hc hg hm =
    let xs = list_active r.company_id r.category_id s in
    let settled =
      depreciate_all-settles r xs s s'
        (All-keep IsDepreciable (is_active r.company_id r.category_id) s.assets k) h in
    let same : list_active again.company_id again.category_id s' ≡ xs =
      ap (λ (n : ℕ). keep (is_active n again.category_id) s'.assets) hc
      ∙ ap (λ (g : Option ℕ). keep (is_active r.company_id g) s'.assets) hg
      ∙ ap (keep (is_active r.company_id r.category_id)) (depreciate_all-assets r xs s s' h) in
    let here : All (IsSettled (month_start again.period_month) s'.depreciation)
        (list_active again.company_id again.category_id s') =
      subst
        (λ (d : Date).
          All (IsSettled d s'.depreciation) (list_active again.company_id again.category_id s'))
        (sym hm)
        (subst (All (IsSettled (month_start r.period_month) s'.depreciation)) (sym same) settled) in
    (
      found again s' (list_active again.company_id again.category_id s'),
      depreciate_all-skips again (list_active again.company_id again.category_id s') s' here,
      found-WasSkipped again s' (list_active again.company_id again.category_id s') here,
    )
