-- ===== src/FixedAssets/Depreciation/Limit.antt =====
-- What a depreciation run may take of an asset.
use mathlib.Core.Path.{subst}
use alfahd_erp_system.Accounting.Entries.{create_draft_entry, post_entry}
use alfahd_erp_system.Prelude.{
  min_ℤ, +ℤ_comm, All-keep, ℕ, ◌≡◌, refl, true, false, Option, List, [], ◌∷◌, ◌==◌, if◌then◌else◌,
  ℤ, ◌+ℤ◌, ◌-ℤ◌, ◌≤ℤ◌, All, ok, arith, int_laws, Result-cases, ◌⊎◌, inl, inr, eq-parts,
}
use alfahd_erp_system.FixedAssets.Register.{
  Date, month_start, FixedAsset, DepreciationEntry, AssetRegister, is_active, list_active,
  sum_for_asset,
}
use alfahd_erp_system.FixedAssets.Depreciation.{
  Bool, DepreciationRun, Outcome, not_yet_acquired, already_posted, fully_depreciated, posted,
  depreciable_base, outcome, depreciation_entry, apply, monthly_amount, depreciation_draft,
  post_depreciation, depreciate, depreciate_all, run_depreciation,
}

-- Rows of one id are one asset.
abbrev pub IsSame : FixedAsset → FixedAsset → Type 0
IsSame a x = ((x.id == a.id) ≡ false) ⊎ (x ≡ a)

-- An asset is depreciated by at most its base.
abbrev pub IsWithin : FixedAsset → AssetRegister → Type 0
IsWithin a s = sum_for_asset a.id s.depreciation ≤ℤ depreciable_base a

min_le : (m n : ℤ) → min_ℤ m n ≤ℤ n
min_le m n = ground arith

outcome-le :
    (period : Date) (a : FixedAsset) (es : List DepreciationEntry) (amount : ℤ)
    → outcome period a es ≡ posted amount
    → sum_for_asset a.id es +ℤ amount ≤ℤ depreciable_base a
unfolding outcome
outcome-le period a es amount h =
    let left : ℤ = depreciable_base a -ℤ sum_for_asset a.id es in
    let e : amount ≡ min_ℤ (monthly_amount a) left = ground arith in
    omega (int_laws, eq-parts e, min_le (monthly_amount a) left)

post_depreciation-eq-ok :
    (r : DepreciationRun) (a : FixedAsset) (amount : ℤ) (s s' : AssetRegister)
    → post_depreciation r a amount s ≡ ok s'
    → (i : ℕ) × (s'.depreciation ≡ depreciation_entry r a amount i ∷ s.depreciation)
      × (s'.assets ≡ s.assets)
unfolding post_depreciation
post_depreciation-eq-ok r a amount s s' h =
    elim (Result-cases (create_draft_entry (depreciation_draft r a amount) s.books)) [
      | inl ((d, b), c) ↦ elim (Result-cases (post_entry d.id r.company_id r.now b)) [
        | inl ((z, last), q) ↦ (z.id, ground arith, ground arith)
        | inr (z, q) ↦ ground arith
      ]
      | inr (z, c) ↦ ground arith
    ]

abbrev pub is_skip : Outcome → Bool
is_skip (posted amount) = false
is_skip _ = true

-- A round skips the asset and adds nothing, or adds the row of what was found.
pub apply-adds :
    (r : DepreciationRun) (a : FixedAsset) (o : Outcome) (s s' : AssetRegister)
    → apply r a o s ≡ ok s'
    → ((is_skip o ≡ true) × (s'.depreciation ≡ s.depreciation))
      ⊎ ((amount : ℤ) × (i : ℕ) × (o ≡ posted amount)
          × (s'.depreciation ≡ depreciation_entry r a amount i ∷ s.depreciation))
apply-adds r a not_yet_acquired s s' h = inl (refl, ground arith)
apply-adds r a already_posted s s' h = inl (refl, ground arith)
apply-adds r a fully_depreciated s s' h = inl (refl, ground arith)
apply-adds r a (posted amount) s s' h =
    let (i, e, k) = post_depreciation-eq-ok r a amount s s' h in inr (amount, i, refl, e)

pub apply-assets :
    (r : DepreciationRun) (a : FixedAsset) (o : Outcome) (s s' : AssetRegister)
    → apply r a o s ≡ ok s'
    → s'.assets ≡ s.assets
apply-assets r a not_yet_acquired s s' h = ground arith
apply-assets r a already_posted s s' h = ground arith
apply-assets r a fully_depreciated s s' h = ground arith
apply-assets r a (posted amount) s s' h =
    let (i, e, k) = post_depreciation-eq-ok r a amount s s' h in k

pub sum_for_asset-next :
    (i : ℕ) (e : DepreciationEntry) (es : List DepreciationEntry)
    → sum_for_asset i (e ∷ es)
      ≡ (if e.fixed_asset_id == i then e.amount +ℤ sum_for_asset i es else sum_for_asset i es)
unfolding sum_for_asset
sum_for_asset-next i e es = ground arith

IsWithin-added :
    (r : DepreciationRun) (a x : FixedAsset) (s s' : AssetRegister) (amount : ℤ) (i : ℕ)
    → IsSame a x
    → IsWithin a s
    → outcome (month_start r.period_month) x s.depreciation ≡ posted amount
    → s'.depreciation ≡ depreciation_entry r x amount i ∷ s.depreciation
    → IsWithin a s'
IsWithin-added r a x s s' amount i (inl other) w o e =
    rw e
      (rw (sum_for_asset-next a.id (depreciation_entry r x amount i) s.depreciation) (rw other w))
IsWithin-added r a x s s' amount i (inr same) w o e =
    let found : outcome (month_start r.period_month) a s.depreciation ≡ posted amount =
      subst
        (λ (y : FixedAsset). outcome (month_start r.period_month) y s.depreciation ≡ posted amount)
        same o in
    let fits = outcome-le (month_start r.period_month) a s.depreciation amount found in
    let own : (x.id == a.id) ≡ true = ground arith in
    rw e (
      rw (sum_for_asset-next a.id (depreciation_entry r x amount i) s.depreciation)
        (rw own (rw (+ℤ_comm amount (sum_for_asset a.id s.depreciation)) fits)))

depreciate-IsWithin :
    (r : DepreciationRun) (a x : FixedAsset) (s s' : AssetRegister)
    → IsSame a x
    → IsWithin a s
    → depreciate r x s ≡ ok s'
    → IsWithin a s'
unfolding depreciate
depreciate-IsWithin r a x s s' same w h =
    elim (apply-adds r x (outcome (month_start r.period_month) x s.depreciation) s s' h) [
      | inl (k, e) ↦ rw e w
      | inr (amount, i, o, e) ↦ IsWithin-added r a x s s' amount i same w o e
    ]

depreciate_all-IsWithin :
    (r : DepreciationRun) (a : FixedAsset) (xs : List FixedAsset) (s s' : AssetRegister)
    {ls : List (ℕ × Outcome)}
    → All (IsSame a) xs
    → IsWithin a s
    → depreciate_all r xs s ≡ ok (ls, s')
    → IsWithin a s'
unfolding depreciate_all
depreciate_all-IsWithin r a [] s s' k w h = let e : s ≡ s' = ground arith in subst (IsWithin a) e w
depreciate_all-IsWithin r a (x ∷ xs) s s' k w h = elim (Result-cases (depreciate r x s)) [
  | inl (mid, d) ↦ elim (Result-cases (depreciate_all r xs mid)) [
    | inl ((ls, last), q) ↦
        let e : last ≡ s' = ground arith in
        subst (IsWithin a) e
          (depreciate_all-IsWithin r a xs mid last k.1 (depreciate-IsWithin r a x s mid k.0 w d) q)
    | inr (z, q) ↦ ground arith
  ]
  | inr (z, d) ↦ ground arith
]

All-list_active :
    (P : FixedAsset → Type 0) (c : ℕ) (category : Option ℕ) (s : AssetRegister)
    → All P s.assets
    → All P (list_active c category s)
unfolding list_active
All-list_active P c category s h = All-keep P (is_active c category) s.assets h

-- A depreciation run never takes an asset below its salvage value: when an asset's depreciation was at
-- most its cost less its salvage value before the run, it is so after it. Rows of the asset's id are
-- the asset itself.
pub run_depreciation_within_base :
    (r : DepreciationRun) (a : FixedAsset) (s s' : AssetRegister) {ls : List (ℕ × Outcome)}
    → All (IsSame a) s.assets
    → sum_for_asset a.id s.depreciation ≤ℤ depreciable_base a
    → run_depreciation r s ≡ ok (ls, s')
    → sum_for_asset a.id s'.depreciation ≤ℤ depreciable_base a
unfolding run_depreciation
run_depreciation_within_base r a s s' k w h =
    depreciate_all-IsWithin r a (list_active r.company_id r.category_id s) s s'
      (All-list_active (IsSame a) r.company_id r.category_id s k) w h
