-- ===== src/Accounting/Moving/Walks.antt =====
-- The walks of a move end: up to the top, and down to the deepest account.
use mathlib.Core.Path.{subst}
use alfahd_erp_system.Prelude.{
  ℕ, zero, suc, ◌+◌, ◌≤◌, ◌≡◌, ◌↔◌, refl, ap, ◌∙◌, Bool, true, false, Option, none, some, List, [],
  ◌∷◌, ◌==◌, arith, any, find?, keep, All, Bool-cases, Option-cases, inl, inr,
}
use alfahd_erp_system.Accounting.Store.{Account, Books, get_account, has_account_id, is_none}
use alfahd_erp_system.Accounting.Chart.{is_child, names_parent, list_children}
use alfahd_erp_system.Accounting.Chart.Levels.{level_in, IsUnder, IsPlaced, IsLeveled}
use alfahd_erp_system.Accounting.Moving.{
  nothing_below, meets, parent_of, deepest_of, max_ℕ, deepest_descendant_offset,
}
use alfahd_erp_system.Accounting.Moving.Depth.{
  IsMet, meets-answers, Below, deepest_bound, deepest_reached,
}
use alfahd_erp_system.Accounting.Lifecycle.Invariant.{IsDistinctAccounts}

IsPlaced-found :
    (t rows : List Account) (i : ℕ) {a : Account}
    → All (IsPlaced t) rows
    → find? (has_account_id i) rows ≡ some a
    → (1 ≤ a.level) × (a.level ≤ 4) × IsUnder t a.parent_id a.level
IsPlaced-found t [] i h f = absurd (ground arith)
IsPlaced-found t (x ∷ xs) i {a} h f = elim (Bool-cases (has_account_id i x)) [
  | inl this ↦
      let same : x ≡ a = ground arith in
      let live : is_none x.deleted_at ≡ true = ground arith in
      subst (λ (y : Account). (1 ≤ y.level) × (y.level ≤ 4) × IsUnder t y.parent_id y.level) same
        (h.0 live)
  | inr other ↦ IsPlaced-found t xs i {a = a} h.1 (ground arith)
]

-- One round more than the walk from the parent.
above_returns :
    (fuel i : ℕ) (b : Books) (q : Option ℕ) (level : ℕ)
    → IsUnder b.accounts q level
    → level ≤ suc fuel
    → ((p l : ℕ)
        → level_in p b.accounts ≡ some l
        → l ≤ fuel
        → (r : Bool) × (meets fuel i (get_account p b) b ≡ some r))
    → (r : Bool) × (meets fuel i (parent_of q b) b ≡ some r)
unfolding meets
above_returns fuel i b none level under le walk = (false, refl)
above_returns fuel i b (some p) level (above, found, below) le walk =
    walk p above found (ground arith)

-- The walk up takes one round for a level.
pub meets_returns :
    (fuel i p : ℕ) (b : Books) {level : ℕ}
    → IsLeveled b
    → level_in p b.accounts ≡ some level
    → level ≤ fuel
    → (r : Bool) × (meets fuel i (get_account p b) b ≡ some r)
unfolding meets get_account
meets_returns zero i p b h f le = elim (Option-cases (get_account p b)) [
  | inl missing ↦ absurd (ground arith)
  | inr (a, e) ↦
      let (low, high, under) = IsPlaced-found b.accounts b.accounts p h e in absurd (ground arith)
]
meets_returns (suc fuel) i p b {level} h f le = elim (Option-cases (get_account p b)) [
  | inl missing ↦ absurd (ground arith)
  | inr (a, e) ↦
      let (low, high, under) = IsPlaced-found b.accounts b.accounts p h e in
      let same : a.level ≡ level = ground arith in
      let (r, walked) =
        above_returns fuel i b a.parent_id a.level under (rw same le)
          (λ q l found le'. meets_returns fuel i q b h found le') in
      elim (Bool-cases (a.id == i)) [
        | inl this ↦ (true, rw (e, this) refl)
        | inr other ↦ (r, rw (e, other) walked)
      ]
]

-- Under distinct ids, a row that is not deleted is the one that its id finds.
abbrev IsFound : List Account → Account → Type 0
IsFound t a = is_none a.deleted_at ≡ true → level_in a.id t ≡ some a.level

IsFound-cons :
    (x : Account) (t rows : List Account)
    → any (λ y. y.id == x.id) rows ≡ false
    → All (IsFound t) rows
    → All (IsFound (x ∷ t)) rows
IsFound-cons x t [] n h = tt
IsFound-cons x t (a ∷ rows) n h =
    let other : (x.id == a.id) ≡ false = ground arith in
    (λ live. rw other (h.0 live), IsFound-cons x t rows (ground arith) h.1)

IsFound-all : (t : List Account) → IsDistinctAccounts t → All (IsFound t) t
IsFound-all [] d = tt
IsFound-all (x ∷ xs) d = (λ live. ground arith, IsFound-cons x xs xs d.0 (IsFound-all xs d.1))

IsUnder-level :
    (t : List Account) (i level : ℕ) (q : Option ℕ) (l : ℕ)
    → names_parent i q ≡ true
    → IsUnder t q l
    → level_in i t ≡ some level
    → l ≡ level + 1
IsUnder-level t i level none l h under f = absurd (ground arith)
IsUnder-level t i level (some p) l h (above, found, below) f =
    let same : p ≡ i = ground arith in
    let found' : level_in i t ≡ some above =
      subst (λ (j : ℕ). level_in j t ≡ some above) same found in
    let equal : above ≡ level = ground arith in below ∙ ap (λ (n : ℕ). n + 1) equal

-- A child stands one level below, under its own id.
abbrev IsChildOf : List Account → ℕ → Account → Type 0
IsChildOf t level a = (a.level ≡ level + 1) × (a.level ≤ 4) × (level_in a.id t ≡ some (level + 1))

All-children :
    (t rows : List Account) (i level : ℕ)
    → All (IsPlaced t) rows
    → All (IsFound t) rows
    → level_in i t ≡ some level
    → All (IsChildOf t level) (keep (is_child i) rows)
All-children t [] i level h g f = tt
All-children t (x ∷ xs) i level h g f =
    let rest = All-children t xs i level h.1 g.1 f in
    elim (Bool-cases (is_child i x)) [
      | inr other ↦ rw other rest
      | inl mine ↦
          let live : is_none x.deleted_at ≡ true = ground arith in
          let (low, high, under) = h.0 live in
          let below : x.level ≡ level + 1 =
            IsUnder-level t i level x.parent_id x.level (ground arith) under f in
          rw mine ((below, high, g.0 live ∙ ap some below), rest)
    ]

deepest_of_returns :
    (offset : ℕ → Option ℕ) (cs : List Account) (level : ℕ)
    → level ≤ 4
    → All (λ (c : Account). (n : ℕ) × (offset c.id ≡ some n) × (level + 1 + n ≤ 4)) cs
    → (n : ℕ) × (deepest_of offset cs ≡ some n) × (level + n ≤ 4)
deepest_of_returns offset [] level le h = (0, refl, ground arith)
deepest_of_returns offset (c ∷ cs) level le h =
    let (n, e, deep) = h.0 in
    let (m, e', deep') = deepest_of_returns offset cs level le h.1 in
    (max_ℕ (suc n) m, rw (e, e') refl, ground arith)

module _ (b : Books) (h : IsLeveled b) (d : IsDistinctAccounts b.accounts) where
  children-IsChildOf :
      (i : ℕ) {level : ℕ}
      → level_in i b.accounts ≡ some level
      → All (IsChildOf b.accounts level) (list_children i b)
  unfolding list_children
  children-IsChildOf i {level} f =
      All-children b.accounts b.accounts i level h (IsFound-all b.accounts d) f

  nothing_below-deep :
      (level : ℕ) (cs : List Account)
      → 4 ≤ level
      → All (IsChildOf b.accounts level) cs
      → nothing_below cs ≡ some 0
  nothing_below-deep level [] le k = refl
  nothing_below-deep level (c ∷ cs) le k = let (below, high, found) = k.0 in absurd (ground arith)

  deepest_children :
      (fuel level : ℕ) (cs : List Account)
      → 4 ≤ level + suc fuel
      → ((j l : ℕ)
          → level_in j b.accounts ≡ some l
          → 4 ≤ l + fuel
          → l ≤ 4
          → (n : ℕ) × (deepest_descendant_offset fuel j b ≡ some n) × (l + n ≤ 4))
      → All (IsChildOf b.accounts level) cs
      → All
          (λ (c : Account).
            (n : ℕ) × (deepest_descendant_offset fuel c.id b ≡ some n) × (level + 1 + n ≤ 4))
          cs
  deepest_children fuel level [] le walk k = tt
  deepest_children fuel level (c ∷ cs) le walk k =
      let (below, high, found) = k.0 in
      (
        walk c.id (level + 1) found (ground arith) (ground arith),
        deepest_children fuel level cs le walk k.1,
      )

  -- The walk down takes one round for a level that is left.
  pub deepest_returns :
      (fuel i level : ℕ)
      → level_in i b.accounts ≡ some level
      → 4 ≤ level + fuel
      → level ≤ 4
      → (n : ℕ) × (deepest_descendant_offset fuel i b ≡ some n) × (level + n ≤ 4)
  unfolding deepest_descendant_offset
  deepest_returns zero i level f le high =
      let empty =
        nothing_below-deep level (list_children i b) (ground arith) (children-IsChildOf i f) in
      (0, empty, ground arith)
  deepest_returns (suc fuel) i level f le high =
      deepest_of_returns (λ j. deepest_descendant_offset fuel j b) (list_children i b) level high
        (deepest_children fuel level (list_children i b) le
          (λ j l found le' high'. deepest_returns fuel j l found le' high')
          (children-IsChildOf i f))

level_in-high :
    (b : Books) (i : ℕ) {level : ℕ} → IsLeveled b → level_in i b.accounts ≡ some level → level ≤ 4
level_in-high b i h f = elim (Option-cases (find? (has_account_id i) b.accounts)) [
  | inl missing ↦ absurd (ground arith)
  | inr (a, e) ↦ let (low, high, under) = IsPlaced-found b.accounts b.accounts i h e in ground arith
]

-- In a chart with levels and distinct ids, four rounds of fuel are enough for both walks of a move. The
-- walk up from an account answers whether that account or one above it has the moved account's id. The walk
-- down finds how far below the moved account its deepest descendant is: one is that far below it, none is
-- further, and it is not below the fourth level.
pub walks_return :
    (b : Books) (i p level above : ℕ)
    → IsLeveled b
    → IsDistinctAccounts b.accounts
    → level_in i b.accounts ≡ some level
    → level_in p b.accounts ≡ some above
    → ((r : Bool) × (meets 4 i (get_account p b) b ≡ some r)
        × ((r ≡ true) ↔ IsMet b i (get_account p b)))
      × ((n : ℕ) × (deepest_descendant_offset 4 i b ≡ some n)
          × ((j : ℕ) × Below b i n j)
          × ((j k : ℕ) → Below b i k j → k ≤ n)
          × (level + n ≤ 4))
unfolding get_account
walks_return b i p level above h d f g =
    let (r, met) = meets_returns 4 i p b h g (level_in-high b p h g) in
    let (n, deepest, low) =
      deepest_returns b h d 4 i level f (ground arith) (level_in-high b i h f) in
    (
      (r, met, meets-answers 4 i b (get_account p b) met),
      (n, deepest, deepest_reached 4 b i deepest, λ j k path. deepest_bound b 4 deepest path, low),
    )
