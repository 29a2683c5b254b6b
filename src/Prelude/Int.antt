-- ===== src/Prelude/Int.antt =====
-- Signed integers over the native numbers, under the library's names (its ℤ stands on the unary ℕ).
-- Sums and orders go through the two parts of an integer, which are numbers that `omega` reads.
use Prim.Native.Nat.{ℕ, suc, ◌+◌, ◌-◌, ◌*◌, ◌≤◌, ◌<◌}
use mathlib.Core.Path.{◌≡◌, ap, sym, ◌∙◌}
use mathlib.Core.Bool.{Bool}
use native.Mathlib.Omega.{arith}
use alfahd_erp_system.Prelude.Tests.{ltb, leb, ◌==◌, if◌then◌else◌}

-- `negsuc n` is -(n + 1).
pub data ℤ : Type 0 where
  pos : ℕ → ℤ
  negsuc : ℕ → ℤ

abbrev pub pos_part : ℤ → ℕ
pos_part (pos n) = n
pos_part (negsuc n) = 0

abbrev pub neg_part : ℤ → ℕ
neg_part (pos n) = 0
neg_part (negsuc n) = suc n

-- a - b, as an integer.
abbrev pub sub_ℕ : ℕ → ℕ → ℤ
sub_ℕ a b = if leb b a then pos (a - b) else negsuc (b - a - 1)

infixl 65 ◌+ℤ◌ ◌-ℤ◌
infixl 70 ◌*ℤ◌
infix 50 ◌≤ℤ◌ ◌<ℤ◌
unfoldable pub ◌+ℤ◌ : ℤ → ℤ → ℤ
a +ℤ b = sub_ℕ (pos_part a + pos_part b) (neg_part a + neg_part b)

unfoldable pub ◌-ℤ◌ : ℤ → ℤ → ℤ
a -ℤ b = sub_ℕ (pos_part a + neg_part b) (neg_part a + pos_part b)

unfoldable pub ◌*ℤ◌ : ℤ → ℤ → ℤ
a *ℤ b =
    sub_ℕ (pos_part a * pos_part b + neg_part a * neg_part b)
      (pos_part a * neg_part b + neg_part a * pos_part b)

abbrev pub ◌≤ℤ◌ : ℤ → ℤ → Type 0
a ≤ℤ b = pos_part a + neg_part b ≤ pos_part b + neg_part a

abbrev pub ◌<ℤ◌ : ℤ → ℤ → Type 0
a <ℤ b = pos_part a + neg_part b < pos_part b + neg_part a

abbrev pub ltb_ℤ : ℤ → ℤ → Bool
ltb_ℤ a b = ltb (pos_part a + neg_part b) (pos_part b + neg_part a)

abbrev pub leb_ℤ : ℤ → ℤ → Bool
leb_ℤ a b = leb (pos_part a + neg_part b) (pos_part b + neg_part a)

abbrev pub eq_ℤ : ℤ → ℤ → Bool
eq_ℤ a b = (pos_part a + neg_part b) == (pos_part b + neg_part a)

abbrev pub min_ℤ : ℤ → ℤ → ℤ
min_ℤ a b = if ltb_ℤ b a then b else a

-- One lemma for each operation lets `omega` work with the operations shut, at any depth.
pub +ℤ_parts :
    (a b : ℤ)
    → pos_part (a +ℤ b) + neg_part a + neg_part b ≡ neg_part (a +ℤ b) + pos_part a + pos_part b
unfolding ◌+ℤ◌
+ℤ_parts a b = ground arith

pub -ℤ_parts :
    (a b : ℤ)
    → pos_part (a -ℤ b) + neg_part a + pos_part b ≡ neg_part (a -ℤ b) + pos_part a + neg_part b
unfolding ◌-ℤ◌
-ℤ_parts a b = ground arith

pub eq_of_parts : (a b : ℤ) → pos_part a + neg_part b ≡ pos_part b + neg_part a → a ≡ b
eq_of_parts a b h = ground arith

pub ruleset int_laws = (arith, +ℤ_parts, -ℤ_parts, eq_of_parts)

pub sub_ℕ_parts : (a b : ℕ) → pos_part (sub_ℕ a b) + b ≡ neg_part (sub_ℕ a b) + a
sub_ℕ_parts a b = ground arith

pub *ℤ_parts :
    (a b : ℤ)
    → pos_part (a *ℤ b) + (pos_part a * neg_part b + neg_part a * pos_part b)
      ≡ neg_part (a *ℤ b) + (pos_part a * pos_part b + neg_part a * neg_part b)
unfolding ◌*ℤ◌
*ℤ_parts a b =
    sub_ℕ_parts (pos_part a * pos_part b + neg_part a * neg_part b)
      (pos_part a * neg_part b + neg_part a * pos_part b)

-- Laws of the group, each closed by the parts.
pub +ℤ_assoc : (a b c : ℤ) → a +ℤ b +ℤ c ≡ a +ℤ (b +ℤ c)
+ℤ_assoc a b c = omega int_laws

pub +ℤ_comm : (a b : ℤ) → a +ℤ b ≡ b +ℤ a
+ℤ_comm a b = omega int_laws

pub +ℤ_swap : (a b c d : ℤ) → a +ℤ b +ℤ (c +ℤ d) ≡ a +ℤ c +ℤ (b +ℤ d)
+ℤ_swap a b c d = omega int_laws

-- The parts of an equation, for `omega`.
pub eq-parts : {a b : ℤ} → a ≡ b → (pos_part a ≡ pos_part b) × (neg_part a ≡ neg_part b)
eq-parts e = (ap pos_part e, ap neg_part e)

pub +ℤ_zero : (a : ℤ) → a +ℤ pos 0 ≡ a
+ℤ_zero a = omega int_laws

pub zero_+ℤ : (a : ℤ) → pos 0 +ℤ a ≡ a
zero_+ℤ a = omega int_laws

pub -ℤ-+ℤ : (a b : ℤ) → a +ℤ b -ℤ b ≡ a
-ℤ-+ℤ a b = omega int_laws

-- A sum on one side is a difference on the other.
pub sub-eq_of_add-eq : (x f t : ℤ) → x +ℤ f ≡ t → x ≡ t -ℤ f
sub-eq_of_add-eq x f t h = sym (-ℤ-+ℤ x f) ∙ ap (λ (y : ℤ). y -ℤ f) h

-- The same summand on both sides.
pub +ℤ_cancel_right : (x t f : ℤ) → x +ℤ f ≡ t +ℤ f → x ≡ t
+ℤ_cancel_right x t f h = sub-eq_of_add-eq x f (t +ℤ f) h ∙ -ℤ-+ℤ t f

pub *ℤ_comm : (a b : ℤ) → a *ℤ b ≡ b *ℤ a
*ℤ_comm a b = omega (arith, eq_of_parts, *ℤ_parts a b, *ℤ_parts b a)

pub zero_*ℤ : (a : ℤ) → pos 0 *ℤ a ≡ pos 0
zero_*ℤ a = omega (arith, eq_of_parts, *ℤ_parts (pos 0) a)

pub eq_of_sub-eq_zero : (a b : ℤ) → a -ℤ b ≡ pos 0 → a ≡ b
eq_of_sub-eq_zero a b h = omega (int_laws, eq-parts h)

pub add-sub_assoc : (a b c : ℤ) → a +ℤ b -ℤ c ≡ a -ℤ (c -ℤ b)
add-sub_assoc a b c = omega int_laws

pub sub_sub : (a b c : ℤ) → a -ℤ b -ℤ c ≡ a -ℤ (b +ℤ c)
sub_sub a b c = omega int_laws

pub sub-add_neg : (a b : ℤ) → a -ℤ b ≡ a +ℤ (pos 0 -ℤ b)
sub-add_neg a b = omega int_laws

pub sub_*ℤ : (a b c : ℤ) → (a -ℤ b) *ℤ c ≡ a *ℤ c -ℤ b *ℤ c
sub_*ℤ a b c =
    let e = -ℤ_parts a b in
    omega (
      arith,
      eq_of_parts,
      *ℤ_parts (a -ℤ b) c,
      *ℤ_parts a c,
      *ℤ_parts b c,
      -ℤ_parts (a *ℤ c) (b *ℤ c),
      ap (λ (k : ℕ). k * pos_part c) e,
      ap (λ (k : ℕ). k * neg_part c) e,
    )

pub neg_*ℤ : (a b : ℤ) → (pos 0 -ℤ a) *ℤ b ≡ pos 0 -ℤ a *ℤ b
neg_*ℤ a b = sub_*ℤ (pos 0) a b ∙ ap (λ (n : ℤ). n -ℤ a *ℤ b) (zero_*ℤ b)
