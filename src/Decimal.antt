-- ===== src/Decimal.antt =====
-- `Decimal.quantize`: a quotient rounded to a whole number of units, half-even (the default context's
-- rounding) or half-up (`ROUND_HALF_UP`, away from zero). The sign is put back afterwards, as
-- `decimal` does. Amounts are whole numbers of 10^-4, the scale of the `Numeric(18, 4)` columns.
use native.Mathlib.Nat.{div-add-mod, mod-lt}
use alfahd_erp_system.Prelude.{
  int_laws, sym, ℕ, zero, suc, refl, pos_part, neg_part, ◌*ℤ◌, ◌-ℤ◌, *ℤ_parts, -ℤ_parts,
  eq_of_parts, ◌+◌, ◌*◌, ◌/◌, ◌%◌, ◌≤◌, ◌<◌, ◌≡◌, arith, ltb, ◌==◌, ◌⊎◌, inl, inr, if◌then◌else◌, ℤ,
  pos, negsuc,
}

unfoldable pub half_even : ℕ → ℕ → ℕ
half_even n d =
    let q = n / d in
    let twice = 2 * (n % d) in
    if ltb twice d then q else if ltb d twice then q + 1 else if q % 2 == 0 then q else q + 1

unfoldable pub half_up : ℕ → ℕ → ℕ
half_up n d = if ltb (2 * (n % d)) d then n / d else n / d + 1

abbrev pub negate : ℕ → ℤ
negate zero = pos 0
negate (suc n) = negsuc n

-- A rounding of magnitudes, carried over to signed quotients.
abbrev pub signed : (ℕ → ℕ → ℕ) → ℤ → ℕ → ℤ
signed f (pos n) d = pos (f n d)
signed f (negsuc n) d = negate (f (suc n) d)

-- The signed quotient of two integers: the sign of the divisor goes to the dividend.
abbrev pub divide : (ℕ → ℕ → ℕ) → ℤ → ℤ → ℤ
divide f a (pos d) = signed f a d
divide f (pos n) (negsuc d) = signed f (negate n) (suc d)
divide f (negsuc n) (negsuc d) = signed f (pos (suc n)) (suc d)

-- A rounding gives the quotient or the next number, whichever is nearer.
abbrev IsRounded : ℕ → ℕ → ℕ → Type 0
IsRounded v n d = (v ≡ n / d) × (2 * (n % d) ≤ d) ⊎ (v ≡ n / d + 1) × (d ≤ 2 * (n % d))

half_even-IsRounded : (n d : ℕ) → IsRounded (half_even n d) n d
unfolding half_even
half_even-IsRounded n d = ground arith

half_up-IsRounded : (n d : ℕ) → IsRounded (half_up n d) n d
unfolding half_up
half_up-IsRounded n d = ground arith

IsRounded-nearest :
    (v n d : ℕ) → 0 < d → IsRounded v n d → (2 * (v * d) ≤ 2 * n + d) × (2 * n ≤ 2 * (v * d) + d)
IsRounded-nearest v n d h (inl (e, r)) = rw e (omega (arith, div-add-mod n d))
IsRounded-nearest v n d h (inr (e, r)) = rw e (omega (arith, div-add-mod n d, mod-lt n h))

-- Half-even rounding is off by at most half a unit.
pub half_even_nearest :
    (n d : ℕ)
    → 0 < d
    → (2 * (half_even n d * d) ≤ 2 * n + d) × (2 * n ≤ 2 * (half_even n d * d) + d)
half_even_nearest n d h = IsRounded-nearest (half_even n d) n d h (half_even-IsRounded n d)

pub half_up_nearest :
    (n d : ℕ) → 0 < d → (2 * (half_up n d * d) ≤ 2 * n + d) × (2 * n ≤ 2 * (half_up n d * d) + d)
half_up_nearest n d h = IsRounded-nearest (half_up n d) n d h (half_up-IsRounded n d)

-- The magnitude of an integer.
abbrev pub abs : ℤ → ℕ
abs a = pos_part a + neg_part a

one_part : (a : ℤ) → (pos_part a ≡ 0) ⊎ (neg_part a ≡ 0)
one_part (pos n) = inr refl
one_part (negsuc n) = inl refl

negate_parts : (n : ℕ) → (pos_part (negate n) ≡ 0) × (neg_part (negate n) ≡ n)
negate_parts zero = (refl, refl)
negate_parts (suc n) = (refl, refl)

-- Products of magnitudes with their signs.
pos_*ℤ_pos : (a b : ℕ) → pos a *ℤ pos b ≡ pos (a * b)
unfolding ◌*ℤ◌
pos_*ℤ_pos a b = ground arith

negate_*ℤ_pos : (a b : ℕ) → negate a *ℤ pos b ≡ negate (a * b)
negate_*ℤ_pos zero b =
    omega (
      arith,
      eq_of_parts,
      *ℤ_parts (pos 0) (pos b),
      one_part (pos 0 *ℤ pos b),
      negate_parts (0 * b),
    )
negate_*ℤ_pos (suc a) b = omega (
  arith,
  eq_of_parts,
  *ℤ_parts (negsuc a) (pos b),
  one_part (negsuc a *ℤ pos b),
  negate_parts (suc a * b),
)

pos_*ℤ_negate : (a b : ℕ) → pos a *ℤ negate b ≡ negate (a * b)
pos_*ℤ_negate a zero =
    omega (
      arith,
      eq_of_parts,
      *ℤ_parts (pos a) (pos 0),
      one_part (pos a *ℤ pos 0),
      negate_parts (a * 0),
    )
pos_*ℤ_negate a (suc b) = omega (
  arith,
  eq_of_parts,
  *ℤ_parts (pos a) (negsuc b),
  one_part (pos a *ℤ negsuc b),
  negate_parts (a * suc b),
)

negate_*ℤ_negate : (a b : ℕ) → negate a *ℤ negsuc b ≡ pos (a * suc b)
negate_*ℤ_negate zero b =
    omega (arith, eq_of_parts, *ℤ_parts (pos 0) (negsuc b), one_part (pos 0 *ℤ negsuc b))
negate_*ℤ_negate (suc a) b =
    omega (arith, eq_of_parts, *ℤ_parts (negsuc a) (negsuc b), one_part (negsuc a *ℤ negsuc b))

abs_sub :
    (a b : ℤ)
    → (abs (a -ℤ b) + pos_part a + neg_part b ≡ neg_part a + pos_part b)
      ⊎ (abs (a -ℤ b) + neg_part a + pos_part b ≡ pos_part a + neg_part b)
abs_sub a b = omega (arith, -ℤ_parts a b, one_part (a -ℤ b))

abbrev IsNear : (ℕ → ℕ → ℕ) → Type 0
IsNear f = (n d : ℕ) → 0 < d → (2 * (f n d * d) ≤ 2 * n + d) × (2 * n ≤ 2 * (f n d * d) + d)

-- Whatever the signs, a rounded quotient times the divisor is off by at most half the divisor.
pub divide_near :
    (f : ℕ → ℕ → ℕ) → IsNear f → (a d : ℤ) → 0 < abs d → 2 * abs (divide f a d *ℤ d -ℤ a) ≤ abs d
divide_near f near (pos n) (pos d) h =
    rw (pos_*ℤ_pos (f n d) d)
      (omega (arith, near n d (omega arith), abs_sub (pos (f n d * d)) (pos n)))
divide_near f near (negsuc n) (pos d) h =
    let q = f (suc n) d in
    rw (negate_*ℤ_pos q d) (
      omega (
        arith,
        near (suc n) d (omega arith),
        negate_parts (q * d),
        abs_sub (negate (q * d)) (negsuc n),
      ))
divide_near f near (pos zero) (negsuc d) h =
    let q = f 0 (suc d) in
    rw (pos_*ℤ_negate q (suc d)) (
      omega (
        arith,
        near 0 (suc d) (omega arith),
        negate_parts (q * suc d),
        abs_sub (negate (q * suc d)) (pos 0),
      ))
divide_near f near (pos (suc n)) (negsuc d) h =
    let q = f (suc n) (suc d) in
    rw (negate_*ℤ_negate q d)
      (omega (arith, near (suc n) (suc d) (omega arith), abs_sub (pos (q * suc d)) (pos (suc n))))
divide_near f near (negsuc n) (negsuc d) h =
    let q = f (suc n) (suc d) in
    rw (pos_*ℤ_negate q (suc d)) (
      omega (
        arith,
        near (suc n) (suc d) (omega arith),
        negate_parts (q * suc d),
        abs_sub (negate (q * suc d)) (negsuc n),
      ))

neg_pos : (m : ℕ) → pos 0 -ℤ pos m ≡ negate m
neg_pos zero = omega int_laws
neg_pos (suc m) = omega int_laws

neg_negate : (m : ℕ) → pos 0 -ℤ negate m ≡ pos m
neg_negate zero = omega int_laws
neg_negate (suc m) = omega int_laws

-- Rounding half to even is symmetric.
pub signed_neg :
    (n : ℤ) (d : ℕ)
    → half_even 0 d ≡ 0
    → signed half_even (pos 0 -ℤ n) d ≡ pos 0 -ℤ signed half_even n d
signed_neg (pos zero) d h = rw (neg_pos 0) (rw h (sym (neg_pos 0)))
signed_neg (pos (suc n)) d h = rw (neg_pos (suc n)) (sym (neg_pos (half_even (suc n) d)))
signed_neg (negsuc n) d h = rw (neg_negate (suc n)) (sym (neg_negate (half_even (suc n) d)))
