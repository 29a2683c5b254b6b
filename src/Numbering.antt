-- ===== src/Numbering.antt =====
-- Document numbers: `f"{n:06d}"`, which the repositories of the sales, purchasing and payments modules
-- (backend/src/modules) put behind a prefix.
use Prim.Native.String.{◌++◌}
use Prim.Native.Char.{code}
use alfahd_erp_system.Prelude.{
  ℕ, zero, suc, ◌/◌, ◌%◌, List, [], ◌∷◌, ltb, ◌==◌, if◌then◌else◌, String,
}

-- The code points of a text.
abbrev pub codes : String → List ℕ
codes String.[] = []
codes (String.◌∷◌ c s) = code c ∷ codes s

-- `f"{n:06d}"`
abbrev digit : ℕ → String
digit n =
    if n == 0
    then "0"
    else if n == 1
    then "1"
    else if n == 2
    then "2"
    else if n == 3
    then "3"
    else if n == 4
    then "4"
    else if n == 5
    then "5"
    else if n == 6
    then "6"
    else if n == 7
    then "7"
    else if n == 8
    then "8"
    else "9"

-- The fuel, the number itself, is more than the number of its digits.
abbrev digits : ℕ → ℕ → String
digits zero n = digit n
digits (suc fuel) n =
    let front = digits fuel (n / 10) in if ltb n 10 then digit n else front ++ digit (n % 10)

abbrev padding : ℕ → String
padding n =
    if ltb n 10
    then "00000"
    else if ltb n 100
    then "0000"
    else if ltb n 1_000
    then "000"
    else if ltb n 10_000
    then "00"
    else if ltb n 100_000
    then "0"
    else ""

abbrev pub six_digits : ℕ → String
six_digits n = padding n ++ digits n n
