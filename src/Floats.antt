-- ===== src/Floats.antt =====
-- float64, which the program computes percentages with: a type with the operations that the source
-- applies to it. Nothing is assumed of rounding; a theorem that needs a law names it.
pub mod Laws
use ovro.Prelude.{String, Bool, Option}
use ovro.Prelude.Int.{ℤ}

pub record Floats : Type 1 where
  pub F : Type 0
  -- `float64(n)` of an integer, and the literal 0.70.
  pub of_int : ℤ → F
  pub point_seventy : F
  pub add : F → F → F
  pub sub : F → F → F
  pub mul : F → F → F
  pub div : F → F → F
  -- `a < b` and `a <= b`. Both fail where an argument is not a number.
  pub less : F → F → Bool
  pub at_most : F → F → Bool
  -- `math.Max` and `math.Round`.
  pub max : F → F → F
  pub round : F → F
  -- `int32(math.Ceil(x))`, `int(math.Ceil(x))` and `int(math.Floor(x))`.
  pub ceil_int32 : F → ℤ
  pub ceil_int : F → ℤ
  pub floor_int : F → ℤ
  -- `%.1f`, and `strconv.ParseFloat(s, 64)`.
  pub format1 : F → String
  pub parse_float : String → Option F
