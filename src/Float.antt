-- ===== src/Float.antt =====
-- float64, with the operations and literals that the program uses. The rounding of IEEE 754 is not
-- modelled: the arithmetic is a parameter, of which no law is assumed.
pub mod Thousandths
use app_autoscaler.Prelude.{String, Bool, Option}
use app_autoscaler.Prelude.Int.{ℤ}

pub record Float64 : Type 1 where
  pub F : Type 0
  pub parse_float : String → Option F  -- strconv.ParseFloat(s, 32)
  pub of_int : ℤ → F
  pub to_int : F → ℤ
  pub add : F → F → F
  pub mul : F → F → F
  pub div : F → F → F
  pub lt : F → F → Bool
  pub eq : F → F → Bool
  pub zero : F
  pub half : F
  pub one : F
  pub hundred : F
