-- ===== src/Float/Thousandths.antt =====
-- Numbers in thousandths, in the place of float64, to run the code on concrete inputs.
use app_autoscaler.Prelude.{ℕ, suc, ◌/◌, none, some}
use app_autoscaler.Prelude.Int.{ℤ, pos, negsuc, pos_part, sub_ℕ, ◌+ℤ◌, ◌*ℤ◌, ltb_ℤ, eq_ℤ}
use app_autoscaler.Strconv.{parse_int}
use app_autoscaler.Float.{Float64}

abbrev pub over : ℤ → ℕ → ℤ
over (pos n) d = pos (n / d)
over (negsuc n) d = sub_ℕ 0 (suc n / d)

abbrev pub thousandths : Float64
thousandths = record {
  F = ℤ;
  parse_float = λ s. elim (parse_int 64 s) [ none ↦ none | some z ↦ some (z *ℤ pos 1000) ];
  of_int = λ z. z *ℤ pos 1000;
  to_int = λ z. over z 1000;
  add = λ a b. a +ℤ b;
  mul = λ a b. over (a *ℤ b) 1000;
  div = λ a b. over (a *ℤ pos 1000) (pos_part b);
  lt = ltb_ℤ;
  eq = eq_ℤ;
  zero = pos 0;
  half = pos 500;
  one = pos 1000;
  hundred = pos 100000;
}
