-- ===== src/ScalingEngine/Compute.antt =====
-- The number of instances that an adjustment asks for.
use app_autoscaler.Prelude.{String, ◌≡◌, refl, true, false, ◌⊎◌, inl, inr, some, arith, Bool-cases}
use app_autoscaler.Prelude.Int.{ℤ, pos, negsuc, ◌+ℤ◌, ◌-ℤ◌, eq_ℤ, wrap64, InInt64}
use app_autoscaler.Strconv.{trim_percent}
use app_autoscaler.Float.{Float64}
use app_autoscaler.Models.{ok}
use app_autoscaler.ScalingEngine.Scale.{compute_new_instances, percent_instances}

wrap64_up : (z : ℤ) → InInt64 z → eq_ℤ (wrap64 (z +ℤ pos 1)) z ≡ false
unfolding wrap64 ◌+ℤ◌
wrap64_up (pos n) h = ground arith
wrap64_up (negsuc n) h = ground arith

wrap64_down : (z : ℤ) → InInt64 z → eq_ℤ (wrap64 (z -ℤ pos 1)) z ≡ false
unfolding wrap64 ◌-ℤ◌
wrap64_down (pos n) h = ground arith
wrap64_down (negsuc n) h = ground arith

-- An adjustment by a percentage that is not 0, of a present number that is an int64, asks for a number
-- other than the present one, whatever the rounding does.
pub compute_percent_changes :
    (fl : Float64) (current : ℤ) (adjustment digits : String) (p : fl.F)
    → InInt64 current
    → trim_percent adjustment ≡ some digits
    → fl.parse_float digits ≡ some p
    → (fl.lt fl.zero p ≡ true) ⊎ (fl.lt p fl.zero ≡ true)
    → (n : ℤ) × (compute_new_instances fl current adjustment ≡ ok n) × (eq_ℤ n current ≡ false)
unfolding compute_new_instances
compute_percent_changes fl current adjustment digits p h t e sign =
    elim (Bool-cases (eq_ℤ (percent_instances fl current p) current)) [
      | inr other ↦
          (percent_instances fl current p, rw (compute_new_instances, t, e, other) refl, other)
      | inl same ↦ elim (Bool-cases (fl.lt fl.zero p)) [
        | inl up ↦ (
          wrap64 (current +ℤ pos 1),
          rw (compute_new_instances, t, e, same, up) refl,
          wrap64_up current h,
        )
        | inr not_up ↦ elim sign [
          | inl up ↦ absurd (ground arith)
          | inr down ↦ (
            wrap64 (current -ℤ pos 1),
            rw (compute_new_instances, t, e, same, not_up, down) refl,
            wrap64_down current h,
          )
        ]
      ]
    ]
