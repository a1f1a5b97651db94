-- ===== src/ScalingEngine/Cooling.antt =====
-- What a cooldown does to the next request.
use app_autoscaler.Prelude.{
  String, ◌≡◌, refl, ap, sym, ◌∙◌, Bool, true, false, inl, inr, some, arith,
}
use app_autoscaler.Prelude.Int.{ℤ, ◌≤ℤ◌, ltb_ℤ}
use app_autoscaler.Prelude.Dict.{lookup}
use app_autoscaler.Float.{Float64}
use app_autoscaler.Models.{Result, ok, err, AppScalingResult, Trigger, succeeded}
use app_autoscaler.EngineDb.{EngineDb, Faults, no_faults, can_scale_app}
use app_autoscaler.ScalingEngine.{World, Outside}
use app_autoscaler.ScalingEngine.Limits.{scale_calls}
use app_autoscaler.ScalingEngine.Scale.{scale}
use app_autoscaler.ScalingEngine.Cooldown.{scale_stores}

abbrev allows : Result (Bool × ℤ) → Bool
allows (ok (may, t)) = may
allows (err e) = false

cooling_refuses :
    (q : Faults) (now expiry t : ℤ) (app : String) (db : EngineDb)
    → q ≡ no_faults
    → lookup app db.cooldowns ≡ some expiry
    → now ≤ℤ expiry
    → can_scale_app q now app db ≡ ok (true, t)
    → ⊥
unfolding can_scale_app
cooling_refuses q now expiry t app db e found h c =
    let early : ltb_ℤ expiry now ≡ false = ground arith in
    let answer : can_scale_app no_faults now app db ≡ ok (false, expiry) =
      rw (can_scale_app, found, early) refl in
    let clash : false ≡ true =
      ap allows (sym answer ∙ ap (λ f. can_scale_app f now app db) (sym e) ∙ c) in
    ground arith

-- Suppose that `Scale` answers "succeeded" and no statement of its cooldown's update fails. Then
-- a later `Scale` of the same app, by any trigger, sends no request as long as the database's clock
-- has not passed the expiry that was answered, if the query of the cooldown does not fail.
pub scale_cools_down :
    (fl : Float64) (default_secs : ℤ) (o later : Outside) (app : String)
    (trigger next_trigger : Trigger) (w : World) (r : AppScalingResult)
    → o.cooldown_update ≡ no_faults
    → (scale fl default_secs o app trigger w).1 ≡ some (ok r)
    → r.status ≡ succeeded
    → later.cooldown_query ≡ no_faults
    → later.db_now ≤ℤ r.cooldown_expired_at
    → (scale fl default_secs later app next_trigger
        (scale fl default_secs o app trigger w).0).0.calls
      ≡ (scale fl default_secs o app trigger w).0.calls
scale_cools_down fl default_secs o later app trigger next_trigger w r n e s q h =
    let w' = (scale fl default_secs o app trigger w).0 in
    elim (scale_calls fl default_secs later app next_trigger w') [
      | inl same ↦ same
      | inr (n', sent, a) ↦ absurd (
          cooling_refuses later.cooldown_query later.db_now r.cooldown_expired_at a.expired_at app
            w'.db q (scale_stores fl default_secs o app trigger w r n e s) h a.cooled)
    ]
