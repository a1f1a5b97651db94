-- ===== src/ScalingEngine/Success.antt =====
-- What `Scale` does when nothing stands in its way.
use app_autoscaler.Prelude.{String, ◌≡◌, refl, ap, ◌∙◌, true, false, inr, none, some, ◌∷◌}
use app_autoscaler.Prelude.Int.{ℤ, ◌-ℤ◌, eq_ℤ, wrap64}
use app_autoscaler.Prelude.Dict.{lookup}
use app_autoscaler.Strconv.{eq_upper}
use app_autoscaler.Float.{Float64}
use app_autoscaler.Models.{ok, AppEntity, AppScalingResult, Trigger, succeeded}
use app_autoscaler.EngineDb.{no_faults, can_scale_app}
use app_autoscaler.ScalingEngine.{World, Outside, limit_instances}
use app_autoscaler.ScalingEngine.Scale.{
  compute_new_instances, apply_instances, instance_limits, scale_instances, scale_started,
  scale_app, scale, next_expiry,
}
use app_autoscaler.ScalingEngine.Cooldown.{scale_stores}

module _ (fl : Float64) (default_secs : ℤ) (o : Outside) (app : String) (trigger : Trigger)
    (w : World) where
  -- A request in which every answer is good, and the limited number is not the present one.
  pub record Smooth (n : ℤ) : Type 0 where
    pub entity : AppEntity
    pub state : String
    pub expired_at : ℤ
    pub wanted : ℤ
    pub lo : ℤ
    pub hi : ℤ
    pub found : o.get_app ≡ ok entity
    pub has_state : entity.state ≡ some state
    pub started : eq_upper state "STARTED" ≡ true
    pub cooled : can_scale_app o.cooldown_query o.db_now app w.db ≡ ok (true, expired_at)
    pub computed : compute_new_instances fl entity.instances trigger.adjustment ≡ ok wanted
    pub limits : instance_limits fl default_secs o app trigger w.db ≡ inr (lo, hi)
    pub limited : (limit_instances lo hi wanted).0 ≡ n
    pub changes : eq_ℤ n entity.instances ≡ false
    pub sets : o.set_app_instances ≡ none
    pub stores : o.cooldown_update ≡ no_faults

  scale_answers :
      (n : ℤ) (s : Smooth n)
      → ((scale fl default_secs o app trigger w).1
          ≡ some (
              ok (record {
                app_id = app;
                status = succeeded;
                adjustment = wrap64 (n -ℤ s.entity.instances);
                cooldown_expired_at = next_expiry fl default_secs o app trigger;
              })))
        × ((scale fl default_secs o app trigger w).0.calls ≡ (app, n) ∷ w.calls)
  unfolding scale scale_app scale_started scale_instances apply_instances
  scale_answers n s =
      let e : eq_ℤ (limit_instances s.lo s.hi s.wanted).0 s.entity.instances ≡ false =
        ap (λ k. eq_ℤ k s.entity.instances) s.limited ∙ s.changes in
      rw
        (
          scale, scale_app, s.found, s.has_state, s.started, scale_started, s.cooled,
          scale_instances, s.computed, s.limits, apply_instances, e, s.sets, s.limited,
        )
        (refl, refl)

  -- If the app is found and started, the cooldown allows it, the new number can be computed, the limits
  -- are found, the limited number is not the present one, and neither `SetAppInstances` nor the
  -- update of the cooldown fails, then `Scale` sends the limited number, answers "succeeded" with the
  -- difference and the end of the new cooldown, and stores that end for the app.
  pub scale_succeeds :
      (n : ℤ) (s : Smooth n)
      → (r : AppScalingResult) × ((scale fl default_secs o app trigger w).1 ≡ some (ok r))
        × (r.status ≡ succeeded)
        × (r.adjustment ≡ wrap64 (n -ℤ s.entity.instances))
        × (r.cooldown_expired_at ≡ next_expiry fl default_secs o app trigger)
        × ((scale fl default_secs o app trigger w).0.calls ≡ (app, n) ∷ w.calls)
        × (lookup app (scale fl default_secs o app trigger w).0.db.cooldowns
            ≡ some r.cooldown_expired_at)
  scale_succeeds n s =
      let (answer, sent) = scale_answers n s in
      let r : AppScalingResult = record {
        app_id = app;
        status = succeeded;
        adjustment = wrap64 (n -ℤ s.entity.instances);
        cooldown_expired_at = next_expiry fl default_secs o app trigger;
      } in
      (
        r,
        answer,
        refl,
        refl,
        refl,
        sent,
        scale_stores fl default_secs o app trigger w r s.stores answer refl,
      )
