-- ===== src/ScalingEngine/Scale.antt =====
-- Scale and ComputeNewInstances of scalingengine/scalingengine.go.
use app_autoscaler.Prelude.{String, true, false, ◌⊎◌, inl, inr, Option, none, some, if◌then◌else◌}
use app_autoscaler.Prelude.Int.{ℤ, pos, ◌+ℤ◌, ◌-ℤ◌, eq_ℤ, wrap64}
use app_autoscaler.Strconv.{◌⧺◌, parse_int, eq_upper, trim_percent}
use app_autoscaler.Float.{Float64}
use app_autoscaler.Models.{
  Error, invalid_number, message, error_text, Result, ok, err, dynamic, succeeded, failed, ignored,
  AppScalingHistory, AppScalingResult, Trigger, cool_down,
}
use app_autoscaler.EngineDb.{
  EngineDb, can_scale_app, update_scaling_cooldown_expire_time, get_active_schedule,
}
use app_autoscaler.ScalingEngine.{
  World, Outside, Reply, dynamic_scaling_reason, new_history, send, save, limit_instances,
}

module _ (fl : Float64) where
  -- newInstances := int(float64(currentInstances)*(1+percentage/100) + 0.5)
  abbrev pub percent_instances : ℤ → fl.F → ℤ
  percent_instances current p =
      fl.to_int (fl.add (fl.mul (fl.of_int current) (fl.add fl.one (fl.div p fl.hundred))) fl.half)

  unfoldable pub compute_new_instances : ℤ → String → Result ℤ
  compute_new_instances current adjustment = elim (trim_percent adjustment) [
    | some digits ↦ elim (fl.parse_float digits) [
      | none ↦ err (invalid_number digits)
      | some p ↦
          let n = percent_instances current p in
          ok (
            if eq_ℤ n current
            then (if fl.lt fl.zero p
                then wrap64 (current +ℤ pos 1)
                else if fl.lt p fl.zero
                then wrap64 (current -ℤ pos 1)
                else n)
            else n)
    ]
    | none ↦ elim (parse_int 32 adjustment) [
      | none ↦ err (invalid_number adjustment)
      | some step ↦ ok (wrap64 (step +ℤ current))
    ]
  ]

  module _ (default_cool_down_secs : ℤ) (o : Outside) (app : String) (trigger : Trigger) where
    abbrev pub Scaled : Type 0
    Scaled = Reply (Option (Result AppScalingResult))

    abbrev pub reject : World → AppScalingHistory → String → Error → Scaled
    reject w h text e = record {
      world = w;
      history = record h { status = failed; error = text };
      outcome = some (err e);
    }

    abbrev pub next_expiry : ℤ
    next_expiry = wrap64 (o.now +ℤ cool_down trigger default_cool_down_secs)

    -- From the limited number of instances on.
    unfoldable pub apply_instances : World → AppScalingHistory → ℤ → ℤ → AppScalingResult → Scaled
    apply_instances w h old n r =
        if eq_ℤ n old
        then (record {
          world = w;
          history = record h { status = ignored };
          outcome = some (
              ok (record r {
                status = ignored;
                adjustment = pos 0;
                cooldown_expired_at = next_expiry;
              }));
        })
        else elim o.set_app_instances [
          | some e ↦ reject (send app n w) h ("failed to set app instances: " ⧺ error_text e) e
          | none ↦
              let w₁ = send app n w in
              let (db, fault) =
                update_scaling_cooldown_expire_time o.cooldown_update app next_expiry w₁.db in
              record {
                world = record w₁ { db = db };
                history = record h { status = succeeded };
                outcome = some (
                    ok (record r {
                      status = succeeded;
                      adjustment = wrap64 (n -ℤ old);
                      cooldown_expired_at = next_expiry;
                    }));
              }
        ]

    -- The limits of the active schedule, or else of the policy, or the failure to find them.
    unfoldable pub instance_limits : EngineDb → (String × Error) ⊎ (ℤ × ℤ)
    instance_limits db = elim (get_active_schedule o.schedule_query app db) [
      | err e ↦ inl ("failed to get active schedule", e)
      | ok (some s) ↦ inr (s.instance_min, s.instance_max)
      | ok none ↦ elim o.get_app_policy [
        | err e ↦ inl ("failed to get scaling policy", e)
        | ok none ↦ inl ("app does not have policy set", message "app does not have policy set")
        | ok (some p) ↦ inr (p.instance_min, p.instance_max)
      ]
    ]

    -- From the computation of the new number on.
    unfoldable pub scale_instances : World → AppScalingHistory → ℤ → AppScalingResult → Scaled
    unfolding compute_new_instances instance_limits apply_instances
    scale_instances w h old r = elim (compute_new_instances old trigger.adjustment) [
      | err e ↦ reject w h "failed to compute new app instances" e
      | ok wanted ↦ elim (instance_limits w.db) [
        | inl (text, e) ↦ reject w h text e
        | inr (lo, hi) ↦
            let (n, text) = limit_instances lo hi wanted in
            apply_instances w (record h { new_instances = n; message = text }) old n r
      ]
    ]

    -- From the check of the cooldown on.
    unfoldable pub scale_started : World → AppScalingHistory → ℤ → AppScalingResult → Scaled
    unfolding scale_instances
    scale_started w h old r = elim (can_scale_app o.cooldown_query o.db_now app w.db) [
      | err e ↦ reject w h "failed to check app cooldown setting" e
      | ok (may, expired_at) ↦
          let r₁ = record r { cooldown_expired_at = expired_at } in
          elim may [
            | false ↦ record {
              world = w;
              history = record h {
                status = ignored;
                new_instances = old;
                message = "app in cooldown period";
              };
              outcome = some (ok (record r₁ { status = ignored }));
            }
            | true ↦ scale_instances w h old r₁
          ]
    ]

    -- The history and the result as the request starts.
    abbrev pub opening_history : AppScalingHistory
    opening_history = new_history o.now app dynamic (dynamic_scaling_reason trigger)

    abbrev pub opening_result : AppScalingResult
    opening_result = record {
      app_id = app;
      status = succeeded;
      adjustment = pos 0;
      cooldown_expired_at = pos 0;
    }

    -- All of the request but the saving of the history.
    unfoldable pub scale_app : World → Scaled
    unfolding scale_started
    scale_app w =
        let h = opening_history in
        let r = opening_result in
        elim o.get_app [
          | err e ↦ reject w h ("failed to get app info: " ⧺ error_text e) e
          | ok entity ↦
              let h₁ = record h { old_instances = entity.instances } in
              elim entity.state [
                | none ↦ record { world = w; history = h₁; outcome = none }
                | some state ↦ elim (eq_upper state "STARTED") [
                  | false ↦ record {
                    world = w;
                    history = record h₁ {
                      status = ignored;
                      new_instances = entity.instances;
                      message = "app is not started";
                    };
                    outcome = some (ok (record r { status = ignored }));
                  }
                  | true ↦ scale_started w h₁ entity.instances r
                ]
              ]
        ]

    unfoldable pub scale : World → World × Option (Result AppScalingResult)
    unfolding scale_app
    scale w = save o.history_insert (scale_app w)
