-- ===== src/ScalingEngine.antt =====
-- scalingengine/scalingengine.go: the decisions to scale an app. A request runs alone on its app, since
-- it holds the app's lock from its first line; what the outside answers in the request (the clocks, the
-- cloud controller, the policy, the faults of the database) is a record. The requests sent to
-- `SetAppInstances` are a log, the last in front. The history is saved by `defer`, so on every path;
-- an outcome `none` is a panic, by the dereference of a state that the controller left out.
pub mod Scale
pub mod Schedules
pub mod Compute
pub mod Limits
pub mod Records
pub mod Cooldown
pub mod Cooling
pub mod Active
pub mod Success
pub mod Climbs
pub mod Adjusts
pub mod Others
mod Examples
use app_autoscaler.Prelude.{
  ℕ, String, Bool, true, false, ◌⊎◌, inl, inr, Option, none, some, List, [], ◌∷◌, str_eq,
  if◌then◌else◌,
}
use app_autoscaler.Prelude.Int.{ℤ, pos, negsuc, ◌+ℤ◌, ◌-ℤ◌, ltb_ℤ, eq_ℤ, wrap64}
use app_autoscaler.Strconv.{◌⧺◌, parse_int, format_int, eq_upper, trim_percent}
use app_autoscaler.Float.{Float64}
use app_autoscaler.Models.{
  Error, active_schedule_not_found, invalid_number, message, error_text, Result, ok, err, AppEntity,
  ScalingType, dynamic, schedule, ScalingStatus, succeeded, failed, ignored, AppScalingHistory,
  AppScalingResult, ScalingPolicy, Trigger, cool_down, ActiveSchedule,
}
use app_autoscaler.EngineDb.{
  EngineDb, Faults, save_scaling_history, can_scale_app, update_scaling_cooldown_expire_time,
  get_active_schedule, store_active_schedule, delete_active_schedule,
}

pub record World : Type 0 where
  pub db : EngineDb
  pub calls : List (String × ℤ)

-- What a request meets outside.
pub record Outside : Type 0 where
  pub now : ℤ
  pub db_now : ℤ
  pub get_app : Result AppEntity
  pub set_app_instances : Option Error
  pub get_app_policy : Result (Option ScalingPolicy)
  pub cooldown_query : Faults
  pub cooldown_update : Faults
  pub schedule_query : Option Error
  pub schedule_update : Faults
  pub schedule_delete : Option Error
  pub history_insert : Option Error

pub record Reply (A : Type 0) : Type 0 where
  pub world : World
  pub history : AppScalingHistory
  pub outcome : A

-- getDynamicScalingReason
unfoldable pub dynamic_scaling_reason : Trigger → String
dynamic_scaling_reason t =
    t.adjustment
    ⧺ " instance(s) because "
    ⧺ t.metric_type
    ⧺ " "
    ⧺ t.operator
    ⧺ " "
    ⧺ format_int t.threshold
    ⧺ t.metric_unit
    ⧺ " for "
    ⧺ format_int t.breach_duration_seconds
    ⧺ " seconds"

-- getScheduledScalingReason
unfoldable pub scheduled_scaling_reason : ActiveSchedule → String
scheduled_scaling_reason s =
    "schedule starts with instance min "
    ⧺ format_int s.instance_min
    ⧺ ", instance max "
    ⧺ format_int s.instance_max
    ⧺ " and instance min initial "
    ⧺ format_int s.instance_min_initial

-- The history as it is when the request starts; the zero of a status is `succeeded`.
abbrev pub new_history : ℤ → String → ScalingType → String → AppScalingHistory
new_history now app kind reason = record {
  app_id = app;
  timestamp = now;
  scaling_type = kind;
  status = succeeded;
  old_instances = negsuc 0;
  new_instances = negsuc 0;
  reason = reason;
  message = "";
  error = "";
}

abbrev pub send : String → ℤ → World → World
send app n w = record w { calls = (app, n) ∷ w.calls }

abbrev pub save : Option Error → {A : Type 0} → Reply A → World × A
save fault r = (record r.world { db = save_scaling_history fault r.history r.world.db }, r.outcome)

-- The number of instances brought into the limits, and the message that says so.
abbrev pub limit_instances : ℤ → ℤ → ℤ → ℤ × String
limit_instances lo hi n =
    if ltb_ℤ n lo
    then (lo, "limited by min instances " ⧺ format_int lo)
    else if ltb_ℤ hi n
    then (hi, "limited by max instances " ⧺ format_int hi)
    else (n, "")

-- The lines that SetActiveSchedule and RemoveActiveSchedule share, from `newInstances :=` on.
unfoldable pub settle :
    Outside → String → ℤ → ℤ → ℤ → World → AppScalingHistory → Reply (Option Error)
settle o app lo hi old w h =
    let (n, text) = limit_instances lo hi old in
    let h₁ = record h { new_instances = n; message = text } in
    if eq_ℤ n old
    then (record { world = w; history = record h₁ { status = ignored }; outcome = none })
    else elim o.set_app_instances [
      | some e ↦ record {
        world = send app n w;
        history = record h₁ {
          status = failed;
          error = "failed to set app instances: " ⧺ error_text e;
        };
        outcome = some e;
      }
      | none ↦ record {
        world = send app n w;
        history = record h₁ { status = succeeded };
        outcome = none;
      }
    ]
