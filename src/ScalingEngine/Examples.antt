-- ===== src/ScalingEngine/Examples.antt =====
-- Concrete requests to the scaling engine.
use app_autoscaler.Prelude.{
  length, ◌+◌, ◌*◌, List, ◌≡◌, refl, String, true, false, ◌⊎◌, none, some, [], ◌∷◌, str_eq, arith,
  if◌then◌else◌,
}
use app_autoscaler.Prelude.Int.{ℤ, pos, ◌+ℤ◌, ◌*ℤ◌, wrap64, ◌-ℤ◌}
use app_autoscaler.Prelude.Dict.{lookup, insert, remove}
use app_autoscaler.Strconv.{parse_int, trim_percent, eq_upper}
use app_autoscaler.Float.Thousandths.{thousandths}
use app_autoscaler.Models.{
  active_schedule_not_found, ok, AppScalingHistory, AppScalingResult, succeeded, Trigger,
  ActiveSchedule, cool_down,
}
use app_autoscaler.EngineDb.{
  no_faults, can_scale_app, update_scaling_cooldown_expire_time, get_active_schedule,
  save_scaling_history,
}
use app_autoscaler.ScalingEngine.{World, Outside}
use app_autoscaler.ScalingEngine.Scale.{
  compute_new_instances, scale, scale_app, scale_started, scale_instances, apply_instances,
  instance_limits,
}
use app_autoscaler.ScalingEngine.Schedules.{set_active_schedule, remove_active_schedule}
use app_autoscaler.ScalingEngine.Limits.{Allowed, scale_calls}
use app_autoscaler.ScalingEngine.Records.{Agrees, scale_records}
use app_autoscaler.ScalingEngine.Cooling.{scale_cools_down}
use app_autoscaler.Models.{ScalingPolicy}
use Prim.Native.Nat.{min}
use app_autoscaler.ScalingEngine.Climbs.{Round, last_requested, scale_all, Spaced, scale_all_climbs}
use app_autoscaler.ScalingEngine.Adjusts.{Adjusts, set_calls}
use app_autoscaler.ScalingEngine.Active.{set_idempotent, remove_lem}

abbrev outside : Outside
outside = record {
  now = pos 1000;
  db_now = pos 1000;
  get_app = ok (record { instances = pos 3; state = some "STARTED" });
  set_app_instances = none;
  get_app_policy =
      ok (some (record { instance_min = pos 1; instance_max = pos 5; scaling_rules = [] }));
  cooldown_query = no_faults;
  cooldown_update = no_faults;
  schedule_query = none;
  schedule_update = no_faults;
  schedule_delete = none;
  history_insert = none;
}

abbrev world : World
world = record { db = record { cooldowns = []; schedules = []; histories = [] }; calls = [] }

abbrev trigger : Trigger
trigger = record {
  app_id = "a";
  metric_type = "cpu";
  metric_unit = "%";
  breach_duration_seconds = pos 60;
  threshold = pos 80;
  operator = ">";
  cool_down_seconds = pos 30;
  adjustment = "+4";
}

abbrev scaled : AppScalingResult
scaled = record {
  app_id = "a";
  status = succeeded;
  adjustment = pos 2;
  cooldown_expired_at = pos 30000001000;
}

-- Four more than 3 is limited to 5.
scale_runs :
    ((scale thousandths (pos 300) outside "a" trigger world).1 ≡ some (ok scaled))
    × ((scale thousandths (pos 300) outside "a" trigger world).0.calls ≡ ("a", pos 5) ∷ [])
unfolding scale scale_app scale_started scale_instances apply_instances instance_limits
    compute_new_instances cool_down can_scale_app get_active_schedule
    update_scaling_cooldown_expire_time save_scaling_history trim_percent parse_int eq_upper lookup
    insert remove wrap64 ◌+ℤ◌ ◌-ℤ◌ ◌*ℤ◌
scale_runs = (refl, refl)

-- Without a state the request panics, and its history says "succeeded".
stateless_runs :
    ((scale thousandths
        (pos 300)
        (record outside { get_app = ok (record { instances = pos 3; state = none }) })
        "a"
        trigger
        world).1
      ≡ none)
unfolding scale scale_app
stateless_runs = refl

scale_calls_example :
    ((scale thousandths (pos 300) outside "a" trigger world).0.calls ≡ [])
    ⊎ ((n : ℤ) × ((scale thousandths (pos 300) outside "a" trigger world).0.calls ≡ ("a", n) ∷ [])
        × Allowed thousandths (pos 300) outside "a" trigger world n)
scale_calls_example = scale_calls thousandths (pos 300) outside "a" trigger world

scale_records_example :
    (h : AppScalingHistory) × ((scale thousandths
        (pos 300)
        outside
        "a"
        trigger
        world).0.db.histories
      ≡ h ∷ [])
    × (h.app_id ≡ "a")
    × (h.timestamp ≡ pos 1000)
    × Agrees h (scale thousandths (pos 300) outside "a" trigger world).1
scale_records_example = scale_records thousandths (pos 300) outside "a" trigger world refl

scale_cools_down_example :
    (scale thousandths
      (pos 300)
      (record outside { db_now = pos 2000 })
      "a"
      trigger
      (scale thousandths (pos 300) outside "a" trigger world).0).0.calls
    ≡ (scale thousandths (pos 300) outside "a" trigger world).0.calls
scale_cools_down_example =
    scale_cools_down thousandths (pos 300) outside (record outside { db_now = pos 2000 }) "a"
      trigger trigger world scaled refl scale_runs.0 refl refl (omega arith)

half_more : (trim_percent "50%" ≡ some "50") × (thousandths.parse_float "50" ≡ some (pos 50000))
unfolding trim_percent parse_int ◌*ℤ◌
half_more = (refl, refl)

abbrev night : ActiveSchedule
night = record {
  schedule_id = "night";
  instance_min = pos 4;
  instance_max = pos 8;
  instance_min_initial = pos 5;
}

abbrev at_night : World
at_night = record world {
  db = record { cooldowns = []; schedules = ("a", night) ∷ []; histories = [] };
}

set_idempotent_example :
    set_active_schedule outside "a" night (set_active_schedule outside "a" night world).0
    ≡ ((set_active_schedule outside "a" night world).0, none)
set_idempotent_example = set_idempotent outside outside "a" night night world refl refl refl refl

remove_lem_example :
    ((current : ActiveSchedule) × (lookup "a" at_night.db.schedules ≡ some current)
      × (str_eq current.schedule_id "night" ≡ true)
      × ((other : String)
          → lookup other (remove_active_schedule outside "a" "night" at_night).0.db.schedules
            ≡ (if str_eq "a" other then none else lookup other at_night.db.schedules)))
    ⊎ (((current : ActiveSchedule)
          → lookup "a" at_night.db.schedules ≡ some current
          → str_eq current.schedule_id "night" ≡ false)
        × (remove_active_schedule outside "a" "night" at_night
            ≡ (at_night, some active_schedule_not_found)))
remove_lem_example = remove_lem outside "a" "night" at_night refl refl

abbrev policy : ScalingPolicy
policy = record { instance_min = pos 1; instance_max = pos 5; scaling_rules = [] }

-- Three calls, each after the 30 seconds of cooldown of the one before.
abbrev rounds : List Round
rounds =
    record { now = pos 1000; db_now = pos 1000 }
    ∷ record { now = pos 40000000000; db_now = pos 40000000000 }
    ∷ record { now = pos 80000000000; db_now = pos 80000000000 }
    ∷ []

four : parse_int 32 "+4" ≡ some (pos 4)
unfolding parse_int
four = refl

no_percent : trim_percent "+4" ≡ none
unfolding trim_percent
no_percent = refl

spaced : Spaced thousandths (pos 300) "a" trigger policy (pos 1) rounds
unfolding cool_down wrap64 ◌+ℤ◌ ◌*ℤ◌
spaced =
    ((omega arith, (omega arith, record {})), ((omega arith, record {}), (record {}, record {})))

-- From 1 up to the 5 of the policy.
scale_all_climbs_example :
    last_requested thousandths
      (pos 300)
      "a"
      trigger
      policy
      (pos 1)
      (scale_all thousandths (pos 300) "a" trigger policy (pos 1) rounds world).calls
    ≡ pos (min (1 + length rounds * 4) 5)
unfolding lookup
scale_all_climbs_example =
    scale_all_climbs thousandths (pos 300) "a" trigger policy (pos 1) 4 5 no_percent four refl
      (omega arith) rounds world 1 refl refl (omega arith) (omega arith) (λ e h. ground arith)
      spaced

set_calls_example :
    ((set_active_schedule outside "a" night world).0.calls ≡ [])
    ⊎ ((n : ℤ) × ((set_active_schedule outside "a" night world).0.calls ≡ ("a", n) ∷ [])
        × Adjusts outside night n
        × ((current : ActiveSchedule)
            → get_active_schedule none "a" world.db ≡ ok (some current)
            → str_eq "night" current.schedule_id ≡ false))
set_calls_example = set_calls outside "a" night world
