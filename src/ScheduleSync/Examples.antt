-- ===== src/ScheduleSync/Examples.antt =====
-- A concrete scheduler and engine.
use app_autoscaler.Prelude.{String, ◌≡◌, refl, ◌⊎◌, none, some, [], ◌∷◌}
use app_autoscaler.Prelude.Int.{pos}
use app_autoscaler.Prelude.Dict.{Dict, lookup}
use app_autoscaler.Models.{ok, ActiveSchedule}
use app_autoscaler.EngineDb.{no_faults}
use app_autoscaler.ScalingEngine.{World, Outside}
use app_autoscaler.ScheduleSync.{sync}
use app_autoscaler.ScheduleSync.Actions.{IsCalm, Unique, HasId}
use app_autoscaler.ScheduleSync.Converge.{sync_converges}

abbrev outside : String → Outside
outside app = record {
  now = pos 1000;
  db_now = pos 1000;
  get_app = ok (record { instances = pos 3; state = some "STARTED" });
  set_app_instances = none;
  get_app_policy =
      ok (some (record { instance_min = pos 1; instance_max = pos 5; scaling_rules = [] }));
  cooldown_query = no_faults;
  cooldown_update = no_faults;
  schedule_query = none;
  schedule_update = no_faults;
  schedule_delete = none;
  history_insert = none;
}

abbrev schedule : String → ActiveSchedule
schedule id = record {
  schedule_id = id;
  instance_min = pos 1;
  instance_max = pos 9;
  instance_min_initial = pos 2;
}

-- The engine has an old schedule of "a", and one of "b" that is over.
abbrev world : World
world = record {
  db = record {
    cooldowns = [];
    schedules = ("a", schedule "old") ∷ ("b", schedule "over") ∷ [];
    histories = [];
  };
  calls = [];
}

abbrev scheduled : Dict ActiveSchedule
scheduled = ("c", schedule "third") ∷ ("a", schedule "new") ∷ []

calm : (app : String) → IsCalm (outside app)
calm app = record { queries = refl; updates = refl; deletes = refl }

no_app_twice : Unique scheduled
unfolding lookup
no_app_twice = (refl, (refl, tt))

sync_converges_example :
    ((s : ActiveSchedule) × (lookup "a" scheduled ≡ some s)
      × HasId "a" s.schedule_id (sync (ok scheduled) no_faults outside world))
    ⊎ ((lookup "a" scheduled ≡ none)
        × (lookup "a" (sync (ok scheduled) no_faults outside world).db.schedules ≡ none))
sync_converges_example = sync_converges outside scheduled world "a" calm no_app_twice
