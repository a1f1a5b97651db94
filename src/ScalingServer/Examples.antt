-- ===== src/ScalingServer/Examples.antt =====
-- Concrete requests to the scaling engine's server.
use app_autoscaler.Prelude.{
  ℕ, String, ◌≡◌, refl, ◌↔◌, ◌⊎◌, Bool, true, false, not, ◌||◌, Option, none, some, List, [], ◌∷◌,
  Holds, str_eq, if◌then◌else◌,
}
use app_autoscaler.Prelude.Int.{ℤ, pos, ltb_ℤ}
use app_autoscaler.Prelude.Dict.{lookup}
use app_autoscaler.Models.{
  ok, AppScalingHistory, ActiveSchedule, dynamic, ScalingStatus, succeeded, ignored,
}
use app_autoscaler.EngineDb.{
  EngineDb, no_faults, OrderType, is_ignored, in_range, retrieve_scaling_histories,
}
use app_autoscaler.EngineDb.Retrieve.{IsOrdered}
use app_autoscaler.ScalingEngine.{World, Outside}
use app_autoscaler.Strconv.{parse_int, eq_upper, eq_lower}
use app_autoscaler.Http.{Query, param, refused, answered, write_json, time_param, order_param}
use app_autoscaler.ScalingServer.{get_scaling_histories, histories_params, include_param}
use app_autoscaler.ScalingServer.Histories.{Asks, get_scaling_histories_lem}
use app_autoscaler.ScalingServer.Statuses.{between, ended, start_remove}

abbrev history : ℕ → ScalingStatus → AppScalingHistory
history t status = record {
  app_id = "a";
  timestamp = pos t;
  scaling_type = dynamic;
  status = status;
  old_instances = pos 1;
  new_instances = pos 2;
  reason = "";
  message = "";
  error = "";
}

abbrev engine_db : EngineDb
engine_db = record {
  cooldowns = [];
  schedules = [];
  histories = history 30 succeeded ∷ history 20 ignored ∷ history 10 succeeded ∷ [];
}

abbrev later : Query
later = ("start", "15" ∷ []) ∷ ("order", "asc" ∷ []) ∷ ("include", "All" ∷ []) ∷ []

-- As many letters as there are rows.
abbrev marks : List AppScalingHistory → Option String
marks [] = some ""
marks (h ∷ []) = some "h"
marks (h ∷ k ∷ []) = some "hh"
marks (h ∷ k ∷ l ∷ rows) = none

later_runs :
    (get_scaling_histories marks no_faults (pos 99) "a" later engine_db ≡ answered 200 "hh")
    × (get_scaling_histories marks no_faults (pos 99) "a" [] engine_db ≡ answered 200 "hh")
    × (get_scaling_histories marks no_faults (pos 99) "a" (("start", "x" ∷ []) ∷ []) engine_db
        ≡ refused 400 "Bad-Request" "Error parsing start time")
unfolding get_scaling_histories retrieve_scaling_histories histories_params include_param param
    lookup time_param order_param write_json parse_int eq_upper eq_lower
later_runs = (refl, refl, refl)

get_scaling_histories_lem_example :
    ((start end : ℤ) × (order : OrderType) × (all : Bool) × (rows : List AppScalingHistory) × Asks
        later start end order all
      × (get_scaling_histories marks no_faults (pos 99) "a" later engine_db
          ≡ write_json marks "Error getting scaling histories from database" rows)
      × IsOrdered order rows
      × ((h : AppScalingHistory)
          → Holds h rows ↔ (
              Holds h engine_db.histories
              × (in_range "a" start (if ltb_ℤ end (pos 0) then pos 99 else end) h ≡ true)
              × ((all || not (is_ignored h)) ≡ true))))
    ⊎ ((text : String) × (get_scaling_histories marks no_faults (pos 99) "a" later engine_db
          ≡ refused 400 "Bad-Request" text)
        × ((start end : ℤ) (order : OrderType) (all : Bool) → Asks later start end order all → ⊥))
get_scaling_histories_lem_example = get_scaling_histories_lem marks (pos 99) "a" later engine_db

abbrev quiet : Outside
quiet = record {
  now = pos 1000;
  db_now = pos 1000;
  get_app = ok (record { instances = pos 3; state = some "STARTED" });
  set_app_instances = none;
  get_app_policy = ok none;
  cooldown_query = no_faults;
  cooldown_update = no_faults;
  schedule_query = none;
  schedule_update = no_faults;
  schedule_delete = none;
  history_insert = none;
}

abbrev night : ActiveSchedule
night = record {
  schedule_id = "";
  instance_min = pos 2;
  instance_max = pos 4;
  instance_min_initial = pos 3;
}

abbrev world : World
world = record { db = engine_db; calls = [] }

start_remove_example :
    ((current : ActiveSchedule) × (lookup "a" (between quiet quiet "a" "7" night world).db.schedules
        ≡ some current)
      × (str_eq "7" current.schedule_id ≡ true))
    × (lookup "a" (ended quiet quiet "a" "7" night world).db.schedules ≡ none)
    × ((other : String)
        → str_eq "a" other ≡ false
        → lookup other (ended quiet quiet "a" "7" night world).db.schedules
          ≡ lookup other world.db.schedules)
start_remove_example = start_remove quiet quiet "a" "7" night world refl refl refl refl
