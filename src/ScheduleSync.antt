-- ===== src/ScheduleSync.antt =====
-- scalingengine/schedule/sync.go: the active schedules of the engine are brought in line with those of the
-- scheduler. The requests run in goroutines, each of which holds its app's lock; the model makes them one
-- after the other in the order in which they are started. What each meets outside is given for its app.
pub mod Actions
pub mod Converge
mod Examples
use app_autoscaler.Prelude.{
  ℕ, String, Bool, true, false, ◌||◌, not, Option, none, some, List, [], ◌∷◌, ◌++◌, str_eq,
  if◌then◌else◌,
}
use app_autoscaler.Prelude.Dict.{Dict, lookup}
use app_autoscaler.Models.{Error, Result, ok, err, ActiveSchedule}
use app_autoscaler.EngineDb.{Faults, get_active_schedules}
use app_autoscaler.ScalingEngine.{World, Outside}
use app_autoscaler.ScalingEngine.Schedules.{set_active_schedule, remove_active_schedule}

-- A request that Sync makes to the engine.
pub data Action : Type 0 where
  begin : String → ActiveSchedule → Action
  finish : String → String → Action

-- asEngine[appId], with "" for a missing one
abbrev pub id_or_empty : Option String → String
id_or_empty none = ""
id_or_empty (some id) = id

-- The test of the first loop.
abbrev pub needs_start : Dict String → String → ActiveSchedule → Bool
needs_start engine app s =
    str_eq (id_or_empty (lookup app engine)) ""
    || not (str_eq (id_or_empty (lookup app engine)) s.schedule_id)

-- The loop over the scheduler's schedules.
unfoldable pub missing_starts : Dict String → Dict ActiveSchedule → List Action
missing_starts engine [] = []
missing_starts engine ((app, s) ∷ scheduler) =
    let rest = missing_starts engine scheduler in
    if needs_start engine app s then begin app s ∷ rest else rest

-- The loop over the engine's schedules.
unfoldable pub missing_ends : Dict ActiveSchedule → Dict String → List Action
missing_ends scheduler [] = []
missing_ends scheduler ((app, id) ∷ engine) =
    let rest = missing_ends scheduler engine in
    elim (lookup app scheduler) [ none ↦ finish app id ∷ rest | some s ↦ rest ]

unfoldable pub act : (String → Outside) → Action → World → World
act outside (begin app s) w = (set_active_schedule (outside app) app s w).0
act outside (finish app id) w = (remove_active_schedule (outside app) app id w).0

abbrev pub act_all : (String → Outside) → List Action → World → World
act_all outside [] w = w
act_all outside (a ∷ actions) w = act_all outside actions (act outside a w)

-- The requests of Sync; there are none if one of the two queries fails.
unfoldable pub sync_actions : Result (Dict ActiveSchedule) → Faults → World → List Action
unfolding missing_starts missing_ends
sync_actions scheduler f w = elim scheduler [
  | err e ↦ []
  | ok scheduled ↦ elim (get_active_schedules f w.db) [
    | err e ↦ []
    | ok engine ↦ missing_starts engine scheduled ++ missing_ends scheduled engine
  ]
]

-- Sync, with its requests in the order in which they are started.
unfoldable pub sync : Result (Dict ActiveSchedule) → Faults → (String → Outside) → World → World
unfolding sync_actions act
sync scheduler f outside w = act_all outside (sync_actions scheduler f w) w
