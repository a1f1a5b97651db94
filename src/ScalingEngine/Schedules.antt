-- ===== src/ScalingEngine/Schedules.antt =====
-- SetActiveSchedule and RemoveActiveSchedule of scalingengine/scalingengine.go.
use app_autoscaler.Prelude.{String, Option, none, some, str_eq, if◌then◌else◌}
use app_autoscaler.Prelude.Int.{ℤ, ltb_ℤ}
use app_autoscaler.Strconv.{◌⧺◌}
use app_autoscaler.Models.{
  Error, active_schedule_not_found, error_text, ok, err, schedule, failed, ignored,
  AppScalingHistory, ActiveSchedule,
}
use app_autoscaler.EngineDb.{get_active_schedule, store_active_schedule, delete_active_schedule}
use app_autoscaler.ScalingEngine.{
  World, Outside, Reply, scheduled_scaling_reason, new_history, save, settle,
}

-- instanceMin: the larger of the two minimums.
abbrev pub initial_min : ActiveSchedule → ℤ
initial_min s =
    if ltb_ℤ s.instance_min_initial s.instance_min then s.instance_min else s.instance_min_initial

-- The history of a schedule's start or end.
abbrev pub schedule_history : Outside → String → String → AppScalingHistory
schedule_history o app reason = new_history o.now app schedule reason

-- SetActiveSchedule, from the history on.
unfoldable pub start_schedule : Outside → String → ActiveSchedule → World → Reply (Option Error)
unfolding settle
start_schedule o app s w =
    let h = schedule_history o app (scheduled_scaling_reason s) in
    elim o.get_app [
      | err e ↦ record {
        world = w;
        history = record h { status = failed; error = "failed to get app info: " ⧺ error_text e };
        outcome = some e;
      }
      | ok entity ↦
          settle o app (initial_min s) s.instance_max entity.instances w
            (record h { old_instances = entity.instances })
    ]

-- SetActiveSchedule, behind its look at the present schedule.
unfoldable pub store_and_start : Outside → String → ActiveSchedule → World → World × Option Error
unfolding start_schedule
store_and_start o app s w =
    let (db, fault) = store_active_schedule o.schedule_update app s w.db in
    let w₁ = record w { db = db } in
    elim fault [ some e ↦ (w₁, some e) | none ↦ save o.history_insert (start_schedule o app s w₁) ]

unfoldable pub set_active_schedule :
    Outside → String → ActiveSchedule → World → World × Option Error
unfolding store_and_start
set_active_schedule o app s w = elim (get_active_schedule o.schedule_query app w.db) [
  | err e ↦ (w, some e)
  | ok none ↦ store_and_start o app s w
  | ok (some current) ↦
      let change = store_and_start o app s w in
      if str_eq s.schedule_id current.schedule_id then (w, none) else change
]

-- RemoveActiveSchedule, from the history on.
unfoldable pub end_schedule : Outside → String → World → Reply (Option Error)
unfolding settle
end_schedule o app w =
    let h = schedule_history o app "schedule ends" in
    elim o.get_app [
      | err e ↦ record {
        world = w;
        history = record h { status = failed; error = "failed to get app info: " ⧺ error_text e };
        outcome = some e;
      }
      | ok entity ↦
          let h₁ = record h { old_instances = entity.instances } in
          elim o.get_app_policy [
            | err e ↦ record {
              world = w;
              history = record h₁ { status = failed; error = "failed to get app policy" };
              outcome = some e;
            }
            | ok none ↦ record {
              world = w;
              history = record h₁ { status = ignored };
              outcome = none;
            }
            | ok (some p) ↦ settle o app p.instance_min p.instance_max entity.instances w h₁
          ]
    ]

-- RemoveActiveSchedule, behind its look at the present schedule.
unfoldable pub delete_and_end : Outside → String → World → World × Option Error
unfolding end_schedule
delete_and_end o app w =
    let (db, fault) = delete_active_schedule o.schedule_delete app w.db in
    let w₁ = record w { db = db } in
    elim fault [ some e ↦ (w₁, some e) | none ↦ save o.history_insert (end_schedule o app w₁) ]

unfoldable pub remove_active_schedule : Outside → String → String → World → World × Option Error
unfolding delete_and_end
remove_active_schedule o app id w = elim (get_active_schedule o.schedule_query app w.db) [
  | err e ↦ (w, some e)
  | ok none ↦ (w, some active_schedule_not_found)
  | ok (some current) ↦
      let change = delete_and_end o app w in
      if str_eq current.schedule_id id then change else (w, some active_schedule_not_found)
]
