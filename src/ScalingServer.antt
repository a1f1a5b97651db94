-- ===== src/ScalingServer.antt =====
-- scalingengine/server/scaling_handler.go and sync_handler.go: the requests to the scaling engine. What JSON
-- decodes the body of a request to is given.
pub mod Histories
pub mod Statuses
mod Examples
use app_autoscaler.Prelude.{
  ℕ, String, Bool, true, false, Option, none, some, List, [], ◌∷◌, if◌then◌else◌,
}
use app_autoscaler.Prelude.Int.{ℤ, pos, negsuc}
use app_autoscaler.Prelude.Dict.{Dict}
use app_autoscaler.Strconv.{eq_lower}
use app_autoscaler.Float.{Float64}
use app_autoscaler.Models.{
  Error, active_schedule_not_found, app_not_found, bad_conn, invalid_number, message, Result, ok,
  err, AppScalingHistory, AppScalingResult, Trigger, ActiveSchedule,
}
use app_autoscaler.EngineDb.{
  EngineDb, Faults, OrderType, desc, get_active_schedule, retrieve_scaling_histories,
}
use app_autoscaler.ScalingEngine.{World, Outside}
use app_autoscaler.ScalingEngine.Scale.{scale}
use app_autoscaler.ScalingEngine.Schedules.{set_active_schedule, remove_active_schedule}
use app_autoscaler.ScheduleSync.{sync}
use app_autoscaler.Http.{
  Query, param, Response, refused, answered, panics, Checked, good, bad, ◌>>=◌, time_param,
  order_param, or_refuse, write_json,
}

-- ScalingHandler.Scale; a body that is not a trigger is `none`.
unfoldable pub handle_scale :
    (AppScalingResult → String)
    → Float64
    → ℤ
    → Outside
    → String
    → Option Trigger
    → World
    → World × Response
handle_scale encode fl default_secs o app none w =
    (w, refused 400 "Bad-Request" "Incorrect trigger in request body")
handle_scale encode fl default_secs o app (some trigger) w =
    let (w', r) = scale fl default_secs o app trigger w in
    (
      w',
      elim r [
        | none ↦ panics
        | some (err e) ↦ refused 500 "Internal-server-error" "Error taking scaling action"
        | some (ok result) ↦ answered 200 (encode result)
      ],
    )

-- The parameter include.
unfoldable pub include_param : List String → Checked Bool
include_param [] = good false
include_param (s ∷ []) =
    if eq_lower s "all"
    then good true
    else bad "Incorrect include parameter in query string, the value can only be 'all'"
include_param (s ∷ t ∷ more) = bad "Incorrect include parameter in query string"

-- The start, the end, the order, and whether to include the ignored histories.
unfoldable pub histories_params : Query → Checked (ℤ × ℤ × OrderType × Bool)
unfolding include_param
histories_params q = do
  start ← time_param "start" (pos 0) (param "start" q)
  end ← time_param "end" (negsuc 0) (param "end" q)
  order ← order_param "'" desc (param "order" q)
  include_all ← include_param (param "include" q)
  good (start, end, order, include_all)

-- GetScalingHistories
unfoldable pub get_scaling_histories :
    (List AppScalingHistory → Option String) → Faults → ℤ → String → Query → EngineDb → Response
unfolding histories_params
get_scaling_histories encode f now app q db = or_refuse (histories_params q) λ p.
    elim (retrieve_scaling_histories f now app p.0 p.1 p.2 p.3 db) [
      | err e ↦ refused 500 "Interal-Server-Error" "Error getting scaling histories from database"
      | ok rows ↦ write_json encode "Error getting scaling histories from database" rows
    ]

-- StartActiveSchedule; without an error nothing is written, which net/http answers with 200.
unfoldable pub start_active_schedule :
    Outside → String → String → Option ActiveSchedule → World → World × Response
start_active_schedule o app id none w =
    (w, refused 400 "Bad-Request" "Incorrect active schedule in request body")
start_active_schedule o app id (some s) w =
    let (w', e) = set_active_schedule o app (record s { schedule_id = id }) w in
    (
      w',
      elim e [
        | some e ↦ refused 500 "Interal-Server-Error" "Error setting active schedule"
        | none ↦ answered 200 ""
      ],
    )

-- The response to an error of the removal.
abbrev pub removal_error : Error → Response
removal_error active_schedule_not_found = refused 404 "Not-Found" "Active schedule not found"
removal_error (app_not_found text) =
    refused 500 "Interal-Server-Error" "Error removing active schedule"
removal_error bad_conn = refused 500 "Interal-Server-Error" "Error removing active schedule"
removal_error (invalid_number text) =
    refused 500 "Interal-Server-Error" "Error removing active schedule"
removal_error (message text) = refused 500 "Interal-Server-Error" "Error removing active schedule"

-- RemoveActiveSchedule
unfoldable pub handle_remove : Outside → String → String → World → World × Response
handle_remove o app id w =
    let (w', e) = remove_active_schedule o app id w in
    (w', elim e [ some e ↦ removal_error e | none ↦ answered 204 "" ])

-- GetActiveSchedule
unfoldable pub handle_get_active :
    (ActiveSchedule → Option String) → Option Error → String → EngineDb → Response
handle_get_active encode f app db = elim (get_active_schedule f app db) [
  | err e ↦ refused 500 "Interal-Server-Error" "Error getting active schedule from database"
  | ok none ↦ refused 404 "Not-Found" "Active schedule not found"
  | ok (some s) ↦ write_json encode "Error getting active schedule from database" s
]

-- SyncHandler.Sync: the synchronization runs after the response.
unfoldable pub handle_sync :
    Result (Dict ActiveSchedule) → Faults → (String → Outside) → World → World × Response
handle_sync scheduler f outside w = (sync scheduler f outside w, answered 200 "")
