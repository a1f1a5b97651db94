-- ===== src/ScheduleSync/Converge.antt =====
-- What Sync of scalingengine/schedule/sync.go leaves.
use app_autoscaler.Prelude.{
  String, ◌≡◌, refl, ◌∙◌, false, ◌⊎◌, inl, inr, none, some, Bool-cases, Option-cases, List-cases,
  arith, eq_refl,
}
use app_autoscaler.Prelude.Dict.{Dict, lookup}
use app_autoscaler.Models.{ok, ActiveSchedule}
use app_autoscaler.EngineDb.{EngineDb, no_faults, schedule_ids, get_active_schedules}
use app_autoscaler.EngineDb.Stored.{schedule_ids_lem}
use app_autoscaler.ScalingEngine.{World, Outside}
use app_autoscaler.ScheduleSync.{
  needs_start, missing_starts, missing_ends, act_all, sync_actions, sync,
}
use app_autoscaler.ScheduleSync.Actions.{
  IsCalm, Unique, HasId, clash, act_all-append, starts_keep, starts_begin, ends_keep, ends_none,
  ends_remove,
}

engine_ids : (db : EngineDb) → get_active_schedules no_faults db ≡ ok (schedule_ids db.schedules)
unfolding get_active_schedules
engine_ids db = elim (List-cases db.schedules) [
  | inl e ↦ rw (get_active_schedules, e) refl
  | inr (x, xs, e) ↦ rw (get_active_schedules, e) refl
]

-- A schedule that Sync does not start is active.
idle-HasId :
    (app : String) (s : ActiveSchedule) (w : World)
    → needs_start (schedule_ids w.db.schedules) app s ≡ false
    → HasId app s.schedule_id w
idle-HasId app s w idle = elim (Option-cases (lookup app w.db.schedules)) [
  | inl e ↦
      let ids : lookup app (schedule_ids w.db.schedules) ≡ none =
        schedule_ids_lem app w.db.schedules ∙ rw e refl in
      absurd (clash (rw ids at idle))
  | inr (current, e) ↦
      let ids : lookup app (schedule_ids w.db.schedules) ≡ some current.schedule_id =
        schedule_ids_lem app w.db.schedules ∙ rw e refl in
      (current, e, ground (arith, rw ids at idle))
]

-- Let no statement fail in Sync or in the requests that it makes, and let the scheduler's answer have no
-- app twice. Then after Sync an app that the scheduler has is active with the scheduler's id, and an app
-- that the scheduler does not have has no active schedule, whatever the cloud controller answers.
pub sync_converges :
    (outside : String → Outside) (scheduled : Dict ActiveSchedule) (w : World) (app : String)
    → ((a : String) → IsCalm (outside a))
    → Unique scheduled
    → ((s : ActiveSchedule) × (lookup app scheduled ≡ some s)
        × HasId app s.schedule_id (sync (ok scheduled) no_faults outside w))
      ⊎ ((lookup app scheduled ≡ none)
          × (lookup app (sync (ok scheduled) no_faults outside w).db.schedules ≡ none))
unfolding sync sync_actions
sync_converges outside scheduled w app calm u =
    let ids = schedule_ids w.db.schedules in
    let started = act_all outside (missing_starts ids scheduled) w in
    let whole : sync (ok scheduled) no_faults outside w
        ≡ act_all outside (missing_ends scheduled ids) started =
      rw (sync, sync_actions, engine_ids w.db)
        (act_all-append outside calm app (missing_starts ids scheduled) (missing_ends scheduled ids)
          w) in
    rw whole (elim (Option-cases (lookup app scheduled)) [
      | inr (s, l) ↦
          let kept = ends_keep outside calm app scheduled ids started s l in
          elim (Bool-cases (needs_start ids app s)) [
            | inl needed ↦
                let (current, found, same) =
                  starts_begin outside calm app ids scheduled w s l needed u in
                inl (s, l, (current, kept ∙ found, same))
            | inr idle ↦
                let (current, found, same) = idle-HasId app s w idle in
                inl (
                  s,
                  l,
                  (
                    current,
                    kept
                        ∙ starts_keep outside calm app ids scheduled w (inr (s, l, idle)) u
                        ∙ found,
                    same,
                  ),
                )
          ]
      | inl l ↦
          let kept = starts_keep outside calm app ids scheduled w (inl l) u in
          inr (
            l,
            elim (Option-cases (lookup app w.db.schedules)) [
              | inl e ↦ ends_none outside calm app scheduled ids started (kept ∙ e)
              | inr (current, e) ↦
                  ends_remove outside calm app scheduled ids started current.schedule_id l
                    (schedule_ids_lem app w.db.schedules ∙ rw e refl)
                    (current, kept ∙ e, eq_refl current.schedule_id)
            ],
          )
    ])
