-- ===== src/ScalingServer/Statuses.antt =====
-- What the requests to start and to end a schedule leave.
use app_autoscaler.Prelude.{
  String, ◌≡◌, refl, ap, sym, ◌∙◌, subst, inr, false, true, none, some, str_eq, eq_iff,
}
use app_autoscaler.Prelude.Dict.{lookup}
use app_autoscaler.Models.{ActiveSchedule}
use app_autoscaler.EngineDb.{no_faults}
use app_autoscaler.ScalingEngine.{World, Outside}
use app_autoscaler.ScalingEngine.Schedules.{set_active_schedule, remove_active_schedule}
use app_autoscaler.ScalingEngine.Active.{set_stores}
use app_autoscaler.ScalingEngine.Others.{set_frame, remove_frame, remove_gone}
use app_autoscaler.ScalingServer.{start_active_schedule, handle_remove}

module _ (o o' : Outside) (app id : String) (s : ActiveSchedule) (w : World) where
  abbrev pub between : World
  between = (start_active_schedule o app id (some s) w).0

  abbrev pub ended : World
  ended = (handle_remove o' app id between).0

  start_world : between ≡ (set_active_schedule o app (record s { schedule_id = id }) w).0
  unfolding start_active_schedule
  start_world = refl

  end_world : ended ≡ (remove_active_schedule o' app id between).0
  unfolding handle_remove
  end_world = refl

  -- The statements on the active schedules are given not to fail. A request to start a schedule and then
  -- one to end the schedule of the same id leave the app without an active schedule, whatever it had
  -- before, whatever the body of the first says, and whatever the cloud controller and the policy
  -- database answer to either; in between the app has one with that id. The schedules of the other apps
  -- are as they were.
  pub start_remove :
      o.schedule_query ≡ none
      → o.schedule_update ≡ no_faults
      → o'.schedule_query ≡ none
      → o'.schedule_delete ≡ none
      → ((current : ActiveSchedule) × (lookup app between.db.schedules ≡ some current)
          × (str_eq id current.schedule_id ≡ true))
        × (lookup app ended.db.schedules ≡ none)
        × ((other : String)
            → str_eq app other ≡ false
            → lookup other ended.db.schedules ≡ lookup other w.db.schedules)
  start_remove q u q' d =
      let (current, found, same) = set_stores o app (record s { schedule_id = id }) w q u in
      let found' : lookup app between.db.schedules ≡ some current = rw start_world found in
      let back : str_eq current.schedule_id id ≡ true =
        (eq_iff current.schedule_id id).1 (sym ((eq_iff id current.schedule_id).0 same)) in
      (
        (current, found', same),
        subst (λ z. lookup app z.db.schedules ≡ none) (sym end_world)
            (remove_gone o' app id between q' d (inr (current, found', back))),
        λ other ne.
            ap (λ z. lookup other z.db.schedules) end_world
            ∙ remove_frame o' app other id between q' d ne
            ∙ ap (λ z. lookup other z.db.schedules) start_world
            ∙ set_frame o app other (record s { schedule_id = id }) w ne,
      )
