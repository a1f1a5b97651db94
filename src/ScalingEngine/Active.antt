-- ===== src/ScalingEngine/Active.antt =====
-- The active schedule of an app, from its start to its end.
use app_autoscaler.Prelude.{
  String, ◌≡◌, refl, ap, sym, ◌∙◌, subst, true, false, ◌⊎◌, inl, inr, Option, none, some, str_eq,
  if◌then◌else◌, arith, Bool-cases, Option-cases, eq_refl, some_inj,
}
use app_autoscaler.Prelude.Int.{ℤ, eq_ℤ}
use app_autoscaler.Prelude.Dict.{lookup, remove, lookup-remove}
use app_autoscaler.Models.{Error, active_schedule_not_found, AppScalingHistory, ActiveSchedule}
use app_autoscaler.EngineDb.{
  EngineDb, Faults, no_faults, save_scaling_history, get_active_schedule, store_active_schedule,
  delete_active_schedule,
}
use app_autoscaler.EngineDb.Stored.{store_schedule_stores}
use app_autoscaler.ScalingEngine.{
  World, Outside, Reply, settle, save, limit_instances, scheduled_scaling_reason,
}
use app_autoscaler.ScalingEngine.Limits.{Result-cases}
use app_autoscaler.ScalingEngine.Schedules.{
  start_schedule, end_schedule, initial_min, schedule_history, store_and_start, delete_and_end,
  set_active_schedule, remove_active_schedule,
}

settle_db :
    (o : Outside) (app : String) (lo hi old : ℤ) (w : World) (h : AppScalingHistory)
    → (settle o app lo hi old w h).world.db ≡ w.db
unfolding settle
settle_db o app lo hi old w h = elim (Bool-cases (eq_ℤ (limit_instances lo hi old).0 old)) [
  | inl e ↦ rw (settle, e) refl
  | inr e ↦ elim (Option-cases o.set_app_instances) [
    | inl f ↦ rw (settle, e, f) refl
    | inr (x, f) ↦ rw (settle, e, f) refl
  ]
]

pub start_schedule_db :
    (o : Outside) (app : String) (s : ActiveSchedule) (w : World)
    → (start_schedule o app s w).world.db ≡ w.db
unfolding start_schedule
start_schedule_db o app s w = elim (Result-cases o.get_app) [
  | inl (e, p) ↦ rw (start_schedule, p) refl
  | inr (entity, p) ↦
      rw (start_schedule, p)
        (settle_db o app (initial_min s) s.instance_max entity.instances w
          (record (schedule_history o app (scheduled_scaling_reason s)) {
            old_instances = entity.instances;
          }))
]

pub save_schedules :
    {A : Type 0} (fault : Option Error) (r : Reply A)
    → (save fault r).0.db.schedules ≡ r.world.db.schedules
unfolding save_scaling_history
save_schedules (some e) r = refl
save_schedules none r = refl

store_schedule_at :
    (f : Faults) (app : String) (s : ActiveSchedule) (db : EngineDb)
    → f ≡ no_faults
    → ((store_active_schedule f app s db).1 ≡ none)
      × (lookup app (store_active_schedule f app s db).0.schedules ≡ some s)
store_schedule_at f app s db e =
    let (db', e', found, same, same') = store_schedule_stores app s db in
    let answer : store_active_schedule f app s db ≡ (db', none) =
      ap (λ g. store_active_schedule g app s db) e ∙ e' in
    (ap (λ p. p.1) answer, ap (λ p. lookup app p.0.schedules) answer ∙ found)

store_and_start-stores :
    (o : Outside) (app : String) (s : ActiveSchedule) (w : World)
    → o.schedule_update ≡ no_faults
    → lookup app (store_and_start o app s w).0.db.schedules ≡ some s
unfolding store_and_start
store_and_start-stores o app s w u =
    let (step, found) = store_schedule_at o.schedule_update app s w.db u in
    let w' = record w { db = (store_active_schedule o.schedule_update app s w.db).0 } in
    rw (store_and_start, step)
      (ap (lookup app) (save_schedules o.history_insert (start_schedule o app s w'))
        ∙ ap (λ db. lookup app db.schedules) (start_schedule_db o app s w')
        ∙ found)

-- If no statement fails, then after `SetActiveSchedule` the app has an active schedule with the id of
-- the request, whatever the cloud controller answers.
pub set_stores :
    (o : Outside) (app : String) (s : ActiveSchedule) (w : World)
    → o.schedule_query ≡ none
    → o.schedule_update ≡ no_faults
    → (current : ActiveSchedule) × (lookup app (set_active_schedule o app s w).0.db.schedules
        ≡ some current)
      × (str_eq s.schedule_id current.schedule_id ≡ true)
unfolding set_active_schedule get_active_schedule
set_stores o app s w q u = elim (Option-cases (lookup app w.db.schedules)) [
  | inl e ↦ (
    s,
    rw (set_active_schedule, q, get_active_schedule, e) (store_and_start-stores o app s w u),
    eq_refl s.schedule_id,
  )
  | inr (current, e) ↦ elim (Bool-cases (str_eq s.schedule_id current.schedule_id)) [
    | inl same ↦ (current, rw (set_active_schedule, q, get_active_schedule, e, same) e, same)
    | inr other ↦ (
      s,
      rw (set_active_schedule, q, get_active_schedule, e, other)
          (store_and_start-stores o app s w u),
      eq_refl s.schedule_id,
    )
  ]
]

-- `SetActiveSchedule` of the id that is active already answers no error and changes nothing.
set_again :
    (o : Outside) (app : String) (s current : ActiveSchedule) (w : World)
    → o.schedule_query ≡ none
    → lookup app w.db.schedules ≡ some current
    → str_eq s.schedule_id current.schedule_id ≡ true
    → set_active_schedule o app s w ≡ (w, none)
unfolding set_active_schedule get_active_schedule
set_again o app s current w q e same =
    rw (set_active_schedule, q, get_active_schedule, e, same) refl

-- If no statement of the first request fails, nor the query of the second, then a second
-- `SetActiveSchedule` with the same id answers no error and changes nothing: neither the tables nor
-- the requests sent. This holds whatever its other answers and its limits are.
pub set_idempotent :
    (o o' : Outside) (app : String) (s s' : ActiveSchedule) (w : World)
    → o.schedule_query ≡ none
    → o.schedule_update ≡ no_faults
    → o'.schedule_query ≡ none
    → s'.schedule_id ≡ s.schedule_id
    → set_active_schedule o' app s' (set_active_schedule o app s w).0
      ≡ ((set_active_schedule o app s w).0, none)
set_idempotent o o' app s s' w q u q' e =
    let (current, found, same) = set_stores o app s w q u in
    set_again o' app s' current (set_active_schedule o app s w).0 q' found
      (subst (λ id. str_eq id current.schedule_id ≡ true) (sym e) same)

end_schedule_db : (o : Outside) (app : String) (w : World) → (end_schedule o app w).world.db ≡ w.db
unfolding end_schedule
end_schedule_db o app w = elim (Result-cases o.get_app) [
  | inl (e, p) ↦ rw (end_schedule, p) refl
  | inr (entity, p) ↦ elim (Result-cases o.get_app_policy) [
    | inl (e, f) ↦ rw (end_schedule, p, f) refl
    | inr (none, f) ↦ rw (end_schedule, p, f) refl
    | inr (some policy, f) ↦
        rw (end_schedule, p, f)
          (settle_db o app policy.instance_min policy.instance_max entity.instances w
            (record (schedule_history o app "schedule ends") { old_instances = entity.instances }))
  ]
]

delete_schedule_at :
    (f : Option Error) (app : String) (db : EngineDb)
    → f ≡ none
    → ((delete_active_schedule f app db).1 ≡ none)
      × ((delete_active_schedule f app db).0.schedules ≡ remove app db.schedules)
unfolding delete_active_schedule
delete_schedule_at f app db e = rw e (refl, refl)

delete_and_end-deletes :
    (o : Outside) (app : String) (w : World)
    → o.schedule_delete ≡ none
    → (delete_and_end o app w).0.db.schedules ≡ remove app w.db.schedules
unfolding delete_and_end
delete_and_end-deletes o app w e =
    let (step, gone) = delete_schedule_at o.schedule_delete app w.db e in
    let w' = record w { db = (delete_active_schedule o.schedule_delete app w.db).0 } in
    rw (delete_and_end, step)
      (save_schedules o.history_insert (end_schedule o app w')
        ∙ ap (λ db. db.schedules) (end_schedule_db o app w')
        ∙ gone)

-- If no statement fails, then `RemoveActiveSchedule` of the id that is active leaves the app without
-- an active schedule, whatever the cloud controller and the policy answer, and leaves the schedules of
-- the other apps. With another id, or no active schedule, it answers "active schedule not found" and
-- changes nothing.
pub remove_lem :
    (o : Outside) (app id : String) (w : World)
    → o.schedule_query ≡ none
    → o.schedule_delete ≡ none
    → ((current : ActiveSchedule) × (lookup app w.db.schedules ≡ some current)
        × (str_eq current.schedule_id id ≡ true)
        × ((other : String)
            → lookup other (remove_active_schedule o app id w).0.db.schedules
              ≡ (if str_eq app other then none else lookup other w.db.schedules)))
      ⊎ (((current : ActiveSchedule)
            → lookup app w.db.schedules ≡ some current
            → str_eq current.schedule_id id ≡ false)
          × (remove_active_schedule o app id w ≡ (w, some active_schedule_not_found)))
unfolding remove_active_schedule get_active_schedule
remove_lem o app id w q d = elim (Option-cases (lookup app w.db.schedules)) [
  | inl e ↦ inr (
    λ current f. absurd (none≢some current (sym e ∙ f)),
    rw (remove_active_schedule, q, get_active_schedule, e) refl,
  )
  | inr (current, e) ↦ elim (Bool-cases (str_eq current.schedule_id id)) [
    | inl same ↦ inl (
      current,
      e,
      same,
      λ other.
          rw (remove_active_schedule, q, get_active_schedule, e, same)
            (ap (lookup other) (delete_and_end-deletes o app w d)
              ∙ lookup-remove app other w.db.schedules),
    )
    | inr different ↦ inr (
      λ c f. subst (λ z. str_eq z.schedule_id id ≡ false) (some_inj (sym e ∙ f)) different,
      rw (remove_active_schedule, q, get_active_schedule, e, different) refl,
    )
  ]
]
  where
    none≢some : (c : ActiveSchedule) → none ≡ some c → ⊥
    none≢some c e = ground arith
