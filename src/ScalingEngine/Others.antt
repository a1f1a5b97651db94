-- ===== src/ScalingEngine/Others.antt =====
-- The schedules of the apps that a request is not about.
use app_autoscaler.Prelude.{
  String, ◌≡◌, refl, ap, sym, ◌∙◌, true, false, ◌⊎◌, inl, inr, none, some, str_eq, Bool-cases,
  Option-cases, arith, eq_refl,
}
use app_autoscaler.Prelude.Dict.{lookup}
use app_autoscaler.Models.{ActiveSchedule}
use app_autoscaler.EngineDb.{store_active_schedule, get_active_schedule}
use app_autoscaler.EngineDb.Stored.{store_schedule_frame}
use app_autoscaler.ScalingEngine.{World, Outside}
use app_autoscaler.ScalingEngine.Limits.{Result-cases}
use app_autoscaler.ScalingEngine.Schedules.{
  start_schedule, store_and_start, set_active_schedule, remove_active_schedule,
}
use app_autoscaler.ScalingEngine.Active.{start_schedule_db, save_schedules, remove_lem}

store_and_start_frame :
    (o : Outside) (app other : String) (s : ActiveSchedule) (w : World)
    → str_eq app other ≡ false
    → lookup other (store_and_start o app s w).0.db.schedules ≡ lookup other w.db.schedules
unfolding store_and_start
store_and_start_frame o app other s w ne =
    let kept = store_schedule_frame o.schedule_update app other s w.db ne in
    let w' = record w { db = (store_active_schedule o.schedule_update app s w.db).0 } in
    elim (Option-cases (store_active_schedule o.schedule_update app s w.db).1) [
      | inr (e, p) ↦ rw (store_and_start, p) kept
      | inl p ↦
          rw (store_and_start, p)
            (ap (lookup other) (save_schedules o.history_insert (start_schedule o app s w'))
              ∙ ap (λ db. lookup other db.schedules) (start_schedule_db o app s w')
              ∙ kept)
    ]

pub set_frame :
    (o : Outside) (app other : String) (s : ActiveSchedule) (w : World)
    → str_eq app other ≡ false
    → lookup other (set_active_schedule o app s w).0.db.schedules ≡ lookup other w.db.schedules
unfolding set_active_schedule
set_frame o app other s w ne = elim (Result-cases (get_active_schedule o.schedule_query app w.db)) [
  | inl (e, p) ↦ rw (set_active_schedule, p) refl
  | inr (none, p) ↦ rw (set_active_schedule, p) (store_and_start_frame o app other s w ne)
  | inr (some present, p) ↦ elim (Bool-cases (str_eq s.schedule_id present.schedule_id)) [
    | inl same ↦ rw (set_active_schedule, p, same) refl
    | inr changed ↦ rw (set_active_schedule, p, changed) (store_and_start_frame o app other s w ne)
  ]
]

pub remove_frame :
    (o : Outside) (app other id : String) (w : World)
    → o.schedule_query ≡ none
    → o.schedule_delete ≡ none
    → str_eq app other ≡ false
    → lookup other (remove_active_schedule o app id w).0.db.schedules ≡ lookup other w.db.schedules
remove_frame o app other id w q d ne = elim (remove_lem o app id w q d) [
  | inl (current, found, same, after) ↦ after other ∙ rw ne refl
  | inr (other_id, unchanged) ↦ ap (λ r. lookup other r.0.db.schedules) unchanged
]

-- If the app has no active schedule, or the one named, it has none afterwards.
pub remove_gone :
    (o : Outside) (app id : String) (w : World)
    → o.schedule_query ≡ none
    → o.schedule_delete ≡ none
    → (lookup app w.db.schedules ≡ none)
      ⊎ ((current : ActiveSchedule) × (lookup app w.db.schedules ≡ some current)
          × (str_eq current.schedule_id id ≡ true))
    → lookup app (remove_active_schedule o app id w).0.db.schedules ≡ none
remove_gone o app id w q d h = elim (remove_lem o app id w q d) [
  | inl (current, found, same, after) ↦ after app ∙ rw (eq_refl app) refl
  | inr (other_id, unchanged) ↦ elim h [
    | inl none_there ↦ ap (λ r. lookup app r.0.db.schedules) unchanged ∙ none_there
    | inr (current, found, same) ↦ absurd (clash (sym (other_id current found) ∙ same))
  ]
]
  where
    clash : false ≡ true → ⊥
    clash e = ground arith
