-- ===== src/EngineDb/Stored.antt =====
-- What the tables hold after each statement of db/sqldb/scalingengine_sqldb.go.
use app_autoscaler.Prelude.{
  String, ◌≡◌, refl, ◌∙◌, false, inl, inr, none, some, [], ◌∷◌, str_eq, arith, eq_refl,
  Option-cases,
}
use app_autoscaler.Prelude.Int.{ℤ, ltb_ℤ}
use app_autoscaler.Prelude.Dict.{Dict, lookup, insert, remove, lookup-insert, lookup-remove}
use app_autoscaler.Models.{ok, ActiveSchedule}
use app_autoscaler.EngineDb.{
  EngineDb, Faults, no_faults, can_scale_app, update_scaling_cooldown_expire_time,
  store_active_schedule, delete_active_schedule, schedule_ids,
}

-- If no statement fails, then after `UpdateScalingCooldownExpireTime` the time that was stored is the
-- one that `CanScaleApp` answers, and the app may scale exactly if the clock has passed it. The other
-- two tables stay.
pub update_cooldown_stores :
    (app : String) (t : ℤ) (db : EngineDb)
    → (db' : EngineDb) × (update_scaling_cooldown_expire_time no_faults app t db ≡ (db', none))
      × ((now : ℤ) → can_scale_app no_faults now app db' ≡ ok (ltb_ℤ t now, t))
      × (db'.schedules ≡ db.schedules)
      × (db'.histories ≡ db.histories)
unfolding update_scaling_cooldown_expire_time can_scale_app
update_cooldown_stores app t db =
    let found : lookup app (insert app t (remove app db.cooldowns)) ≡ some t =
      rw (lookup-insert app app t (remove app db.cooldowns), eq_refl app) refl in
    (_, refl, λ now. rw (can_scale_app, found) refl, refl, refl)

-- The cooldown of another app is not touched, whatever fails.
pub update_cooldown_frame :
    (f : Faults) (app other : String) (t : ℤ) (db : EngineDb)
    → str_eq app other ≡ false
    → lookup other (update_scaling_cooldown_expire_time f app t db).0.cooldowns
      ≡ lookup other db.cooldowns
unfolding update_scaling_cooldown_expire_time
update_cooldown_frame f app other t db ne = elim (Option-cases f.first) [
  | inl e ↦ elim (Option-cases f.second) [
    | inl e' ↦ rw e (
        rw e' (
          lookup-insert app other t (remove app db.cooldowns)
          ∙ rw (ne, lookup-remove app other db.cooldowns, ne) refl))
    | inr (x, e') ↦ rw e (rw e' (lookup-remove app other db.cooldowns ∙ rw ne refl))
  ]
  | inr (x, e) ↦ rw e refl
]

-- If no statement fails, then after the database's `SetActiveSchedule` the app's schedule is the one
-- that was stored, and the other two tables stay.
pub store_schedule_stores :
    (app : String) (s : ActiveSchedule) (db : EngineDb)
    → (db' : EngineDb) × (store_active_schedule no_faults app s db ≡ (db', none))
      × (lookup app db'.schedules ≡ some s)
      × (db'.cooldowns ≡ db.cooldowns)
      × (db'.histories ≡ db.histories)
unfolding store_active_schedule delete_active_schedule
store_schedule_stores app s db =
    (_, refl, rw (lookup-insert app app s (remove app db.schedules), eq_refl app) refl, refl, refl)

-- The schedule of another app is not touched, whatever fails.
pub store_schedule_frame :
    (f : Faults) (app other : String) (s : ActiveSchedule) (db : EngineDb)
    → str_eq app other ≡ false
    → lookup other (store_active_schedule f app s db).0.schedules ≡ lookup other db.schedules
unfolding store_active_schedule delete_active_schedule
store_schedule_frame f app other s db ne = elim (Option-cases f.first) [
  | inl e ↦ elim (Option-cases f.second) [
    | inl e' ↦ rw e (
        rw e' (
          lookup-insert app other s (remove app db.schedules)
          ∙ rw (ne, lookup-remove app other db.schedules, ne) refl))
    | inr (x, e') ↦ rw e (rw e' (lookup-remove app other db.schedules ∙ rw ne refl))
  ]
  | inr (x, e) ↦ rw e refl
]

pub schedule_ids_lem :
    (app : String) (m : Dict ActiveSchedule)
    → lookup app (schedule_ids m)
      ≡ (elim (lookup app m) [ none ↦ none | some s ↦ some s.schedule_id ])
unfolding lookup
schedule_ids_lem app [] = refl
schedule_ids_lem app ((a, s) ∷ m) = ground (arith, schedule_ids_lem app m)
