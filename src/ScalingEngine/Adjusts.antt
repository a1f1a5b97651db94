-- ===== src/ScalingEngine/Adjusts.antt =====
-- Which requests to change the number of instances the start of a schedule sends.
use app_autoscaler.Prelude.{
  String, ◌≡◌, refl, ap, sym, ◌∙◌, false, ◌⊎◌, inl, inr, Option, none, some, ◌∷◌, str_eq, arith,
  Bool-cases, Option-cases, some_inj, subst,
}
use app_autoscaler.Prelude.Int.{ℤ, ◌≤ℤ◌, eq_ℤ}
use app_autoscaler.Models.{Result, ok, err, AppEntity, AppScalingHistory, ActiveSchedule}
use app_autoscaler.EngineDb.{store_active_schedule, get_active_schedule}
use app_autoscaler.ScalingEngine.{World, Outside, settle, limit_instances, scheduled_scaling_reason}
use app_autoscaler.ScalingEngine.Limits.{Result-cases, limit_instances_bounds}
use app_autoscaler.ScalingEngine.Schedules.{
  start_schedule, initial_min, schedule_history, store_and_start, set_active_schedule,
}

settle_calls :
    (o : Outside) (app : String) (lo hi old : ℤ) (w : World) (h : AppScalingHistory)
    → ((settle o app lo hi old w h).world.calls ≡ w.calls)
      ⊎ ((n : ℤ) × ((settle o app lo hi old w h).world.calls ≡ (app, n) ∷ w.calls)
          × (lo ≤ℤ hi → (lo ≤ℤ n) × (n ≤ℤ hi))
          × (eq_ℤ n old ≡ false))
unfolding settle
settle_calls o app lo hi old w h = elim (Bool-cases (eq_ℤ (limit_instances lo hi old).0 old)) [
  | inl e ↦ inl (rw (settle, e) refl)
  | inr e ↦ inr (
    (limit_instances lo hi old).0,
    elim (Option-cases o.set_app_instances) [
      | inl f ↦ rw (settle, e, f) refl
      | inr (x, f) ↦ rw (settle, e, f) refl
    ],
    limit_instances_bounds lo hi old,
    e,
  )
]

-- A request for `n` instances that the schedule asks for.
pub record Adjusts (o : Outside) (s : ActiveSchedule) (n : ℤ) : Type 0 where
  pub entity : AppEntity
  pub found : o.get_app ≡ ok entity
  pub within : initial_min s ≤ℤ s.instance_max → (initial_min s ≤ℤ n) × (n ≤ℤ s.instance_max)
  pub changes : eq_ℤ n entity.instances ≡ false

start_schedule_calls :
    (o : Outside) (app : String) (s : ActiveSchedule) (w : World)
    → ((start_schedule o app s w).world.calls ≡ w.calls)
      ⊎ ((n : ℤ) × ((start_schedule o app s w).world.calls ≡ (app, n) ∷ w.calls) × Adjusts o s n)
unfolding start_schedule
start_schedule_calls o app s w = elim (Result-cases o.get_app) [
  | inl (e, p) ↦ inl (rw (start_schedule, p) refl)
  | inr (entity, p) ↦
      elim (settle_calls o app (initial_min s) s.instance_max entity.instances w
        (record (schedule_history o app (scheduled_scaling_reason s)) {
          old_instances = entity.instances;
        })) [
          | inl same ↦ inl (rw (start_schedule, p) same)
          | inr (n, sent, b, ne) ↦ inr (
            n,
            rw (start_schedule, p) sent,
            record { entity = entity; found = p; within = b; changes = ne },
          )
        ]
]

store_and_start_calls :
    (o : Outside) (app : String) (s : ActiveSchedule) (w : World)
    → ((store_and_start o app s w).0.calls ≡ w.calls)
      ⊎ ((n : ℤ) × ((store_and_start o app s w).0.calls ≡ (app, n) ∷ w.calls) × Adjusts o s n)
unfolding store_and_start
store_and_start_calls o app s w =
    elim (Option-cases (store_active_schedule o.schedule_update app s w.db).1) [
      | inr (e, p) ↦ inl (rw (store_and_start, p) refl)
      | inl p ↦
          rw (store_and_start, p)
            (start_schedule_calls o app s
              (record w { db = (store_active_schedule o.schedule_update app s w.db).0 }))
    ]

abbrev found_of : Result (Option ActiveSchedule) → Option ActiveSchedule
found_of (ok found) = found
found_of (err e) = none

none≢some : (s : ActiveSchedule) → none ≡ some s → ⊥
none≢some s e = ground arith

-- `SetActiveSchedule` sends at most one request. If it sends one, no schedule of the same id was active,
-- the app was found, the number is not the present one, and it is between the larger of the schedule's
-- two minimums and its maximum, if that minimum is at most the maximum.
pub set_calls :
    (o : Outside) (app : String) (s : ActiveSchedule) (w : World)
    → ((set_active_schedule o app s w).0.calls ≡ w.calls)
      ⊎ ((n : ℤ) × ((set_active_schedule o app s w).0.calls ≡ (app, n) ∷ w.calls)
          × Adjusts o s n
          × ((current : ActiveSchedule)
              → get_active_schedule o.schedule_query app w.db ≡ ok (some current)
              → str_eq s.schedule_id current.schedule_id ≡ false))
unfolding set_active_schedule
set_calls o app s w = elim (Result-cases (get_active_schedule o.schedule_query app w.db)) [
  | inl (e, p) ↦ inl (rw (set_active_schedule, p) refl)
  | inr (none, p) ↦ elim (store_and_start_calls o app s w) [
    | inl same ↦ inl (rw (set_active_schedule, p) same)
    | inr (n, sent, a) ↦ inr (
      n,
      rw (set_active_schedule, p) sent,
      a,
      λ current q. absurd (none≢some current (ap found_of (sym p ∙ q))),
    )
  ]
  | inr (some present, p) ↦ elim (Bool-cases (str_eq s.schedule_id present.schedule_id)) [
    | inl same ↦ inl (rw (set_active_schedule, p, same) refl)
    | inr other ↦ elim (store_and_start_calls o app s w) [
      | inl same ↦ inl (rw (set_active_schedule, p, other) same)
      | inr (n, sent, a) ↦ inr (
        n,
        rw (set_active_schedule, p, other) sent,
        a,
        λ current q.
            subst (λ (z : ActiveSchedule). str_eq s.schedule_id z.schedule_id ≡ false)
              (some_inj (ap found_of (sym p ∙ q))) other,
      )
    ]
  ]
]
