-- ===== src/ScalingEngine/Records.antt =====
-- The history that `Scale` leaves: one row per request, which tells how the request ended.
use app_autoscaler.Prelude.{
  String, ◌≡◌, refl, ap, true, false, inl, inr, Option, none, some, ◌∷◌, Bool-cases, Option-cases,
}
use app_autoscaler.Prelude.Int.{ℤ, pos, ◌-ℤ◌, eq_ℤ, wrap64}
use app_autoscaler.Strconv.{eq_upper}
use app_autoscaler.Float.{Float64}
use app_autoscaler.Models.{
  Result, ok, err, AppScalingHistory, AppScalingResult, Trigger, ScalingStatus, succeeded, failed,
  ignored,
}
use app_autoscaler.EngineDb.{
  EngineDb, Faults, can_scale_app, save_scaling_history, update_scaling_cooldown_expire_time,
}
use app_autoscaler.ScalingEngine.{World, Outside, Reply, limit_instances}
use app_autoscaler.ScalingEngine.Limits.{Result-cases, ⊎-cases}
use app_autoscaler.ScalingEngine.Scale.{
  compute_new_instances, apply_instances, instance_limits, scale_instances, scale_started,
  scale_app, scale, opening_history, opening_result, next_expiry,
}

-- A history and a result of the status and the adjustment that it stands for.
abbrev pub AgreesOn : AppScalingHistory → AppScalingResult → ScalingStatus → Type 0
AgreesOn h r succeeded =
    (h.status ≡ succeeded) × (r.adjustment ≡ wrap64 (h.new_instances -ℤ h.old_instances))
AgreesOn h r failed = ⊥
AgreesOn h r ignored = (h.status ≡ ignored) × (r.adjustment ≡ pos 0)

-- What the row says of the outcome. A panic leaves the status that the row starts with.
abbrev pub Agrees : AppScalingHistory → Option (Result AppScalingResult) → Type 0
Agrees h none = h.status ≡ succeeded
Agrees h (some (err e)) = h.status ≡ failed
Agrees h (some (ok r)) = AgreesOn h r r.status

pub update_cooldown_histories :
    (f : Faults) (app : String) (t : ℤ) (db : EngineDb)
    → (update_scaling_cooldown_expire_time f app t db).0.histories ≡ db.histories
unfolding update_scaling_cooldown_expire_time
update_cooldown_histories f app t db = elim (Option-cases f.first) [
  | inl e ↦ elim (Option-cases f.second) [
    | inl e' ↦ rw (update_scaling_cooldown_expire_time, e, e') refl
    | inr (x, e') ↦ rw (update_scaling_cooldown_expire_time, e, e') refl
  ]
  | inr (x, e) ↦ rw (update_scaling_cooldown_expire_time, e) refl
]

-- A reply that keeps the rows, with a row for this request that agrees with the outcome.
record Recorded (now : ℤ) (app : String) (w : World) (r : Reply (Option (Result AppScalingResult)))
    : Type 0 where
  kept : r.world.db.histories ≡ w.db.histories
  same_app : r.history.app_id ≡ app
  dated : r.history.timestamp ≡ now
  agrees : Agrees r.history r.outcome

record Opened (now : ℤ) (app : String) (h : AppScalingHistory) (old : ℤ) (r : AppScalingResult)
    : Type 0 where
  for_app : h.app_id ≡ app
  at_now : h.timestamp ≡ now
  starts_at : h.old_instances ≡ old
  no_change : r.adjustment ≡ pos 0

module _ (fl : Float64) (default_secs : ℤ) (o : Outside) (app : String) (trigger : Trigger) where
  apply_records :
      (w : World) (h : AppScalingHistory) (old n : ℤ) (r : AppScalingResult)
      → Opened o.now app h old r
      → h.new_instances ≡ n
      → Recorded o.now app w (apply_instances fl default_secs o app trigger w h old n r)
  unfolding apply_instances
  apply_records w h old n r op hn = elim (Bool-cases (eq_ℤ n old)) [
    | inl e ↦
        rw (apply_instances, e)
          (record { kept = refl; same_app = op.for_app; dated = op.at_now; agrees = (refl, refl) })
    | inr e ↦ elim (Option-cases o.set_app_instances) [
      | inl f ↦
          rw (apply_instances, e, f)
            (record {
              kept =
                  update_cooldown_histories o.cooldown_update app
                    (next_expiry fl default_secs o app trigger) w.db;
              same_app = op.for_app;
              dated = op.at_now;
              agrees = (refl, rw (hn, op.starts_at) refl);
            })
      | inr (x, f) ↦
          rw (apply_instances, e, f)
            (record { kept = refl; same_app = op.for_app; dated = op.at_now; agrees = refl })
    ]
  ]

  scale_instances_records :
      (w : World) (h : AppScalingHistory) (old : ℤ) (r : AppScalingResult)
      → Opened o.now app h old r
      → Recorded o.now app w (scale_instances fl default_secs o app trigger w h old r)
  unfolding scale_instances
  scale_instances_records w h old r op =
      elim (Result-cases (compute_new_instances fl old trigger.adjustment)) [
        | inl (e, p) ↦
            rw (scale_instances, p)
              (record { kept = refl; same_app = op.for_app; dated = op.at_now; agrees = refl })
        | inr (wanted, p) ↦ elim (⊎-cases (instance_limits fl default_secs o app trigger w.db)) [
          | inl (x, q) ↦
              rw (scale_instances, p, q)
                (record { kept = refl; same_app = op.for_app; dated = op.at_now; agrees = refl })
          | inr ((lo, hi), q) ↦
              rw (scale_instances, p, q)
                (apply_records w
                  (record h {
                    new_instances = (limit_instances lo hi wanted).0;
                    message = (limit_instances lo hi wanted).1;
                  })
                  old (limit_instances lo hi wanted).0 r
                  (record {
                    for_app = op.for_app;
                    at_now = op.at_now;
                    starts_at = op.starts_at;
                    no_change = op.no_change;
                  })
                  refl)
        ]
      ]

  scale_app_records : (w : World) → Recorded o.now app w (scale_app fl default_secs o app trigger w)
  unfolding scale_app scale_started
  scale_app_records w = elim (Result-cases o.get_app) [
    | inl (e, p) ↦
        rw (scale_app, p) (record { kept = refl; same_app = refl; dated = refl; agrees = refl })
    | inr (entity, p) ↦ elim (Option-cases entity.state) [
      | inl s ↦
          rw (scale_app, p, s)
            (record { kept = refl; same_app = refl; dated = refl; agrees = refl })
      | inr (state, s) ↦ elim (Bool-cases (eq_upper state "STARTED")) [
        | inr stopped ↦
            rw (scale_app, p, s, stopped)
              (record { kept = refl; same_app = refl; dated = refl; agrees = (refl, refl) })
        | inl started ↦ elim (Result-cases (can_scale_app o.cooldown_query o.db_now app w.db)) [
          | inl (e, c) ↦
              rw (scale_app, p, s, started, scale_started, c)
                (record { kept = refl; same_app = refl; dated = refl; agrees = refl })
          | inr ((false, t), c) ↦
              rw (scale_app, p, s, started, scale_started, c)
                (record { kept = refl; same_app = refl; dated = refl; agrees = (refl, refl) })
          | inr ((true, t), c) ↦
              rw (scale_app, p, s, started, scale_started, c)
                (scale_instances_records w
                  (record (opening_history fl default_secs o app trigger) {
                    old_instances = entity.instances;
                  })
                  entity.instances
                  (record (opening_result fl default_secs o app trigger) {
                    cooldown_expired_at = t;
                  })
                  (record { for_app = refl; at_now = refl; starts_at = refl; no_change = refl }))
        ]
      ]
    ]
  ]

  -- If the insert of the history does not fail, then `Scale` adds exactly one row, whatever happens,
  -- with the app and the time of the request. Its status is "failed" if `Scale` returns an error, and
  -- that of the result if it returns one; the adjustment is then the difference of the row's new and
  -- old instances for "succeeded", and 0 for "ignored". A panic leaves a row "succeeded".
  pub scale_records :
      (w : World)
      → o.history_insert ≡ none
      → (h : AppScalingHistory) × ((scale fl default_secs o app trigger w).0.db.histories
          ≡ h ∷ w.db.histories)
        × (h.app_id ≡ app)
        × (h.timestamp ≡ o.now)
        × Agrees h (scale fl default_secs o app trigger w).1
  unfolding scale save_scaling_history
  scale_records w e =
      let r = scale_app_records w in
      (
        (scale_app fl default_secs o app trigger w).history,
        rw (scale, e) (ap (λ hs. (scale_app fl default_secs o app trigger w).history ∷ hs) r.kept),
        r.same_app,
        r.dated,
        r.agrees,
      )
