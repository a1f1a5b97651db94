-- ===== src/ScalingEngine/Cooldown.antt =====
-- What `Scale` does to the table of cooldowns.
use app_autoscaler.Prelude.{
  String, ◌≡◌, refl, ap, ◌∙◌, subst, true, false, inl, inr, Option, none, some, str_eq, Bool-cases,
  Option-cases, eq_refl,
}
use app_autoscaler.Prelude.Int.{ℤ, eq_ℤ}
use app_autoscaler.Prelude.Dict.{lookup, remove, lookup-insert}
use app_autoscaler.Strconv.{eq_upper}
use app_autoscaler.Float.{Float64}
use app_autoscaler.Models.{
  Result, ok, err, AppScalingHistory, AppScalingResult, Trigger, ScalingStatus, succeeded, failed,
  ignored,
}
use app_autoscaler.EngineDb.{
  EngineDb, Faults, no_faults, can_scale_app, save_scaling_history,
  update_scaling_cooldown_expire_time,
}
use app_autoscaler.EngineDb.Stored.{update_cooldown_frame}
use app_autoscaler.ScalingEngine.{World, Outside, Reply, limit_instances}
use app_autoscaler.ScalingEngine.Limits.{Result-cases, ⊎-cases}
use app_autoscaler.ScalingEngine.Scale.{
  compute_new_instances, apply_instances, instance_limits, scale_instances, scale_started,
  scale_app, scale, opening_history, opening_result, next_expiry,
}

abbrev pub CoolsOn : String → ℤ → EngineDb → ScalingStatus → Type 0
CoolsOn app t db succeeded = lookup app db.cooldowns ≡ some t
CoolsOn app t db failed = Unit {0}
CoolsOn app t db ignored = Unit {0}

-- After a success the table has the time that the result tells.
abbrev pub Cools : String → EngineDb → Option (Result AppScalingResult) → Type 0
Cools app db none = Unit {0}
Cools app db (some (err e)) = Unit {0}
Cools app db (some (ok r)) = CoolsOn app r.cooldown_expired_at db r.status

update_cooldown_found :
    (f : Faults) (app : String) (t : ℤ) (db : EngineDb)
    → f ≡ no_faults
    → lookup app (update_scaling_cooldown_expire_time f app t db).0.cooldowns ≡ some t
unfolding update_scaling_cooldown_expire_time
update_cooldown_found f app t db e =
    rw (e, lookup-insert app app t (remove app db.cooldowns), eq_refl app) refl

update_cooldown_schedules :
    (f : Faults) (app : String) (t : ℤ) (db : EngineDb)
    → (update_scaling_cooldown_expire_time f app t db).0.schedules ≡ db.schedules
unfolding update_scaling_cooldown_expire_time
update_cooldown_schedules f app t db = elim (Option-cases f.first) [
  | inl e ↦ elim (Option-cases f.second) [
    | inl e' ↦ rw (update_scaling_cooldown_expire_time, e, e') refl
    | inr (x, e') ↦ rw (update_scaling_cooldown_expire_time, e, e') refl
  ]
  | inr (x, e) ↦ rw (update_scaling_cooldown_expire_time, e) refl
]

-- A reply that leaves the schedules, and the cooldowns of the other apps.
record Cooled (update : Faults) (app : String) (w : World)
    (r : Reply (Option (Result AppScalingResult))) : Type 0 where
  schedules_kept : r.world.db.schedules ≡ w.db.schedules
  others :
      (other : String)
      → str_eq app other ≡ false
      → lookup other r.world.db.cooldowns ≡ lookup other w.db.cooldowns
  cools : update ≡ no_faults → Cools app r.world.db r.outcome

module _ (fl : Float64) (default_secs : ℤ) (o : Outside) (app : String) (trigger : Trigger) where
  apply_cools :
      (w : World) (h : AppScalingHistory) (old n : ℤ) (r : AppScalingResult)
      → Cooled o.cooldown_update app w (apply_instances fl default_secs o app trigger w h old n r)
  unfolding apply_instances
  apply_cools w h old n r = elim (Bool-cases (eq_ℤ n old)) [
    | inl e ↦
        rw (apply_instances, e)
          (record { schedules_kept = refl; others = λ x ne. refl; cools = λ n. tt })
    | inr e ↦ elim (Option-cases o.set_app_instances) [
      | inl f ↦
          rw (apply_instances, e, f)
            (record {
              schedules_kept =
                  update_cooldown_schedules o.cooldown_update app
                    (next_expiry fl default_secs o app trigger) w.db;
              others = λ other ne.
                  update_cooldown_frame o.cooldown_update app other
                    (next_expiry fl default_secs o app trigger) w.db ne;
              cools = λ n.
                  update_cooldown_found o.cooldown_update app
                    (next_expiry fl default_secs o app trigger) w.db n;
            })
      | inr (x, f) ↦
          rw (apply_instances, e, f)
            (record { schedules_kept = refl; others = λ x ne. refl; cools = λ n. tt })
    ]
  ]

  scale_instances_cools :
      (w : World) (h : AppScalingHistory) (old : ℤ) (r : AppScalingResult)
      → Cooled o.cooldown_update app w (scale_instances fl default_secs o app trigger w h old r)
  unfolding scale_instances
  scale_instances_cools w h old r =
      elim (Result-cases (compute_new_instances fl old trigger.adjustment)) [
        | inl (e, p) ↦
            rw (scale_instances, p)
              (record { schedules_kept = refl; others = λ x ne. refl; cools = λ n. tt })
        | inr (wanted, p) ↦ elim (⊎-cases (instance_limits fl default_secs o app trigger w.db)) [
          | inl (x, q) ↦
              rw (scale_instances, p, q)
                (record { schedules_kept = refl; others = λ x ne. refl; cools = λ n. tt })
          | inr ((lo, hi), q) ↦
              rw (scale_instances, p, q)
                (apply_cools w
                  (record h {
                    new_instances = (limit_instances lo hi wanted).0;
                    message = (limit_instances lo hi wanted).1;
                  })
                  old (limit_instances lo hi wanted).0 r)
        ]
      ]

  scale_app_cools :
      (w : World) → Cooled o.cooldown_update app w (scale_app fl default_secs o app trigger w)
  unfolding scale_app scale_started
  scale_app_cools w = elim (Result-cases o.get_app) [
    | inl (e, p) ↦
        rw (scale_app, p) (record { schedules_kept = refl; others = λ x ne. refl; cools = λ n. tt })
    | inr (entity, p) ↦ elim (Option-cases entity.state) [
      | inl s ↦
          rw (scale_app, p, s)
            (record { schedules_kept = refl; others = λ x ne. refl; cools = λ n. tt })
      | inr (state, s) ↦ elim (Bool-cases (eq_upper state "STARTED")) [
        | inr stopped ↦
            rw (scale_app, p, s, stopped)
              (record { schedules_kept = refl; others = λ x ne. refl; cools = λ n. tt })
        | inl started ↦ elim (Result-cases (can_scale_app o.cooldown_query o.db_now app w.db)) [
          | inl (e, c) ↦
              rw (scale_app, p, s, started, scale_started, c)
                (record { schedules_kept = refl; others = λ x ne. refl; cools = λ n. tt })
          | inr ((false, t), c) ↦
              rw (scale_app, p, s, started, scale_started, c)
                (record { schedules_kept = refl; others = λ x ne. refl; cools = λ n. tt })
          | inr ((true, t), c) ↦
              rw (scale_app, p, s, started, scale_started, c)
                (scale_instances_cools w
                  (record (opening_history fl default_secs o app trigger) {
                    old_instances = entity.instances;
                  })
                  entity.instances
                  (record (opening_result fl default_secs o app trigger) {
                    cooldown_expired_at = t;
                  }))
        ]
      ]
    ]
  ]

  save-cooldowns :
      (w : World)
      → ((scale fl default_secs o app trigger w).0.db.cooldowns
          ≡ (scale_app fl default_secs o app trigger w).world.db.cooldowns)
        × ((scale fl default_secs o app trigger w).0.db.schedules
            ≡ (scale_app fl default_secs o app trigger w).world.db.schedules)
  unfolding scale save_scaling_history
  save-cooldowns w = elim (Option-cases o.history_insert) [
    | inl e ↦ rw (scale, e) (refl, refl)
    | inr (x, e) ↦ rw (scale, e) (refl, refl)
  ]

  -- `Scale` leaves the active schedules, and the cooldown of every other app, whatever fails.
  pub scale_frame :
      (w : World)
      → ((scale fl default_secs o app trigger w).0.db.schedules ≡ w.db.schedules)
        × ((other : String)
            → str_eq app other ≡ false
            → lookup other (scale fl default_secs o app trigger w).0.db.cooldowns
              ≡ lookup other w.db.cooldowns)
  scale_frame w =
      let c = scale_app_cools w in
      let (same, same') = save-cooldowns w in
      (same' ∙ c.schedules_kept, λ other ne. ap (lookup other) same ∙ c.others other ne)

  pub scale_stores :
      (w : World) (r : AppScalingResult)
      → o.cooldown_update ≡ no_faults
      → (scale fl default_secs o app trigger w).1 ≡ some (ok r)
      → r.status ≡ succeeded
      → lookup app (scale fl default_secs o app trigger w).0.db.cooldowns
        ≡ some r.cooldown_expired_at
  unfolding scale
  scale_stores w r n e s =
      let c =
        subst (Cools app (scale_app fl default_secs o app trigger w).world.db) e
          ((scale_app_cools w).cools n) in
      ap (lookup app) (save-cooldowns w).0
      ∙ subst
          (CoolsOn app r.cooldown_expired_at (scale_app fl default_secs o app trigger w).world.db) s
          c
