-- ===== src/ScalingEngine/Limits.antt =====
-- Which requests to change the number of instances `Scale` sends.
use app_autoscaler.Prelude.{
  String, ◌≡◌, refl, true, false, ◌⊎◌, inl, inr, some, ◌∷◌, arith, Bool-cases, Option-cases,
}
use app_autoscaler.Prelude.Int.{ℤ, ◌≤ℤ◌, eq_ℤ}
use app_autoscaler.Strconv.{eq_upper}
use app_autoscaler.Float.{Float64}
use app_autoscaler.Models.{
  Error, Result, ok, err, AppEntity, AppScalingHistory, AppScalingResult, Trigger,
}
use app_autoscaler.EngineDb.{can_scale_app}
use app_autoscaler.ScalingEngine.{World, Outside, limit_instances}
use app_autoscaler.ScalingEngine.Scale.{
  compute_new_instances, apply_instances, instance_limits, scale_instances, scale_started,
  scale_app, scale, opening_history, opening_result,
}

pub limit_instances_bounds :
    (lo hi n : ℤ)
    → lo ≤ℤ hi
    → (lo ≤ℤ (limit_instances lo hi n).0) × ((limit_instances lo hi n).0 ≤ℤ hi)
limit_instances_bounds lo hi n h = ground arith

pub Result-cases {ℓ} :
    {A : Type ℓ} (r : Result A) → ((e : Error) × (r ≡ err e)) ⊎ ((a : A) × (r ≡ ok a))
Result-cases (ok a) = inr (a, refl)
Result-cases (err e) = inl (e, refl)

pub ⊎-cases {ℓ κ} :
    {A : Type ℓ} {B : Type κ} (s : A ⊎ B) → ((a : A) × (s ≡ inl a)) ⊎ ((b : B) × (s ≡ inr b))
⊎-cases (inl a) = inl (a, refl)
⊎-cases (inr b) = inr (b, refl)

module _ (fl : Float64) (default_secs : ℤ) (o : Outside) (app : String) (trigger : Trigger) where
  -- A request for `n` instances that the limits and the state of the app allow.
  pub record Allowed (w : World) (n : ℤ) : Type 0 where
    pub entity : AppEntity
    pub lo : ℤ
    pub hi : ℤ
    pub expired_at : ℤ
    pub state : String
    pub found : o.get_app ≡ ok entity
    pub has_state : entity.state ≡ some state
    pub started : eq_upper state "STARTED" ≡ true
    pub cooled : can_scale_app o.cooldown_query o.db_now app w.db ≡ ok (true, expired_at)
    pub limits : instance_limits fl default_secs o app trigger w.db ≡ inr (lo, hi)
    pub within : lo ≤ℤ hi → (lo ≤ℤ n) × (n ≤ℤ hi)
    pub changes : eq_ℤ n entity.instances ≡ false

  apply_calls :
      (w : World) (h : AppScalingHistory) (old n : ℤ) (r : AppScalingResult)
      → ((apply_instances fl default_secs o app trigger w h old n r).world.calls ≡ w.calls)
        ⊎ (((apply_instances fl default_secs o app trigger w h old n r).world.calls
              ≡ (app, n) ∷ w.calls)
            × (eq_ℤ n old ≡ false))
  unfolding apply_instances
  apply_calls w h old n r = elim (Bool-cases (eq_ℤ n old)) [
    | inl e ↦ inl (rw (apply_instances, e) refl)
    | inr e ↦ inr (
      elim (Option-cases o.set_app_instances) [
        | inl f ↦ rw (apply_instances, e, f) refl
        | inr (x, f) ↦ rw (apply_instances, e, f) refl
      ],
      e,
    )
  ]

  scale_instances_calls :
      (w : World) (h : AppScalingHistory) (old : ℤ) (r : AppScalingResult)
      → ((scale_instances fl default_secs o app trigger w h old r).world.calls ≡ w.calls)
        ⊎ ((n lo hi : ℤ) × ((scale_instances fl default_secs o app trigger w h old r).world.calls
              ≡ (app, n) ∷ w.calls)
            × (instance_limits fl default_secs o app trigger w.db ≡ inr (lo, hi))
            × (lo ≤ℤ hi → (lo ≤ℤ n) × (n ≤ℤ hi))
            × (eq_ℤ n old ≡ false))
  unfolding scale_instances
  scale_instances_calls w h old r =
      elim (Result-cases (compute_new_instances fl old trigger.adjustment)) [
        | inl (e, p) ↦ inl (rw (scale_instances, p) refl)
        | inr (wanted, p) ↦ elim (⊎-cases (instance_limits fl default_secs o app trigger w.db)) [
          | inl (x, q) ↦ inl (rw (scale_instances, p, q) refl)
          | inr ((lo, hi), q) ↦
              elim (apply_calls w
                (record h {
                  new_instances = (limit_instances lo hi wanted).0;
                  message = (limit_instances lo hi wanted).1;
                })
                old (limit_instances lo hi wanted).0 r) [
                  | inl same ↦ inl (rw (scale_instances, p, q) same)
                  | inr (sent, ne) ↦ inr (
                    (limit_instances lo hi wanted).0,
                    lo,
                    hi,
                    rw (scale_instances, p, q) sent,
                    q,
                    limit_instances_bounds lo hi wanted,
                    ne,
                  )
                ]
        ]
      ]

  scale_calls_of :
      (w : World)
      → ((scale_app fl default_secs o app trigger w).world.calls ≡ w.calls)
        ⊎ ((n : ℤ) × ((scale_app fl default_secs o app trigger w).world.calls ≡ (app, n) ∷ w.calls)
            × Allowed w n)
  unfolding scale_app scale_started
  scale_calls_of w = elim (Result-cases o.get_app) [
    | inl (e, p) ↦ inl (rw (scale_app, p) refl)
    | inr (entity, p) ↦ elim (Option-cases entity.state) [
      | inl s ↦ inl (rw (scale_app, p, s) refl)
      | inr (state, s) ↦ elim (Bool-cases (eq_upper state "STARTED")) [
        | inr stopped ↦ inl (rw (scale_app, p, s, stopped) refl)
        | inl started ↦ elim (Result-cases (can_scale_app o.cooldown_query o.db_now app w.db)) [
          | inl (e, c) ↦ inl (rw (scale_app, p, s, started, scale_started, c) refl)
          | inr ((false, t), c) ↦ inl (rw (scale_app, p, s, started, scale_started, c) refl)
          | inr ((true, t), c) ↦
              elim (scale_instances_calls w
                (record (opening_history fl default_secs o app trigger) {
                  old_instances = entity.instances;
                })
                entity.instances
                (record (opening_result fl default_secs o app trigger) {
                  cooldown_expired_at = t;
                })) [
                  | inl same ↦ inl (rw (scale_app, p, s, started, scale_started, c) same)
                  | inr (n, lo, hi, sent, q, b, ne) ↦ inr (
                    n,
                    rw (scale_app, p, s, started, scale_started, c) sent,
                    record {
                      entity = entity;
                      lo = lo;
                      hi = hi;
                      expired_at = t;
                      state = state;
                      found = p;
                      has_state = s;
                      started = started;
                      cooled = c;
                      limits = q;
                      within = b;
                      changes = ne;
                    },
                  )
                ]
        ]
      ]
    ]
  ]

  -- `Scale` sends at most one request. If it sends one, the app was found and is started, the
  -- cooldown allows it, the limits (of the active schedule, or else of the policy) were found, the
  -- number is not the present one, and it is within the limits if their minimum is at most their
  -- maximum.
  pub scale_calls :
      (w : World)
      → ((scale fl default_secs o app trigger w).0.calls ≡ w.calls)
        ⊎ ((n : ℤ) × ((scale fl default_secs o app trigger w).0.calls ≡ (app, n) ∷ w.calls)
            × Allowed w n)
  unfolding scale
  scale_calls w = scale_calls_of w
