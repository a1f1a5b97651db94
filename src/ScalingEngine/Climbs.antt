-- ===== src/ScalingEngine/Climbs.antt =====
-- Repeated calls of `Scale` by one trigger, while the cloud controller runs what was requested last.
use Prim.Native.Nat.{min}
use app_autoscaler.Prelude.{
  ℕ, ◌+◌, ◌*◌, ◌^◌, ◌≤◌, ◌<◌, ◌≡◌, refl, sym, ap, ◌∙◌, subst, String, true, false, ◌⊎◌, inl, inr,
  none, some, List, [], ◌∷◌, length, str_eq, eq_refl, if◌then◌else◌, arith, Bool-cases,
  Option-cases, some_inj,
}
use app_autoscaler.Prelude.Int.{
  ℤ, pos, ◌+ℤ◌, +ℤ_parts, eq_of_parts, ◌≤ℤ◌, ◌<ℤ◌, eq_ℤ, eq_ℤ_iff, ltb_ℤ, wrap64, wrap64_id,
}
use app_autoscaler.Prelude.Dict.{lookup}
use app_autoscaler.Strconv.{eq_upper, trim_percent, parse_int}
use app_autoscaler.Float.{Float64}
use app_autoscaler.Models.{ok, ScalingPolicy, Trigger, cool_down}
use app_autoscaler.EngineDb.{no_faults, can_scale_app, get_active_schedule, save_scaling_history}
use app_autoscaler.ScalingEngine.{World, Outside, limit_instances}
use app_autoscaler.ScalingEngine.Scale.{
  compute_new_instances, instance_limits, apply_instances, scale_instances, scale_started,
  scale_app, scale,
}
use app_autoscaler.ScalingEngine.Success.{Smooth, scale_succeeds}
use app_autoscaler.ScalingEngine.Cooldown.{scale_frame}

-- The clocks at a call.
pub record Round : Type 0 where
  pub now : ℤ
  pub db_now : ℤ

-- A time lies before all of the calls, by the clock of the database.
abbrev pub Precedes : ℤ → List Round → Type 0
Precedes t [] = Unit {0}
Precedes t (r ∷ rs) = (t <ℤ r.db_now) × Precedes t rs

module _ (fl : Float64) (default_secs : ℤ) (app : String) (trigger : Trigger)
    (policy : ScalingPolicy) (start : ℤ) where
  -- The number of instances that was requested last for the app, or that it started with.
  abbrev pub last_requested : List (String × ℤ) → ℤ
  last_requested [] = start
  last_requested ((a, n) ∷ calls) =
      let before = last_requested calls in if str_eq a app then n else before

  -- What a call meets: the app runs as many instances as were requested last, and nothing fails.
  abbrev pub meets : Round → World → Outside
  meets r w = record {
    now = r.now;
    db_now = r.db_now;
    get_app = ok (record { instances = last_requested w.calls; state = some "STARTED" });
    set_app_instances = none;
    get_app_policy = ok (some policy);
    cooldown_query = no_faults;
    cooldown_update = no_faults;
    schedule_query = none;
    schedule_update = no_faults;
    schedule_delete = none;
    history_insert = none;
  }

  abbrev pub scale_all : List Round → World → World
  scale_all [] w = w
  scale_all (r ∷ rs) w = scale_all rs (scale fl default_secs (meets r w) app trigger w).0

  -- Every call comes after the cooldowns of the calls before it.
  abbrev pub Spaced : List Round → Type 0
  Spaced [] = Unit {0}
  Spaced (r ∷ rs) = Precedes (wrap64 (r.now +ℤ cool_down trigger default_secs)) rs × Spaced rs

  abbrev pub CooledFor : World → List Round → Type 0
  CooledFor w rs = (e : ℤ) → lookup app w.db.cooldowns ≡ some e → Precedes e rs

  -- A call after which `n` instances are requested last, with its own cooldown or the one before.
  record Climbed (r : Round) (n : ℕ) (w w' : World) : Type 0 where
    runs : last_requested w'.calls ≡ pos n
    schedules : w'.db.schedules ≡ w.db.schedules
    cooldown :
        (lookup app w'.db.cooldowns ≡ some (wrap64 (r.now +ℤ cool_down trigger default_secs)))
        ⊎ (lookup app w'.db.cooldowns ≡ lookup app w.db.cooldowns)

  started : eq_upper "STARTED" "STARTED" ≡ true
  unfolding eq_upper
  started = refl

  module _ (step hi : ℕ) (adds : trim_percent trigger.adjustment ≡ none)
      (parses : parse_int 32 trigger.adjustment ≡ some (pos step))
      (top : policy.instance_max ≡ pos hi) (small : hi + step < 2 ^ 63) where
    sum : (a b : ℕ) → pos a +ℤ pos b ≡ pos (a + b)
    sum a b =
        let laws = +ℤ_parts (pos a) (pos b) in
        eq_of_parts (pos a +ℤ pos b) (pos (a + b)) (omega arith)

    computed :
        (c : ℕ) → c ≤ hi → compute_new_instances fl (pos c) trigger.adjustment ≡ ok (pos (step + c))
    unfolding compute_new_instances
    computed c le =
        rw (compute_new_instances, adds, parses)
          (ap ok (ap wrap64 (sum step c) ∙ wrap64_id (pos (step + c)) (omega arith, omega arith)))

    limited :
        (c : ℕ)
        → c ≤ hi
        → policy.instance_min ≤ℤ pos c
        → (limit_instances policy.instance_min policy.instance_max (pos (step + c))).0
          ≡ pos (min (c + step) hi)
    limited c le lo = rw top (elim (Bool-cases (ltb_ℤ (pos hi) (pos (step + c)))) [
      | inl over ↦
          let below : ltb_ℤ (pos (step + c)) policy.instance_min ≡ false = ground arith in
          let past : hi < step + c = ground arith in rw (below, over) (ap pos (omega arith))
      | inr under ↦
          let below : ltb_ℤ (pos (step + c)) policy.instance_min ≡ false = ground arith in
          let within : step + c ≤ hi = ground arith in rw (below, under) (ap pos (omega arith))
    ])

    cools :
        (r : Round) (w : World)
        → CooledFor w (r ∷ [])
        → (e : ℤ) × (can_scale_app no_faults r.db_now app w.db ≡ ok (true, e))
    unfolding can_scale_app
    cools r w free = elim (Option-cases (lookup app w.db.cooldowns)) [
      | inl p ↦ (pos 0, rw (can_scale_app, p) refl)
      | inr (e, p) ↦
          let before = (free e p).0 in
          let b : ltb_ℤ e r.db_now ≡ true = ground arith in (e, rw (can_scale_app, p, b) refl)
    ]

    limits :
        (r : Round) (w : World)
        → lookup app w.db.schedules ≡ none
        → instance_limits fl default_secs (meets r w) app trigger w.db
          ≡ inr (policy.instance_min, policy.instance_max)
    unfolding instance_limits get_active_schedule
    limits r w p = rw (instance_limits, get_active_schedule, p) refl

    idle :
        (r : Round) (w : World) (c n : ℕ) (e : ℤ)
        → lookup app w.db.schedules ≡ none
        → last_requested w.calls ≡ pos c
        → c ≤ hi
        → can_scale_app no_faults r.db_now app w.db ≡ ok (true, e)
        → (limit_instances policy.instance_min policy.instance_max (pos (step + c))).0 ≡ pos n
        → eq_ℤ (pos n) (pos c) ≡ true
        → ((scale fl default_secs (meets r w) app trigger w).0.calls ≡ w.calls)
          × ((scale fl default_secs (meets r w) app trigger w).0.db.cooldowns ≡ w.db.cooldowns)
    unfolding scale scale_app scale_started scale_instances apply_instances save_scaling_history
    idle r w c n e free p le may lim same =
        let now = last_requested w.calls in
        let q : eq_ℤ (limit_instances policy.instance_min policy.instance_max (pos (step + c))).0
              now
            ≡ true =
          ap (λ k. eq_ℤ k now) lim ∙ rw p same in
        let new : compute_new_instances fl now trigger.adjustment ≡ ok (pos (step + c)) =
          rw p (computed c le) in
        rw
          (
            scale,
            scale_app,
            started,
            scale_started,
            may,
            scale_instances,
            new,
            limits r w free,
            apply_instances,
            q,
          )
          (refl, refl)

    smooth :
        (r : Round) (w : World) (c n : ℕ) (e : ℤ)
        → lookup app w.db.schedules ≡ none
        → last_requested w.calls ≡ pos c
        → c ≤ hi
        → can_scale_app no_faults r.db_now app w.db ≡ ok (true, e)
        → (limit_instances policy.instance_min policy.instance_max (pos (step + c))).0 ≡ pos n
        → eq_ℤ (pos n) (pos c) ≡ false
        → Smooth fl default_secs (meets r w) app trigger w (pos n)
    smooth r w c n e free p le may lim differs = record {
      entity = record { instances = last_requested w.calls; state = some "STARTED" };
      state = "STARTED";
      expired_at = e;
      wanted = pos (step + c);
      lo = policy.instance_min;
      hi = policy.instance_max;
      found = refl;
      has_state = refl;
      started = started;
      cooled = may;
      computed = rw p (computed c le);
      limits = limits r w free;
      limited = lim;
      changes = rw p differs;
      sets = refl;
      stores = refl;
    }

    climbs :
        (r : Round) (w : World) (c : ℕ)
        → lookup app w.db.schedules ≡ none
        → last_requested w.calls ≡ pos c
        → c ≤ hi
        → policy.instance_min ≤ℤ pos c
        → CooledFor w (r ∷ [])
        → Climbed r (min (c + step) hi) w (scale fl default_secs (meets r w) app trigger w).0
    climbs r w c free p le lo cooled =
        let (e, may) = cools r w cooled in
        let kept = (scale_frame fl default_secs (meets r w) app trigger w).0 in
        elim (Bool-cases (eq_ℤ (pos (min (c + step) hi)) (pos c))) [
          | inl same ↦
              let (calls, cooldowns) =
                idle r w c (min (c + step) hi) e free p le may (limited c le lo) same in
              let stays = (eq_ℤ_iff (pos (min (c + step) hi)) (pos c)).0 same in
              record {
                runs = ap last_requested calls ∙ p ∙ sym stays;
                schedules = kept;
                cooldown = inr (ap (lookup app) cooldowns);
              }
          | inr differs ↦
              let s = smooth r w c (min (c + step) hi) e free p le may (limited c le lo) differs in
              let (res, answer, is, adj, until, sent, stored) =
                scale_succeeds fl default_secs (meets r w) app trigger w (pos (min (c + step) hi))
                  s in
              record {
                runs = ap last_requested sent ∙ rw (eq_refl app) refl;
                schedules = kept;
                cooldown = inl (stored ∙ ap some until);
              }
        ]

    -- A trigger whose adjustment is a signed decimal that reads as `step`, at a policy whose maximum is
    -- `hi`, for an app without an active schedule, is sent any number of times. Before the first call
    -- `c` instances were requested last (or run from the start), with the minimum of the policy at
    -- most `c` and `c` at most `hi`; `hi + step` is below 2^63. If no request outside fails, at each
    -- call the app is started and runs as many instances as were requested last for it, and each call
    -- comes after the end of the cooldown stored before the first and of the cooldowns of all earlier
    -- calls, then after k calls the number requested last is the lesser of `c + k * step` and `hi`.
    pub scale_all_climbs :
        (rs : List Round) (w : World) (c : ℕ)
        → lookup app w.db.schedules ≡ none
        → last_requested w.calls ≡ pos c
        → c ≤ hi
        → policy.instance_min ≤ℤ pos c
        → CooledFor w rs
        → Spaced rs
        → last_requested (scale_all rs w).calls ≡ pos (min (c + length rs * step) hi)
    scale_all_climbs [] w c free p le lo cooled spaced = p ∙ ap pos (omega arith)
    scale_all_climbs (r ∷ rs) w c free p le lo cooled spaced =
        let up = climbs r w c free p le lo (λ e h. ((cooled e h).0, record {})) in
        let w' = (scale fl default_secs (meets r w) app trigger w).0 in
        let later : CooledFor w' rs = λ e h. elim up.cooldown [
          | inl q ↦ subst (λ t. Precedes t rs) (some_inj (sym q ∙ h)) spaced.0
          | inr q ↦ (cooled e (sym q ∙ h)).1
        ] in
        scale_all_climbs rs w' (min (c + step) hi) (ap (lookup app) up.schedules ∙ free) up.runs
          (omega arith) (omega arith) later spaced.1
        ∙ ap pos (omega arith)
