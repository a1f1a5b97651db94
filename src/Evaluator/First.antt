-- ===== src/Evaluator/First.antt =====
-- Which alarm a sequence of triggers raises.
use app_autoscaler.Prelude.{
  String, ◌≡◌, refl, ap, sym, ◌∙◌, subst, Bool, true, false, ◌⊎◌, inl, inr, none, some, List, [],
  ◌∷◌, ◌++◌, arith, Bool-cases, List-cases, Holds,
}
use app_autoscaler.Prelude.Int.{ℤ, pos, ◌*ℤ◌, ◌≤ℤ◌, ◌<ℤ◌, wrap64}
use app_autoscaler.Models.{Result, ok, err, Trigger, AppMetric, breach_duration}
use app_autoscaler.ScalingEngine.Limits.{Result-cases}
use app_autoscaler.Evaluator.{
  Environment, back, is_valid_operator, is_breached, recent_metrics, retrieve_app_metrics,
  with_default, evaluate_trigger, raise_alarm, do_evaluate,
}
use app_autoscaler.Evaluator.Recent.{IsAscending, recent_metrics_lem, recent_first}
use app_autoscaler.Evaluator.Breach.{Breaches, is_breached_iff}

-- The query answers in ascending order, as it is asked to.
abbrev pub AnswersAscending : Environment → Type 0
AnswersAscending env =
    (app metric_type : String) (start end : ℤ) (ms : List AppMetric)
    → env.query_app_metrics app metric_type start end ≡ ok ms
    → IsAscending ms

-- When the breach of a trigger would have started.
abbrev pub breach_start : Environment → Trigger → ℤ
breach_start env t = back env.now (breach_duration t)

-- A trigger of a valid operator. Of the metrics of the last two breach durations, one lies before the start of the
-- breach, some lie at it or later, `newest` the latest, and all of these breach the threshold.
pub record IsBreached (env : Environment) (t : Trigger) : Type 0 where
  pub valid : is_valid_operator t.operator ≡ true
  pub metrics : List AppMetric
  pub retrieved :
      env.query_app_metrics t.app_id t.metric_type
        (back env.now (wrap64 (pos 2 *ℤ breach_duration t)))
        env.now
      ≡ ok metrics
  pub enough : (x : AppMetric) × Holds x metrics × (x.timestamp <ℤ breach_start env t)
  pub newest : AppMetric
  pub among : Holds newest metrics
  pub recent : breach_start env t ≤ℤ newest.timestamp
  pub latest : (x : AppMetric) → Holds x metrics → x.timestamp ≤ℤ newest.timestamp
  pub all :
      (m : AppMetric)
      → Holds m metrics
      → breach_start env t ≤ℤ m.timestamp
      → Breaches t.operator t.threshold m

-- Which metrics were retrieved.
abbrev metrics_of : Result (List AppMetric) → List AppMetric
metrics_of (err e) = []
metrics_of (ok ms) = ms

abbrev succeeds : Result (List AppMetric) → Bool
succeeds (err e) = false
succeeds (ok ms) = true

clash : false ≡ true → ⊥
clash e = ground arith

module _ (env : Environment) (t : Trigger) where
  abbrev answer : Result (List AppMetric)
  answer =
      env.query_app_metrics t.app_id t.metric_type
        (back env.now (wrap64 (pos 2 *ℤ breach_duration t))) env.now

  -- A breached trigger is evaluated on metrics.
  recent_metrics_present :
      (ms : List AppMetric)
      → IsAscending ms
      → answer ≡ ok ms
      → recent_metrics (breach_start env t) ms ≡ []
      → IsBreached env t
      → ⊥
  recent_metrics_present ms s r e b =
      let same : b.metrics ≡ ms = ap metrics_of (sym b.retrieved ∙ r) in
      elim (recent_metrics_lem (breach_start env t) ms s) [
        | inl (y, h, lt, exact) ↦
            subst (Holds b.newest) e
              ((exact b.newest).1 (subst (Holds b.newest) same b.among, b.recent))
        | inr (late, none_there) ↦
            let (x, h, lt) = b.enough in let le = late x (subst (Holds x) same h) in omega arith
      ]

  evaluated :
      (ms : List AppMetric) (m : AppMetric) (more : List AppMetric)
      → IsAscending ms
      → answer ≡ ok ms
      → recent_metrics (breach_start env t) ms ≡ m ∷ more
      → is_valid_operator t.operator ≡ true
      → (is_breached t.operator t.threshold (m ∷ more) ≡ true
          → (b : IsBreached env t) × (b.newest ≡ m))
        × (IsBreached env t → is_breached t.operator t.threshold (m ∷ more) ≡ true)
  evaluated ms m more s r e v =
      let (there, back_again) = is_breached_iff t.operator t.threshold (m ∷ more) in
      elim (recent_metrics_lem (breach_start env t) ms s) [
        | inr (late, none_there) ↦ absurd (no_metrics (sym e ∙ none_there))
        | inl (y, h, lt, exact) ↦
            let (among, recent, latest) = recent_first (breach_start env t) ms m more s e in
            (
              λ all. (
                record {
                  valid = v;
                  metrics = ms;
                  retrieved = r;
                  enough = (y, h, lt);
                  newest = m;
                  among = among;
                  recent = recent;
                  latest = latest;
                  all = λ x k le. there all x (subst (Holds x) e ((exact x).1 (k, le)));
                },
                refl,
              ),
              λ b.
                  let same : b.metrics ≡ ms = ap metrics_of (sym b.retrieved ∙ r) in
                  back_again (λ x k.
                    let (held, le) = (exact x).0 (subst (Holds x) (sym e) k) in
                    b.all x (subst (Holds x) (sym same) held) le),
            )
      ]
    where
      no_metrics : m ∷ more ≡ [] → ⊥
      no_metrics e = ground arith

  evaluate_trigger-cases :
      AnswersAscending env
      → ((evaluate_trigger env t ≡ none) × (IsBreached env t → ⊥))
        ⊎ ((b : IsBreached env t) × (evaluate_trigger env t
              ≡ some (record t { metric_unit = b.newest.unit })))
  unfolding evaluate_trigger retrieve_app_metrics
  evaluate_trigger-cases asc = elim (Bool-cases (is_valid_operator t.operator)) [
    | inr v ↦ inl (rw (evaluate_trigger, v) refl, λ b. clash (sym v ∙ b.valid))
    | inl v ↦ elim (Result-cases answer) [
      | inl (e, r) ↦ inl (
        rw (evaluate_trigger, v, retrieve_app_metrics, r) refl,
        λ b. clash (ap succeeds (sym r ∙ b.retrieved)),
      )
      | inr (ms, r) ↦
          let s = asc t.app_id t.metric_type _ env.now ms r in
          elim (List-cases (recent_metrics (breach_start env t) ms)) [
            | inl e ↦ inl (
              rw (evaluate_trigger, v, retrieve_app_metrics, r, e) refl,
              recent_metrics_present ms s r e,
            )
            | inr (m, more, e) ↦
                let (there, back_again) = evaluated ms m more s r e v in
                elim (Bool-cases (is_breached t.operator t.threshold (m ∷ more))) [
                  | inl all ↦
                      let (b, q) = there all in
                      inr (
                        b,
                        rw (evaluate_trigger, v, retrieve_app_metrics, r, e, all)
                            (ap (λ (z : AppMetric). some (record t { metric_unit = z.unit }))
                              (sym q)),
                      )
                  | inr not_all ↦ inl (
                    rw (evaluate_trigger, v, retrieve_app_metrics, r, e, not_all) refl,
                    λ b. clash (sym not_all ∙ back_again b),
                  )
                ]
          ]
    ]
  ]

-- What the first round that is not skipped makes of the triggers.
pub record Raised (env : Environment) (ts : List Trigger) : Type 0 where
  pub before : List Trigger
  pub trigger : Trigger
  pub after : List Trigger
  pub split : ts ≡ before ++ trigger ∷ after
  pub quiet : (u : Trigger) → Holds u before → IsBreached env (with_default env u) → ⊥
  pub breached : IsBreached env (with_default env trigger)
  pub alarm :
      do_evaluate env ts
      ≡ some (
          raise_alarm env
            (record (with_default env trigger) { metric_unit = breached.newest.unit }))

-- Let the query of the metrics answer in ascending order, as it is asked to. Either no trigger is breached, and
-- then `doEvaluate` raises no alarm; or it raises exactly one, for the first that is breached, with the
-- default breach duration put in, and with the unit of a metric that is as late as any that was
-- retrieved. A trigger is breached if its operator is valid, its metrics of the last two breach durations were
-- retrieved, one of them lies before the last breach duration, some lie in it, and all that do are
-- numbers that compare with its threshold as the operator says.
pub do_evaluate_lem :
    (env : Environment) (ts : List Trigger)
    → AnswersAscending env
    → ((do_evaluate env ts ≡ none)
        × ((t : Trigger) → Holds t ts → IsBreached env (with_default env t) → ⊥))
      ⊎ Raised env ts
unfolding do_evaluate
do_evaluate_lem env [] asc = inl (refl, λ t h b. absurd h)
do_evaluate_lem env (t ∷ ts) asc = elim (evaluate_trigger-cases env (with_default env t) asc) [
  | inr (b, e) ↦ inr (record {
    before = [];
    trigger = t;
    after = ts;
    split = refl;
    quiet = λ u h b. absurd h;
    breached = b;
    alarm = rw (do_evaluate, e) refl;
  })
  | inl (e, idle) ↦ elim (do_evaluate_lem env ts asc) [
    | inl (rest, quiet) ↦ inl (
      rw (do_evaluate, e) rest,
      λ u h b. elim h [
        | inl same ↦ idle (subst (λ z. IsBreached env (with_default env z)) same b)
        | inr k ↦ quiet u k b
      ],
    )
    | inr r ↦ inr (record {
      before = t ∷ r.before;
      trigger = r.trigger;
      after = r.after;
      split = ap (λ z. t ∷ z) r.split;
      quiet = λ u h b. elim h [
        | inl same ↦ idle (subst (λ z. IsBreached env (with_default env z)) same b)
        | inr k ↦ r.quiet u k b
      ];
      breached = r.breached;
      alarm = rw (do_evaluate, e) r.alarm;
    })
  ]
]
