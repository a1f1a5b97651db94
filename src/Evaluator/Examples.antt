-- ===== src/Evaluator/Examples.antt =====
-- Concrete triggers and metrics.
use app_autoscaler.Prelude.{
  ℕ, ◌≡◌, refl, ap, subst, String, true, ◌⊎◌, ◌↔◌, none, List, [], ◌∷◌, Holds, arith,
}
use app_autoscaler.Prelude.Int.{pos, ◌≤ℤ◌, ◌<ℤ◌}
use app_autoscaler.Models.{Result, ok, err, Trigger, AppMetric}
use app_autoscaler.Evaluator.{
  Environment, other_status, null_body, crashes, is_breached, recent_metrics, do_evaluate,
  with_default, raise_alarm, send_trigger_alarm,
}
use app_autoscaler.Evaluator.Breach.{Breaches, is_breached_iff}
use app_autoscaler.Evaluator.Recent.{IsAscending, recent_metrics_lem}
use app_autoscaler.Evaluator.First.{AnswersAscending, IsBreached, Raised, do_evaluate_lem}

abbrev metric : ℕ → String → AppMetric
metric t v = record { app_id = "a"; metric_type = "cpu"; value = v; unit = "%"; timestamp = pos t }

abbrev metrics : List AppMetric
metrics = metric 10 "70" ∷ metric 60000000010 "90" ∷ metric 90000000000 "95" ∷ []

abbrev environment : Environment
environment = record {
  default_breach_duration_secs = pos 60;
  now = pos 100000000000;
  query_app_metrics = λ app type start end. ok metrics;
  breaker_passes = λ app. none;
  post = λ t. other_status 500;
}

abbrev trigger : Trigger
trigger = record {
  app_id = "a";
  metric_type = "cpu";
  metric_unit = "";
  breach_duration_seconds = pos 0;
  threshold = pos 80;
  operator = ">";
  cool_down_seconds = pos 30;
  adjustment = "+1";
}

is_breached_iff_example :
    (is_breached ">" (pos 80) metrics ≡ true)
    ↔ ((m : AppMetric) → Holds m metrics → Breaches ">" (pos 80) m)
is_breached_iff_example = is_breached_iff ">" (pos 80) metrics

metrics-IsAscending : IsAscending metrics
metrics-IsAscending = ((omega arith, (omega arith, tt)), ((omega arith, tt), (tt, tt)))

recent_metrics_lem_example :
    ((y : AppMetric) × Holds y metrics
      × (y.timestamp <ℤ pos 50)
      × ((x : AppMetric)
          → Holds x (recent_metrics (pos 50) metrics)
            ↔ (Holds x metrics × (pos 50 ≤ℤ x.timestamp))))
    ⊎ (((x : AppMetric) → Holds x metrics → pos 50 ≤ℤ x.timestamp)
        × (recent_metrics (pos 50) metrics ≡ []))
recent_metrics_lem_example = recent_metrics_lem (pos 50) metrics metrics-IsAscending

abbrev answered : Result (List AppMetric) → List AppMetric
answered (ok xs) = xs
answered (err e) = []

ascending : AnswersAscending environment
ascending app metric_type start end ms e = subst IsAscending (ap answered e) metrics-IsAscending

do_evaluate_lem_example :
    ((do_evaluate environment (trigger ∷ []) ≡ none)
      × ((t : Trigger)
          → Holds t (trigger ∷ [])
          → IsBreached environment (with_default environment t)
          → ⊥))
    ⊎ Raised environment (trigger ∷ [])
do_evaluate_lem_example = do_evaluate_lem environment (trigger ∷ []) ascending

-- A post that is answered with 200 and the body "null".
abbrev null_environment : Environment
null_environment = record environment { post = λ t. null_body }

null_body_runs : (raise_alarm null_environment trigger).sent ≡ crashes
unfolding raise_alarm send_trigger_alarm
null_body_runs = refl
