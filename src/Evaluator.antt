-- ===== src/Evaluator.antt =====
-- eventgenerator/generator/evaluator.go: whether the metrics of an app breach a trigger, and the
-- alarm that is then posted to the scaling engine. The clock, the query of the metrics, the circuit
-- breakers and the answer to a post are given from outside. A trigger is changed in place by the code; its
-- changed form is that of the alarm.
pub mod Breach
pub mod Recent
pub mod First
mod Examples
use app_autoscaler.Prelude.{
  ℕ, String, Bool, true, false, not, ◌&&◌, Option, none, some, List, [], ◌∷◌, ◌++◌, str_eq, ◌==◌,
  if◌then◌else◌,
}
use app_autoscaler.Prelude.Int.{ℤ, pos, ◌+ℤ◌, ◌-ℤ◌, ◌*ℤ◌, ltb_ℤ, leb_ℤ, eq_ℤ, wrap64}
use app_autoscaler.Strconv.{parse_int}
use app_autoscaler.Models.{
  Error, Result, ok, err, Trigger, AppMetric, AppScalingResult, breach_duration,
}

-- The answer to a post. The body `null` of a 200 decodes to a nil pointer.
pub data Answer : Type 0 where
  no_answer : Error → Answer
  wrong_body : Error → Answer
  null_body : Answer
  scaled : AppScalingResult → Answer
  other_status : ℕ → Answer

pub record Environment : Type 0 where
  pub default_breach_duration_secs : ℤ
  pub now : ℤ
  pub query_app_metrics : String → String → ℤ → ℤ → Result (List AppMetric)  -- ascending
  pub breaker_passes : String → Option Bool  -- none: no breaker of the app
  pub post : Trigger → Answer

-- What sendTriggerAlarm comes to.
pub data Sent : Type 0 where
  nothing_set : Sent
  cooled_down : String → ℤ → Sent  -- the arguments of setCoolDownExpired
  crashes : Sent

pub record Alarm : Type 0 where
  pub trigger : Trigger
  pub posted : Bool
  pub sent : Sent

abbrev pub valid_operators : List String
valid_operators = ">" ∷ ">=" ∷ "<" ∷ "<=" ∷ []

abbrev pub member : String → List String → Bool
member s [] = false
member s (x ∷ xs) = if str_eq x s then true else member s xs

-- isValidOperator
unfoldable pub is_valid_operator : String → Bool
is_valid_operator operator = member operator valid_operators

-- One round of the loop over the metrics, for a value that is a number: whether the loop goes on.
unfoldable pub value_breaches : String → ℤ → ℤ → Bool
value_breaches operator threshold value =
    if str_eq operator ">"
    then not (leb_ℤ value threshold)
    else if str_eq operator ">="
    then not (ltb_ℤ value threshold)
    else if str_eq operator "<"
    then not (leb_ℤ threshold value)
    else if str_eq operator "<="
    then not (ltb_ℤ threshold value)
    else true

unfoldable pub metric_breaches : String → ℤ → AppMetric → Bool
unfolding value_breaches
metric_breaches operator threshold m =
    if str_eq m.value ""
    then false
    else elim (parse_int 64 m.value) [ none ↦ false | some v ↦ value_breaches operator threshold v ]

-- The loop over the metrics.
unfoldable pub is_breached : String → ℤ → List AppMetric → Bool
unfolding metric_breaches
is_breached operator threshold [] = true
is_breached operator threshold (m ∷ ms) =
    let rest = is_breached operator threshold ms in
    if metric_breaches operator threshold m then rest else false

-- The loop of retrieveAppMetrics from the last metric down: what it appended, and that no `break` came.
unfoldable pub latest : ℤ → List AppMetric → List AppMetric × Bool
latest from [] = ([], true)
latest from (m ∷ ms) =
    let (found, going) = latest from ms in
    if going && leb_ℤ from m.timestamp then (found ++ m ∷ [], true) else (found, false)

-- Add(0 - d), for d a number of nanoseconds
abbrev pub back : ℤ → ℤ → ℤ
back now d = wrap64 (now +ℤ wrap64 (pos 0 -ℤ d))

-- The metrics since the breach's start, if one before it shows that there are enough.
unfoldable pub recent_metrics : ℤ → List AppMetric → List AppMetric
unfolding latest
recent_metrics from [] = []
recent_metrics from (m ∷ ms) = if ltb_ℤ m.timestamp from then (latest from (m ∷ ms)).0 else []

-- retrieveAppMetrics
unfoldable pub retrieve_app_metrics : Environment → Trigger → Result (List AppMetric)
unfolding recent_metrics
retrieve_app_metrics env t =
    elim (env.query_app_metrics t.app_id t.metric_type
      (back env.now (wrap64 (pos 2 *ℤ breach_duration t))) env.now) [
        | err e ↦ err e
        | ok metrics ↦ ok (recent_metrics (back env.now (breach_duration t)) metrics)
      ]

-- sendTriggerAlarm, as far as the cooldown that it sets.
unfoldable pub send_trigger_alarm : Environment → Trigger → Sent
send_trigger_alarm env t = elim (env.post t) [
  | no_answer e ↦ nothing_set
  | wrong_body e ↦ nothing_set
  | null_body ↦ crashes
  | other_status n ↦ nothing_set
  | scaled r ↦
      if eq_ℤ r.cooldown_expired_at (pos 0)
      then nothing_set
      else cooled_down t.app_id r.cooldown_expired_at
]

-- The alarm of a breached trigger, through the app's breaker if it has one.
unfoldable pub raise_alarm : Environment → Trigger → Alarm
unfolding send_trigger_alarm
raise_alarm env t = elim (env.breaker_passes t.app_id) [
  | some false ↦ record { trigger = t; posted = false; sent = nothing_set }
  | some true ↦ record { trigger = t; posted = true; sent = send_trigger_alarm env t }
  | none ↦ record { trigger = t; posted = true; sent = send_trigger_alarm env t }
]

abbrev pub with_default : Environment → Trigger → Trigger
with_default env t =
    if leb_ℤ t.breach_duration_seconds (pos 0)
    then (record t { breach_duration_seconds = env.default_breach_duration_secs })
    else t

-- One round of the loop of doEvaluate behind the default: the trigger to raise, if the loop ends here.
unfoldable pub evaluate_trigger : Environment → Trigger → Option Trigger
unfolding is_valid_operator retrieve_app_metrics is_breached
evaluate_trigger env t =
    if is_valid_operator t.operator
    then elim (retrieve_app_metrics env t) [
      | err e ↦ none
      | ok [] ↦ none
      | ok (m ∷ ms) ↦
          if is_breached t.operator t.threshold (m ∷ ms)
          then some (record t { metric_unit = m.unit })
          else none
    ]
    else none

-- doEvaluate: at most one alarm.
unfoldable pub do_evaluate : Environment → List Trigger → Option Alarm
unfolding evaluate_trigger raise_alarm
do_evaluate env [] = none
do_evaluate env (t ∷ ts) =
    let rest = do_evaluate env ts in
    elim (evaluate_trigger env (with_default env t)) [
      | some raised ↦ some (raise_alarm env raised)
      | none ↦ rest
    ]
