-- ===== src/EvaluationManager/Examples.antt =====
-- Concrete policies of a tick.
use app_autoscaler.Prelude.{ℕ, ◌≡◌, String, ◌↔◌, none, some, [], ◌∷◌}
use app_autoscaler.Prelude.Int.{pos}
use app_autoscaler.Prelude.Dict.{Dict, lookup}
use app_autoscaler.Models.{AppPolicy, ScalingRule}
use app_autoscaler.EvaluationManager.{
  Manager, trigger_of, get_triggers, tick, get_breaker, found_or,
}
use app_autoscaler.EvaluationManager.Triggers.{Sends, Due, get_triggers_iff}
use app_autoscaler.EvaluationManager.Breakers.{tick_breakers}

abbrev rule : ScalingRule
rule = record {
  metric_type = "cpu";
  breach_duration_seconds = pos 60;
  threshold = pos 80;
  operator = ">";
  cool_down_seconds = pos 30;
  adjustment = "+1";
}

abbrev policies : Dict AppPolicy
policies =
    (
      "a",
      record {
        app_id = "a";
        scaling_policy = record {
          instance_min = pos 1;
          instance_max = pos 5;
          scaling_rules = rule ∷ [];
        };
      },
    )
    ∷ []

abbrev manager : Manager ℕ
manager = record { breakers = ("a", 7) ∷ ("b", 8) ∷ []; cooldown_expired = ("b", pos 5) ∷ [] }

get_triggers_iff_example :
    Sends (get_triggers manager (pos 3) policies) "a#cpu" (trigger_of "a" rule)
    ↔ Due (("b", pos 5) ∷ []) (pos 3) policies "a#cpu" (trigger_of "a" rule)
get_triggers_iff_example = get_triggers_iff manager (pos 3) policies "a#cpu" (trigger_of "a" rule)

abbrev fresh : String → ℕ
fresh app = 0

tick_breakers_example :
    (get_breaker (tick fresh (pos 3) policies manager).0 "a" ≡ (elim (lookup "a" policies) [
      | none ↦ none
      | some p ↦ some (found_or (get_breaker manager "a") 0)
    ]))
    × ((tick fresh (pos 3) policies manager).0.cooldown_expired ≡ ("b", pos 5) ∷ [])
tick_breakers_example = tick_breakers fresh (pos 3) policies manager "a"
