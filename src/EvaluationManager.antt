-- ===== src/EvaluationManager.antt =====
-- eventgenerator/generator/appEvaluationManager.go: at every tick the triggers of the policies go to the
-- evaluators, but those of an app in its cooldown, and every app with a policy has a circuit breaker. The
-- breakers, of a type `B`, are the circuit package's; a fresh one is given for an app. The locks guard
-- one field each. The triggers of a tick are written to a channel in the order of the map.
pub mod Triggers
pub mod Breakers
mod Examples
use app_autoscaler.Prelude.{
  ℕ, String, Bool, true, false, Option, none, some, List, [], ◌∷◌, ◌++◌, str_eq, if◌then◌else◌, map,
}
use app_autoscaler.Prelude.Int.{ℤ, ltb_ℤ}
use app_autoscaler.Prelude.Dict.{Dict, lookup, insert}
use app_autoscaler.Strconv.{◌⧺◌}
use app_autoscaler.Models.{AppPolicy, ScalingRule, Trigger}

pub record Manager (B : Type 0) : Type 0 where
  pub breakers : Dict B
  pub cooldown_expired : Dict ℤ

-- A trigger of a rule; its unit is filled in later.
abbrev pub trigger_of : String → ScalingRule → Trigger
trigger_of app rule = record {
  app_id = app;
  metric_type = rule.metric_type;
  metric_unit = "";
  breach_duration_seconds = rule.breach_duration_seconds;
  threshold = rule.threshold;
  operator = rule.operator;
  cool_down_seconds = rule.cool_down_seconds;
  adjustment = rule.adjustment;
}

abbrev pub in_cooldown : Dict ℤ → ℤ → String → Bool
in_cooldown cooldowns now app = elim (lookup app cooldowns) [
  | none ↦ false
  | some expired_at ↦ ltb_ℤ now expired_at
]

abbrev pub found_or_empty : Option (List Trigger) → List Trigger
found_or_empty none = []
found_or_empty (some ts) = ts

abbrev pub trigger_key : String → ScalingRule → String
trigger_key app rule = app ⧺ "#" ⧺ rule.metric_type

-- The loop over the rules of an app.
unfoldable pub add_rules :
    Dict ℤ → ℤ → String → List ScalingRule → Dict (List Trigger) → Dict (List Trigger)
add_rules cooldowns now app [] by_type = by_type
add_rules cooldowns now app (rule ∷ rules) by_type =
    let skipped = add_rules cooldowns now app rules by_type in
    let key = trigger_key app rule in
    let added =
      add_rules cooldowns now app rules
        (insert key (found_or_empty (lookup key by_type) ++ trigger_of app rule ∷ []) by_type) in
    if in_cooldown cooldowns now app then skipped else added

-- The loop over the policies.
unfoldable pub add_policies :
    Dict ℤ → ℤ → Dict AppPolicy → Dict (List Trigger) → Dict (List Trigger)
unfolding add_rules
add_policies cooldowns now [] by_type = by_type
add_policies cooldowns now ((app, p) ∷ policies) by_type =
    add_policies cooldowns now policies
      (add_rules cooldowns now app p.scaling_policy.scaling_rules by_type)

module _ {B : Type 0} where
  -- getTriggers
  unfoldable pub get_triggers : Manager B → ℤ → Dict AppPolicy → Dict (List Trigger)
  unfolding add_policies
  get_triggers m now policies = add_policies m.cooldown_expired now policies []

  abbrev pub found_or : Option B → B → B
  found_or none b = b
  found_or (some c) b = c

  -- The loop that makes newBreakers.
  unfoldable pub next_breakers : (String → B) → Dict B → Dict AppPolicy → Dict B → Dict B
  next_breakers fresh old [] new = new
  next_breakers fresh old ((app, p) ∷ policies) new =
      next_breakers fresh old policies (insert app (found_or (lookup app old) (fresh app)) new)

  -- A tick of doEvaluate: the breakers are replaced, and the triggers are sent.
  unfoldable pub tick :
      (String → B) → ℤ → Dict AppPolicy → Manager B → Manager B × Dict (List Trigger)
  unfolding next_breakers get_triggers
  tick fresh now policies m =
      let m₁ = record m { breakers = next_breakers fresh m.breakers policies [] } in
      (m₁, get_triggers m₁ now policies)

  -- GetBreaker
  unfoldable pub get_breaker : Manager B → String → Option B
  get_breaker m app = lookup app m.breakers

  -- SetCoolDownExpired
  unfoldable pub set_cool_down_expired : Manager B → String → ℤ → Manager B
  set_cool_down_expired m app expired_at = record m {
    cooldown_expired = insert app expired_at m.cooldown_expired;
  }
