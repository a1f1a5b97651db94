-- ===== src/Aggregator/Examples.antt =====
-- Two policies, and a run with a tick.
use app_autoscaler.Prelude.{ℕ, String, ◌≡◌, refl, some, List, [], ◌∷◌, Holds, arith}
use app_autoscaler.Prelude.Int.{pos}
use app_autoscaler.Prelude.Dict.{Dict, lookup, insert}
use app_autoscaler.Models.{ScalingRule, AppPolicy, AppMonitor, AppMetric}
use app_autoscaler.TsdCache.{TsdCache}
use app_autoscaler.TsdCache.Filled.{new-Filled}
use app_autoscaler.TsdCache.Tracked.{AllFilled, insert-AllFilled}
use app_autoscaler.AppManager.{app_metric_tsd}
use app_autoscaler.Aggregator.{
  Event, metric, tick, Saver, save_all, aggregate_tick, get_app_monitors, add_monitors,
  monitors_from, monitor_key, monitor_of,
}
use app_autoscaler.Aggregator.Monitors.{Asked, aggregate_tick_lem}
use app_autoscaler.Aggregator.Saving.{Follows, save_all_lem}

abbrev rule : String → ScalingRule
rule metric_type = record {
  metric_type = metric_type;
  breach_duration_seconds = pos 60;
  threshold = pos 9;
  operator = ">";
  cool_down_seconds = pos 60;
  adjustment = "+1";
}

abbrev policy : String → List ScalingRule → AppPolicy
policy app rules = record {
  app_id = app;
  scaling_policy = record { instance_min = pos 1; instance_max = pos 2; scaling_rules = rules };
}

abbrev policies : Dict AppPolicy
policies =
    ("a", policy "a" (rule "cpu" ∷ rule "cpu" ∷ []))
    ∷ ("b", policy "b" (rule "cpu" ∷ rule "mem" ∷ []))
    ∷ []

-- Two rules for one metric of an app have one monitor.
monitors_run :
    aggregate_tick (pos 120) policies
    ≡ monitor_of (pos 120) "a" (rule "cpu")
      ∷ monitor_of (pos 120) "b" (rule "cpu")
      ∷ monitor_of (pos 120) "b" (rule "mem")
      ∷ []
unfolding aggregate_tick get_app_monitors add_monitors monitors_from insert
monitors_run = refl

aggregate_tick_lem_example :
    ((m : AppMonitor) → Holds m (aggregate_tick (pos 120) policies) → Asked (pos 120) policies m)
    × ((app : String) (p : AppPolicy) (r : ScalingRule)
        → Holds (app, p) policies
        → Holds r p.scaling_policy.scaling_rules
        → (m : AppMonitor) × Holds m (aggregate_tick (pos 120) policies)
          × (monitor_key m.app_id m.metric_type ≡ monitor_key app r.metric_type))
aggregate_tick_lem_example = aggregate_tick_lem (pos 120) policies

abbrev average : ℕ → AppMetric
average t = record { app_id = "a"; metric_type = "cpu"; value = "1"; unit = "%"; timestamp = pos t }

abbrev empty_cache : TsdCache AppMetric
empty_cache = (new-Filled 4).0

abbrev saver : Saver
saver = record {
  app_metrics = [];
  bulks = [];
  app_manager = record {
    node_num = 1;
    node_index = 0;
    metric_cache_size_per_app = 5;
    metric_cache = insert "a" empty_cache [];
    policy_map = [];
  };
}

abbrev events : List Event
events = metric (average 20) ∷ tick ∷ metric (average 10) ∷ []

no_caches : AllFilled {A = AppMetric} 4 []
unfolding lookup
no_caches = record { made = λ app c l. ground arith }

saver_filled : AllFilled {A = AppMetric} 4 (insert "a" empty_cache [])
saver_filled = insert-AllFilled 4 "a" empty_cache [] [] (new-Filled 4).2 no_caches

save_all_lem_example : (s' : Saver) × (save_all events saver ≡ some s') × Follows 4 events saver s'
save_all_lem_example = save_all_lem 4 events saver saver_filled
