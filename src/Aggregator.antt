-- ===== src/Aggregator.antt =====
-- eventgenerator/aggregator/aggregator.go: the monitors that the policies ask for, which the pollers take, and
-- the metrics that the pollers send back, which are saved. The loop of startSavingAppMetric is a step for each
-- thing that it receives; the bulks for the database are a log, the last in front.
pub mod Monitors
pub mod Saving
mod Examples
use app_autoscaler.Prelude.{ℕ, String, Bool, Option, none, some, List, [], ◌∷◌, ◌++◌}
use app_autoscaler.Prelude.Int.{ℤ}
use app_autoscaler.Prelude.Dict.{Dict, insert}
use app_autoscaler.Strconv.{◌⧺◌}
use app_autoscaler.Models.{ScalingRule, AppPolicy, AppMonitor, AppMetric, seconds}
use app_autoscaler.TsdCache.{◌>>=◌}
use app_autoscaler.AppManager.{AppManager, save_metric_to_cache}

-- fmt.Sprintf("%s-%s", appID, rule.MetricType)
abbrev pub monitor_key : String → String → String
monitor_key app metric_type = app ⧺ "-" ⧺ metric_type

abbrev pub monitor_of : ℤ → String → ScalingRule → AppMonitor
monitor_of default_secs app rule = record {
  app_id = app;
  metric_type = rule.metric_type;
  stat_window = seconds default_secs;
}

-- The loop over the rules of an app.
unfoldable pub add_monitors : ℤ → String → List ScalingRule → Dict AppMonitor → Dict AppMonitor
add_monitors default_secs app [] monitors = monitors
add_monitors default_secs app (rule ∷ rules) monitors =
    add_monitors default_secs app rules
      (insert (monitor_key app rule.metric_type) (monitor_of default_secs app rule) monitors)

unfoldable pub monitors_from : ℤ → Dict AppPolicy → Dict AppMonitor → Dict AppMonitor
unfolding add_monitors
monitors_from default_secs [] monitors = monitors
monitors_from default_secs ((app, policy) ∷ policies) monitors =
    monitors_from default_secs policies
      (add_monitors default_secs app policy.scaling_policy.scaling_rules monitors)

-- getAppMonitors
unfoldable pub get_app_monitors : ℤ → Dict AppPolicy → Dict AppMonitor
unfolding monitors_from
get_app_monitors default_secs policies = monitors_from default_secs policies []

-- The monitors that a tick of startAggregating sends to the pollers.
abbrev pub values : {V : Type 0} → Dict V → List V
values [] = []
values ((key, v) ∷ rest) = v ∷ values rest

unfoldable pub aggregate_tick : ℤ → Dict AppPolicy → List AppMonitor
unfolding get_app_monitors
aggregate_tick default_secs policies = values (get_app_monitors default_secs policies)

-- What startSavingAppMetric receives.
pub data Event : Type 0 where
  metric : AppMetric → Event
  tick : Event

pub record Saver : Type 0 where
  pub app_metrics : List AppMetric
  pub bulks : List (List AppMetric)
  pub app_manager : AppManager

unfoldable pub save_step : Event → Saver → Option Saver
save_step (metric m) s = save_metric_to_cache m s.app_manager >>= λ r.
    some (record s { app_metrics = s.app_metrics ++ m ∷ []; app_manager = r.0 })
save_step tick s = some (record s { app_metrics = []; bulks = s.app_metrics ∷ s.bulks })

unfoldable pub save_all : List Event → Saver → Option Saver
unfolding save_step
save_all [] s = some s
save_all (e ∷ es) s = save_step e s >>= λ s'. save_all es s'
