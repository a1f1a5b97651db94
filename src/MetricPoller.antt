-- ===== src/MetricPoller.antt =====
-- eventgenerator/aggregator/metricPoller.go: the metrics of an app's instances are asked for, over a window
-- that ends now, and made one metric of the app. The answer of the HTTP client, which follows redirections, is
-- given.
pub mod Asks
mod Examples
use app_autoscaler.Prelude.{
  ℕ, suc, ◌+◌, String, Bool, true, false, Option, none, some, List, [], ◌∷◌, ◌==◌, if◌then◌else◌,
}
use app_autoscaler.Prelude.Int.{ℤ, pos, ◌+ℤ◌, ◌-ℤ◌, wrap64}
use app_autoscaler.Strconv.{parse_int, format_int}
use app_autoscaler.Float.{Float64}
use app_autoscaler.Models.{Error, AppInstanceMetric, AppMetric, AppMonitor}
use app_autoscaler.Http.{Query, add_param}

-- What the client answers; `none` is a body that is not a list of metrics.
pub data Reply : Type 0 where
  failed : Error → Reply
  replied : ℕ → Option (List AppInstanceMetric) → Reply

-- The parameters of the request.
unfoldable pub poller_query : ℤ → ℤ → Query
unfolding add_param
poller_query start end =
    add_param "order" "ASC"
      (add_param "end" (format_int end) (add_param "start" (format_int start) []))

-- What the loop of aggregate has found.
pub record Tally : Type 0 where
  pub count : ℕ
  pub sum : ℤ
  pub unit : String

abbrev pub tally : List AppInstanceMetric → Tally → Tally
tally [] t = t
tally (m ∷ ms) t = tally ms (elim (parse_int 64 m.value) [
  | none ↦ record t { unit = m.unit }
  | some v ↦ record { count = suc t.count; sum = wrap64 (t.sum +ℤ v); unit = m.unit }
])

module _ (fl : Float64) where
  -- int64(float64(sum)/float64(count) + 0.5)
  abbrev pub average : ℤ → ℕ → ℤ
  average sum count = fl.to_int (fl.add (fl.div (fl.of_int sum) (fl.of_int (pos count))) fl.half)

  -- aggregate
  unfoldable pub aggregate : ℤ → String → String → List AppInstanceMetric → AppMetric
  aggregate now app metric_type metrics =
      let t = tally metrics (record { count = 0; sum = pos 0; unit = "" }) in
      if t.count == 0
      then (record {
        app_id = app;
        metric_type = metric_type;
        value = "";
        unit = "";
        timestamp = now;
      })
      else record {
        app_id = app;
        metric_type = metric_type;
        value = format_int (average t.sum t.count);
        unit = t.unit;
        timestamp = now;
      }

  -- retrieveMetric: the metric that is sent on the channel. The clock is read again by aggregate.
  unfoldable pub retrieve_metric :
      (String → String → Query → Reply) → ℤ → ℤ → AppMonitor → Option AppMetric
  unfolding poller_query aggregate
  retrieve_metric get now later app =
      elim (get app.app_id app.metric_type (poller_query (wrap64 (now -ℤ app.stat_window)) now)) [
        | failed e ↦ none
        | replied status body ↦ elim (status == 200) [
          | false ↦ none
          | true ↦ elim body [
            | none ↦ none
            | some metrics ↦ some (aggregate later app.app_id app.metric_type metrics)
          ]
        ]
      ]
