-- ===== src/EventGenServer.antt =====
-- eventgenerator/server/eventgen_handler.go: the histories of an app's aggregated metrics.
pub mod Composed
mod Examples
use app_autoscaler.Prelude.{String, Option, none, some, List, [], ◌∷◌}
use app_autoscaler.Prelude.Int.{ℤ, pos, negsuc}
use app_autoscaler.Models.{Result, ok, err, AppMetric}
use app_autoscaler.EngineDb.{OrderType, asc}
use app_autoscaler.Http.{
  Query, param, Response, refused, panics, Checked, good, bad, ◌>>=◌, time_param, order_param,
  or_refuse, write_json,
}

-- QueryAppMetricsFunc; `none` is a panic in it.
abbrev pub QueryAppMetrics : Type 0
QueryAppMetrics = String → String → ℤ → ℤ → OrderType → Option (Result (List AppMetric))

-- The start, the end and the order.
unfoldable pub aggregated_params : Query → Checked (ℤ × ℤ × OrderType)
aggregated_params q = do
  start ← time_param "start" (pos 0) (param "start" q)
  end ← time_param "end" (negsuc 0) (param "end" q)
  order ← order_param "" asc (param "order" q)
  good (start, end, order)

-- The end of the handler.
abbrev pub respond : (List AppMetric → Option String) → Option (Result (List AppMetric)) → Response
respond encode none = panics
respond encode (some (err e)) =
    refused 500 "Interal-Server-Error" "Error getting aggregated metric histories"
respond encode (some (ok metrics)) =
    write_json encode "Error marshaling aggregated metric histories" metrics

-- GetAggregatedMetricHistories
unfoldable pub get_aggregated_metric_histories :
    (List AppMetric → Option String) → QueryAppMetrics → String → String → Query → Response
unfolding aggregated_params
get_aggregated_metric_histories encode query_app_metric app metric_type q =
    or_refuse (aggregated_params q)
      (λ p. respond encode (query_app_metric app metric_type p.0 p.1 p.2))
