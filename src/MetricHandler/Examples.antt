-- ===== src/MetricHandler/Examples.antt =====
-- Requests to the first of two nodes.
use app_autoscaler.Prelude.{String, ◌≡◌, refl, Option, some, List, [], ◌∷◌}
use app_autoscaler.Prelude.Dict.{lookup, insert}
use app_autoscaler.Strconv.{bytes, parse_int, eq_upper}
use app_autoscaler.Hash.{fnv_hash}
use app_autoscaler.Models.{ok, AppInstanceMetric}
use app_autoscaler.Http.{
  Query, param, add_param, refused, answered, redirected, time_param, order_param, write_json,
}
use app_autoscaler.MetricHandler.{MetricHandler, MetricQuery, get_metric_histories}

abbrev first_node : MetricHandler
first_node = record { node_index = 0; node_adds = "one" ∷ "two" ∷ [] }

abbrev no_metrics : MetricQuery
no_metrics app index name start end order = ok []

abbrev brackets : List AppInstanceMetric → Option String
brackets ms = some "[]"

abbrev negative : Query
negative = ("instanceindex", "-1" ∷ []) ∷ []

requests :
    (get_metric_histories brackets no_metrics first_node "a" "cpu" [] ≡ answered 200 "[]")
    × (get_metric_histories brackets no_metrics first_node "b" "cpu" []
        ≡ redirected "two" (("referer", "one" ∷ []) ∷ []))
    × (get_metric_histories brackets no_metrics first_node "a" "cpu" negative
        ≡ refused 400 "Bad-Request" "InstanceIndex must be greater than or equal to 0")
unfolding get_metric_histories lookup insert add_param param time_param order_param write_json
    parse_int eq_upper fnv_hash bytes
requests = (refl, refl, refl)
