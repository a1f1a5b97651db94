-- ===== src/MetricHandler.antt =====
-- metricscollector/server/metric_handler.go: the histories of an app's metrics, from the node that the app
-- falls to. The metrics collector and the metrics server both have this handler, each with its own QueryMetrics.
pub mod Redirects
mod Examples
use app_autoscaler.Prelude.{
  ℕ, suc, ◌%◌, String, Bool, true, false, Option, none, some, List, [], ◌∷◌, ◌==◌, length,
  get_elem?, if◌then◌else◌,
}
use app_autoscaler.Prelude.Int.{ℤ, pos, negsuc, ltb_ℤ}
use app_autoscaler.Prelude.Dict.{lookup}
use app_autoscaler.Strconv.{parse_int}
use app_autoscaler.Hash.{fnv_hash}
use app_autoscaler.Models.{Result, ok, err, AppInstanceMetric}
use app_autoscaler.EngineDb.{OrderType, asc}
use app_autoscaler.Http.{
  Query, param, add_param, Response, refused, redirected, panics, Checked, good, bad, ◌>>=◌,
  time_param, order_param, or_refuse, write_json,
}

-- MetricHandler; its query function is an argument of the operations.
pub record MetricHandler : Type 0 where
  pub node_index : ℕ
  pub node_adds : List String

-- A metrics query: the app, the index of an instance, the name, the start, the end and the order.
abbrev pub MetricQuery : Type 0
MetricQuery = String → ℤ → String → ℤ → ℤ → OrderType → Result (List AppInstanceMetric)

-- The redirection to the node of the app, for a request that does not come from another node.
unfoldable pub redirect : MetricHandler → String → Query → Option Response
redirect h app q = elim (lookup "referer" q) [
  | some values ↦ none
  | none ↦ elim h.node_adds [
    | [] ↦ some panics
    | first ∷ more ↦
        let shard = fnv_hash app % length (first ∷ more) in
        elim (shard == h.node_index) [
          | true ↦ none
          | false ↦ elim (get_elem? (first ∷ more) h.node_index) [
            | none ↦ some panics
            | some self ↦ elim (get_elem? (first ∷ more) shard) [
              | none ↦ some panics
              | some host ↦ some (redirected host (add_param "referer" self q))
            ]
          ]
        ]
  ]
]

-- The parameter instanceindex.
unfoldable pub index_param : List String → Checked ℤ
index_param [] = good (negsuc 0)
index_param (s ∷ []) = elim (parse_int 64 s) [
  | none ↦ bad "Error parsing instanceIndex"
  | some i ↦
      if ltb_ℤ i (pos 0) then bad "InstanceIndex must be greater than or equal to 0" else good i
]
index_param (s ∷ t ∷ more) = bad "Incorrect instanceIndex parameter in query string"

-- The index, the start, the end and the order.
unfoldable pub metric_params : Query → Checked (ℤ × ℤ × ℤ × OrderType)
unfolding index_param
metric_params q = do
  index ← index_param (param "instanceindex" q)
  start ← time_param "start" (pos 0) (param "start" q)
  end ← time_param "end" (negsuc 0) (param "end" q)
  order ← order_param "" asc (param "order" q)
  good (index, start, end, order)

-- The response to an answer of the query function.
abbrev pub respond :
    (List AppInstanceMetric → Option String) → Result (List AppInstanceMetric) → Response
respond encode (err e) =
    refused 500 "Interal-Server-Error" "Error getting instance metric histories"
respond encode (ok metrics) = write_json encode "Error marshal metric histories" metrics

-- GetMetricHistories
unfoldable pub get_metric_histories :
    (List AppInstanceMetric → Option String)
    → MetricQuery
    → MetricHandler
    → String
    → String
    → Query
    → Response
unfolding redirect metric_params
get_metric_histories encode query_func h app metric_type q = elim (redirect h app q) [
  | some response ↦ response
  | none ↦
      or_refuse (metric_params q) λ p. respond encode (query_func app p.0 metric_type p.1 p.2 p.3)
]
