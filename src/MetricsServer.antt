-- ===== src/MetricsServer.antt =====
-- metricsserver/collector/collector.go: a cache of the latest metrics of the instances of each app that falls
-- to this node. The loops of startAppRefresh and saveMetrics are steps, one for each thing that the loops
-- receive. The bulks that are handed to the database are a log, the last in front.
pub mod Run
pub mod Lookups
pub mod Collected
mod Examples
use app_autoscaler.Prelude.{
  ℕ, String, Bool, true, false, not, ◌||◌, Option, none, some, List, [], ◌∷◌, ◌++◌, str_eq,
  if◌then◌else◌,
}
use app_autoscaler.Prelude.Int.{ℤ, pos, negsuc, ◌+ℤ◌, eq_ℤ, wrap64}
use app_autoscaler.Prelude.Dict.{Dict, lookup, insert}
use app_autoscaler.Models.{Result, ok, err, AppInstanceMetric, LabelMap}
use app_autoscaler.EngineDb.{OrderType}
use app_autoscaler.TsdCache.{TsdCache, ◌>>=◌, new_tsd_cache, put, query}
use app_autoscaler.InstanceMetrics.{
  instance_metric_tsd, shard, query_labels, in_order, or_database, without_cache,
}

pub record MetricCollector : Type 0 where
  pub persist_metrics : Bool
  pub node_num : ℕ
  pub node_index : ℕ
  pub metric_cache_size_per_app : ℕ
  pub app_ids : List String
  pub metric_cache : Dict (TsdCache AppInstanceMetric)
  pub pending : List AppInstanceMetric  -- the slice of saveMetrics
  pub bulks : List (List AppInstanceMetric)

abbrev pub is_in : String → List String → Bool
is_in s [] = false
is_in s (x ∷ xs) = if str_eq x s then true else is_in s xs

-- for id := range c.metricCache
abbrev pub keep_caches :
    List String → Dict (TsdCache AppInstanceMetric) → Dict (TsdCache AppInstanceMetric)
keep_caches ids [] = []
keep_caches ids ((app, c) ∷ rest) =
    let kept = keep_caches ids rest in if is_in app ids then (app, c) ∷ kept else kept

-- for id := range appIDs; `none` is the panic of a cache without capacity.
abbrev pub add_caches :
    ℕ → List String → Dict (TsdCache AppInstanceMetric) → Option (Dict (TsdCache AppInstanceMetric))
add_caches size [] caches = some caches
add_caches size (app ∷ ids) caches =
    let present = add_caches size ids caches in
    elim (lookup app caches) [
      | some c ↦ present
      | none ↦ new_tsd_cache size >>= λ c. add_caches size ids (insert app c caches)
    ]

-- refreshApps, with what GetAppIds answers
unfoldable pub refresh_apps : Result (List String) → MetricCollector → Option MetricCollector
refresh_apps (err e) mc = some mc
refresh_apps (ok apps) mc = shard mc.node_num mc.node_index apps >>= λ ids.
    add_caches mc.metric_cache_size_per_app ids (keep_caches ids mc.metric_cache) >>= λ caches.
    some (record mc { app_ids = ids; metric_cache = caches })

-- saveMetricToCache: the cache is changed in place.
unfoldable pub save_metric_to_cache : AppInstanceMetric → MetricCollector → Option MetricCollector
save_metric_to_cache m mc = elim (lookup m.app_id mc.metric_cache) [
  | none ↦ some mc
  | some c ↦
      put c m >>= λ c'. some (record mc { metric_cache = insert m.app_id c' mc.metric_cache })
]

-- What the loops receive.
pub data Event : Type 0 where
  refreshed : Result (List String) → Event
  received : AppInstanceMetric → Event
  save_tick : Event

-- A round of one of the loops.
unfoldable pub step : Event → MetricCollector → Option MetricCollector
unfolding refresh_apps save_metric_to_cache
step (refreshed apps) mc = refresh_apps apps mc
step (received m) mc = save_metric_to_cache m mc >>= λ mc'.
    some (if mc'.persist_metrics then record mc' { pending = mc'.pending ++ m ∷ [] } else mc')
step save_tick mc =
    some
      (if mc.persist_metrics then record mc { pending = []; bulks = mc.pending ∷ mc.bulks } else mc)

unfoldable pub run : List Event → MetricCollector → Option MetricCollector
unfolding step
run [] mc = some mc
run (e ∷ es) mc = step e mc >>= λ mc'. run es mc'

-- QueryMetrics; `none` is a panic in the cache. The database is asked up to the same end.
unfoldable pub query_metrics :
    ℤ
    → (ℤ → Result (List AppInstanceMetric))
    → String
    → ℤ
    → String
    → ℤ
    → ℤ
    → OrderType
    → MetricCollector
    → Option (Result (List AppInstanceMetric))
query_metrics now database app index name start end order mc =
    let last = if eq_ℤ end (negsuc 0) then now else end in
    elim (lookup app mc.metric_cache) [
      | none ↦ some (without_cache mc.persist_metrics (database last))
      | some c ↦ query c start (wrap64 (last +ℤ pos 1)) (query_labels index name) >>= λ r.
          some (or_database mc.persist_metrics order (database last) r)
    ]

-- QueryMetricsWithLabels: the second part of an answer says whether it is one.
unfoldable pub query_metrics_with_labels :
    ℤ
    → String
    → ℤ
    → ℤ
    → OrderType
    → LabelMap
    → MetricCollector
    → Option (List AppInstanceMetric × Bool)
query_metrics_with_labels now app start end order labels mc =
    let last = if eq_ℤ end (negsuc 0) then now else end in
    elim (lookup app mc.metric_cache) [
      | none ↦ some ([], false)
      | some c ↦ query c start (wrap64 (last +ℤ pos 1)) labels >>= λ r.
          some (if r.1 || not mc.persist_metrics then (in_order order r.0, true) else ([], false))
    ]
