-- ===== src/InstanceMetrics.antt =====
-- The metrics of app instances as points of a cache, and the lines that metricscollector/collector/collector.go
-- and metricsserver/collector/collector.go have in common: the choice of the apps of a node, and QueryMetrics.
use app_autoscaler.Prelude.{
  ℕ, zero, suc, ◌%◌, String, Bool, not, ◌||◌, Option, none, some, List, [], ◌∷◌, ◌==◌, reverse,
  if◌then◌else◌,
}
use app_autoscaler.Prelude.Int.{ℤ, pos, leb_ℤ}
use app_autoscaler.Strconv.{format_int}
use app_autoscaler.Hash.{fnv_hash}
use app_autoscaler.Models.{Result, ok, AppInstanceMetric, instance_metric_has_labels, LabelMap}
use app_autoscaler.EngineDb.{OrderType, asc, desc}
use app_autoscaler.TsdCache.{Tsd}

-- AppInstanceMetric as a TSD.
instance unfoldable pub instance_metric_tsd : Tsd AppInstanceMetric
instance_metric_tsd = record {
  get_timestamp = λ m. m.timestamp;
  has_labels = λ m labels. instance_metric_has_labels m labels;
}

-- The apps that fall to the node.
abbrev pub own_apps : ℕ → ℕ → List String → List String
own_apps n index [] = []
own_apps n index (app ∷ apps) =
    let rest = own_apps n index apps in if (fnv_hash app % suc n) == index then app ∷ rest else rest

-- The loop over the ids; `none` is the panic of a division by 0 nodes.
unfoldable pub shard : ℕ → ℕ → List String → Option (List String)
shard zero index [] = some []
shard zero index (app ∷ apps) = none
shard (suc n) index apps = some (own_apps n index apps)

-- The labels of QueryMetrics.
abbrev pub query_labels : ℤ → String → LabelMap
query_labels index name =
    if leb_ℤ (pos 0) index
    then ("name", name) ∷ ("instance_index", format_int index) ∷ []
    else ("name", name) ∷ []

abbrev pub in_order : OrderType → List AppInstanceMetric → List AppInstanceMetric
in_order asc ms = ms
in_order desc ms = reverse ms

-- What QueryMetrics makes of the answer of a cache.
abbrev pub or_database :
    Bool
    → OrderType
    → Result (List AppInstanceMetric)
    → List AppInstanceMetric × Bool
    → Result (List AppInstanceMetric)
or_database persist order database (found, hit) =
    if hit || not persist then ok (in_order order found) else database

-- What it answers for an app without a cache.
abbrev pub without_cache : Bool → Result (List AppInstanceMetric) → Result (List AppInstanceMetric)
without_cache persist database = if persist then database else ok []
