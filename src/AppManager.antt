-- ===== src/AppManager.antt =====
-- eventgenerator/aggregator/appManager.go: the policies of the apps that this node is responsible for, and
-- a cache of the latest metrics of each. What JSON decodes a policy to is given, and the answer of
-- the metrics database to a query that the cache cannot answer.
pub mod Shards
mod Examples
use app_autoscaler.Prelude.{
  ℕ, zero, suc, ◌%◌, String, Bool, true, false, ◌||◌, Option, none, some, List, [], ◌∷◌, ◌==◌,
  reverse, if◌then◌else◌,
}
use app_autoscaler.Prelude.Int.{ℤ, pos, negsuc, ◌+ℤ◌, eq_ℤ, wrap64}
use app_autoscaler.Prelude.Dict.{Dict, lookup, insert}
use app_autoscaler.Hash.{fnv_hash}
use app_autoscaler.Models.{Result, ok, err, PolicyJson, AppPolicy, AppMetric, app_metric_has_labels}
use app_autoscaler.EngineDb.{OrderType, asc, desc}
use app_autoscaler.TsdCache.{Tsd, TsdCache, ◌>>=◌, new_tsd_cache, put, query}

-- AppMetric as a TSD.
instance unfoldable pub app_metric_tsd : Tsd AppMetric
app_metric_tsd = record {
  get_timestamp = λ m. m.timestamp;
  has_labels = λ m labels. app_metric_has_labels m labels;
}

pub record AppManager : Type 0 where
  pub node_num : ℕ
  pub node_index : ℕ
  pub metric_cache_size_per_app : ℕ
  pub metric_cache : Dict (TsdCache AppMetric)
  pub policy_map : Dict AppPolicy

-- Whether the node takes an app; `none` is the panic of a division by 0 nodes.
unfoldable pub takes : ℕ → ℕ → String → Option Bool
takes zero index app = none
takes (suc n) index app = some ((suc n == 1) || ((fnv_hash app % suc n) == index))

-- computePolicies
unfoldable pub compute_policies :
    (PolicyJson → AppPolicy) → ℕ → ℕ → List PolicyJson → Dict AppPolicy → Option (Dict AppPolicy)
unfolding takes
compute_policies get n i [] policies = some policies
compute_policies get n i (p ∷ ps) policies = takes n i p.app_id >>= λ mine.
    compute_policies get n i ps (if mine then insert p.app_id (get p) policies else policies)

abbrev pub keep_apps : Dict AppPolicy → Dict (TsdCache AppMetric) → Dict (TsdCache AppMetric)
keep_apps policies [] = []
keep_apps policies ((app, c) ∷ rest) =
    let kept = keep_apps policies rest in
    elim (lookup app policies) [ none ↦ kept | some p ↦ (app, c) ∷ kept ]

abbrev pub add_apps :
    ℕ → Dict AppPolicy → Dict (TsdCache AppMetric) → Option (Dict (TsdCache AppMetric))
add_apps size [] caches = some caches
add_apps size ((app, p) ∷ policies) caches =
    let present = add_apps size policies caches in
    elim (lookup app caches) [
      | some c ↦ present
      | none ↦ new_tsd_cache size >>= λ c. add_apps size policies (insert app c caches)
    ]

-- refreshMetricCache: `none` is the panic of a cache without capacity.
unfoldable pub refresh_metric_cache : Dict AppPolicy → AppManager → Option AppManager
refresh_metric_cache policies am =
    add_apps am.metric_cache_size_per_app policies (keep_apps policies am.metric_cache)
    >>= λ caches. some (record am { metric_cache = caches })

-- SaveMetricToCache: the cache is changed in place.
unfoldable pub save_metric_to_cache : AppMetric → AppManager → Option (AppManager × Bool)
save_metric_to_cache m am = elim (lookup m.app_id am.metric_cache) [
  | none ↦ some (am, false)
  | some c ↦
      put c m >>= λ c'. some (record am { metric_cache = insert m.app_id c' am.metric_cache }, true)
]

abbrev pub in_order : OrderType → List AppMetric → List AppMetric
in_order asc ms = ms
in_order desc ms = reverse ms

-- What QueryAppMetrics makes of the answer of the cache.
abbrev pub or_database :
    OrderType → Result (List AppMetric) → List AppMetric × Bool → Result (List AppMetric)
or_database order database (found, hit) = elim hit [
  | true ↦ ok (in_order order found)
  | false ↦ database
]

-- QueryAppMetrics; `none` is a panic in the cache.
unfoldable pub query_app_metrics :
    ℤ
    → (ℤ → Result (List AppMetric))
    → String
    → String
    → ℤ
    → ℤ
    → OrderType
    → AppManager
    → Option (Result (List AppMetric))
query_app_metrics now database app metric_type start end order am =
    let last = if eq_ℤ end (negsuc 0) then now else end in
    elim (lookup app am.metric_cache) [
      | none ↦ some (database last)
      | some c ↦ query c start (wrap64 (last +ℤ pos 1)) (("name", metric_type) ∷ []) >>= λ r.
          some (or_database order (database last) r)
    ]
