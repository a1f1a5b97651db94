-- ===== src/AppManager/Examples.antt =====
-- Runs of an app manager.
use app_autoscaler.Prelude.{ℕ, ◌≡◌, refl, Option, some, List, [], ◌∷◌}
use app_autoscaler.Prelude.Int.{ℤ, pos, negsuc, ◌+ℤ◌, wrap64}
use app_autoscaler.Prelude.Dict.{lookup, insert}
use app_autoscaler.Models.{Result, ok, err, bad_conn, AppMetric, AppPolicy, app_metric_has_labels}
use app_autoscaler.EngineDb.{OrderType, asc, desc}
use app_autoscaler.TsdCache.{
  ◌>>=◌, new_tsd_cache, query, put, binary_search, search, collect, store, high, low,
}
use app_autoscaler.AppManager.{
  AppManager, app_metric_tsd, query_app_metrics, refresh_metric_cache, save_metric_to_cache,
}

abbrev metric : ℕ → AppMetric
metric t = record { app_id = "a"; metric_type = "cpu"; value = "1"; unit = "%"; timestamp = pos t }

abbrev policy : AppPolicy
policy = record {
  app_id = "a";
  scaling_policy = record { instance_min = pos 1; instance_max = pos 2; scaling_rules = [] };
}

abbrev manager : AppManager
manager = record {
  node_num = 1;
  node_index = 0;
  metric_cache_size_per_app = 5;
  metric_cache = [];
  policy_map = [];
}

abbrev no_database : ℤ → Result (List AppMetric)
no_database last = err bad_conn

-- What the cache of an app with a policy answers after two metrics.
abbrev answer : ℤ → OrderType → Option (Option (Result (List AppMetric)))
answer end order = refresh_metric_cache (("a", policy) ∷ []) manager >>= λ am₀.
    save_metric_to_cache (metric 20) am₀ >>= λ am₁.
    save_metric_to_cache (metric 10) am₁.0 >>= λ am₂.
    some (query_app_metrics (pos 99) no_database "a" "cpu" (pos 15) end order am₂.0)

-- A query for all until now finds the metric after the start. A query up to the largest int64 finds none.
answer_runs :
    (answer (negsuc 0) desc ≡ some (some (ok (metric 20 ∷ []))))
    × (answer (pos 9223372036854775807) asc ≡ some (some (ok [])))
unfolding new_tsd_cache put query binary_search search low high collect store app_metric_tsd
    app_metric_has_labels ◌+ℤ◌ lookup insert query_app_metrics refresh_metric_cache
    save_metric_to_cache wrap64
answer_runs = (refl, refl)
