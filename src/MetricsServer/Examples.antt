-- ===== src/MetricsServer/Examples.antt =====
-- A collector with one app.
use app_autoscaler.Prelude.{ℕ, ◌≡◌, refl, ◌⊎◌, true, none, some, List, [], ◌∷◌, arith}
use app_autoscaler.Prelude.Int.{ℤ, pos, wrap64, ◌+ℤ◌, InInt64}
use app_autoscaler.Prelude.Dict.{lookup, insert, insert_same}
use app_autoscaler.Strconv.{format_int, bytes}
use app_autoscaler.Hash.{fnv_hash}
use app_autoscaler.Models.{Result, ok, err, bad_conn, AppInstanceMetric, instance_metric_has_labels}
use app_autoscaler.EngineDb.{desc}
use app_autoscaler.TsdCache.{
  TsdCache, new_tsd_cache, put, query, binary_search, search, low, high, collect, store,
}
use app_autoscaler.TsdCache.Filled.{new-Filled}
use app_autoscaler.TsdCache.Tracked.{AllFilled, insert-AllFilled}
use app_autoscaler.InstanceMetrics.{own_apps, instance_metric_tsd, shard}
use app_autoscaler.MetricsServer.{
  MetricCollector, Event, refreshed, received, save_tick, step, run, query_metrics, is_in,
}
use app_autoscaler.MetricsServer.Run.{IsSound, Tracked, Follows, metrics_of, run_lem}
use app_autoscaler.MetricsServer.Collected.{FindsAll, query_metrics_complete}

abbrev metric : ℕ → AppInstanceMetric
metric t = record {
  app_id = "a";
  instance_index = 0;
  collected_at = pos t;
  name = "cpu";
  unit = "%";
  value = "7";
  timestamp = pos t;
}

abbrev fresh : MetricCollector
fresh = record {
  persist_metrics = true;
  node_num = 1;
  node_index = 0;
  metric_cache_size_per_app = 5;
  app_ids = [];
  metric_cache = [];
  pending = [];
  bulks = [];
}

abbrev empty_cache : TsdCache AppInstanceMetric
empty_cache = (new-Filled 4).0

abbrev with_app : MetricCollector
with_app = record fresh { metric_cache = insert "a" empty_cache [] }

abbrev events : List Event
events =
    refreshed (ok ("a" ∷ []))
    ∷ received (metric 20)
    ∷ save_tick
    ∷ received (metric 10)
    ∷ received (metric 30)
    ∷ []

no_caches : AllFilled {A = AppInstanceMetric} 4 []
unfolding lookup
no_caches = record { made = λ app c l. ground arith }

with_app-IsSound : IsSound 4 0 with_app
with_app-IsSound = record {
  size = refl;
  nodes = refl;
  filled = insert-AllFilled 4 "a" empty_cache [] [] (new-Filled 4).2 no_caches;
}

with_app-Tracked : Tracked 4 "a" [] with_app
with_app-Tracked = (empty_cache, insert_same "a" "a" empty_cache [] refl, (new-Filled 4).2)

in_shard : (is_in "a" (own_apps 0 0 ("a" ∷ [])) ≡ true) × InInt64 (pos 30 +ℤ pos 1)
unfolding fnv_hash bytes ◌+ℤ◌
in_shard = (refl, (omega arith, omega arith))

abbrev database : ℤ → Result (List AppInstanceMetric)
database last = err bad_conn

-- From the first refresh on: the cache answers, the latest first.
answers_latest :
    (elim (run events fresh) [
      | none ↦ none
      | some mc ↦ query_metrics (pos 99) database "a" (pos 0) "cpu" (pos 15) (pos 30) desc mc
    ])
    ≡ some (ok (metric 30 ∷ metric 20 ∷ []))
unfolding run step shard fnv_hash bytes lookup insert new_tsd_cache put query binary_search search
    low high collect store instance_metric_tsd query_metrics ◌+ℤ◌ wrap64 instance_metric_has_labels
    format_int
answers_latest = refl

run_lem_example :
    (mc' : MetricCollector) × (run events with_app ≡ some mc') × Follows 4 0 events with_app mc'
run_lem_example = run_lem 4 0 events with_app with_app-IsSound

query_metrics_complete_example :
    (mc' : MetricCollector) × (run events with_app ≡ some mc')
    × ((query_metrics (pos 99) database "a" (pos 0) "cpu" (pos 15) (pos 30) desc mc'
          ≡ some (database (pos 30)))
        ⊎ ((found : List AppInstanceMetric) × (query_metrics
                (pos 99)
                database
                "a"
                (pos 0)
                "cpu"
                (pos 15)
                (pos 30)
                desc
                mc'
              ≡ some (ok found))
            × FindsAll "a" (pos 0) "cpu" (pos 15) (pos 30) (metrics_of events) found))
query_metrics_complete_example =
    query_metrics_complete (pos 99) database "a" (pos 0) "cpu" (pos 15) (pos 30) desc 4 0 events
      with_app with_app-IsSound refl with_app-Tracked (in_shard.0, tt) refl in_shard.1
