-- ===== src/EventGenServer/Examples.antt =====
-- A request after a run of the aggregator.
use app_autoscaler.Prelude.{
  ℕ, String, ◌≡◌, refl, ◌⊎◌, inl, inr, Option, none, some, List, [], ◌∷◌, arith,
}
use app_autoscaler.Prelude.Int.{pos, negsuc, ◌+ℤ◌, InInt64, wrap64}
use app_autoscaler.Prelude.Dict.{lookup, insert, insert_same}
use app_autoscaler.Strconv.{parse_int, eq_upper}
use app_autoscaler.Models.{err, bad_conn, AppMetric, app_metric_has_labels}
use app_autoscaler.EngineDb.{asc, desc}
use app_autoscaler.TsdCache.{
  TsdCache, ◌>>=◌, new_tsd_cache, query, put, binary_search, search, collect, store, high, low,
}
use app_autoscaler.TsdCache.Filled.{new-Filled}
use app_autoscaler.TsdCache.Tracked.{AllFilled, Tracks, insert-AllFilled}
use app_autoscaler.Http.{Query, answered, param, write_json, time_param, order_param}
use app_autoscaler.Http.Params.{MeansTime, MeansOrder}
use app_autoscaler.AppManager.{app_metric_tsd, query_app_metrics, save_metric_to_cache}
use app_autoscaler.Aggregator.{Event, metric, tick, Saver, save_step, save_all}
use app_autoscaler.Aggregator.Saving.{metrics_of}
use app_autoscaler.EventGenServer.{respond, aggregated_params, get_aggregated_metric_histories}
use app_autoscaler.EventGenServer.Composed.{
  Database, query_of, Reports, get_aggregated_metric_histories_lem,
}

abbrev average : ℕ → AppMetric
average t = record { app_id = "a"; metric_type = "cpu"; value = "1"; unit = "%"; timestamp = pos t }

abbrev empty_cache : TsdCache AppMetric
empty_cache = (new-Filled 4).0

abbrev saver_with : TsdCache AppMetric → Saver
saver_with c = record {
  app_metrics = [];
  bulks = [];
  app_manager = record {
    node_num = 1;
    node_index = 0;
    metric_cache_size_per_app = 5;
    metric_cache = insert "a" c [];
    policy_map = [];
  };
}

abbrev saver : Saver
saver = saver_with empty_cache

abbrev events : List Event
events = metric (average 20) ∷ tick ∷ metric (average 10) ∷ metric (average 30) ∷ []

abbrev request : Query
request = ("start", "15" ∷ []) ∷ ("end", "30" ∷ []) ∷ ("order", "desc" ∷ []) ∷ []

abbrev database : Database
database app metric_type start end order = err bad_conn

-- As many letters as there are metrics.
abbrev marks : List AppMetric → Option String
marks [] = some ""
marks (m ∷ []) = some "m"
marks (m ∷ l ∷ []) = some "mm"
marks (m ∷ l ∷ k ∷ more) = none

request_runs :
    (elim (new_tsd_cache 5 >>= λ c. save_all events (saver_with c)) [
      | none ↦ none
      | some s ↦ some (
          get_aggregated_metric_histories marks
            (query_of (pos 99) database s.app_manager)
            "a"
            "cpu"
            request)
    ])
    ≡ some (answered 200 "mm")
unfolding save_all save_step save_metric_to_cache lookup insert new_tsd_cache put query
    binary_search search low high collect store app_metric_tsd app_metric_has_labels ◌+ℤ◌ wrap64
    query_app_metrics get_aggregated_metric_histories aggregated_params param time_param order_param
    write_json parse_int eq_upper
request_runs = refl

no_caches : AllFilled {A = AppMetric} 4 []
unfolding lookup
no_caches = record { made = λ app c l. ground arith }

saver_filled : AllFilled {A = AppMetric} 4 (insert "a" empty_cache [])
saver_filled = insert-AllFilled 4 "a" empty_cache [] [] (new-Filled 4).2 no_caches

saver-Tracks : Tracks {A = AppMetric} 4 "a" [] (insert "a" empty_cache [])
saver-Tracks = (empty_cache, insert_same "a" "a" empty_cache [] refl, (new-Filled 4).2)

asked :
    MeansTime (pos 0) (param "start" request) (pos 15)
    × MeansTime (negsuc 0) (param "end" request) (pos 30)
    × MeansOrder asc (param "order" request) desc
    × InInt64 (pos 30 +ℤ pos 1)
unfolding MeansTime MeansOrder param lookup parse_int eq_upper ◌+ℤ◌
asked = (
  inr ("15", refl, refl),
  inr ("30", refl, refl),
  inr ("desc", refl, inl (refl, refl)),
  (omega arith, omega arith),
)

get_aggregated_metric_histories_lem_example :
    (s' : Saver) × (save_all events saver ≡ some s')
    × ((get_aggregated_metric_histories marks
            (query_of (pos 99) database s'.app_manager)
            "a"
            "cpu"
            request
          ≡ respond marks (some (database "a" "cpu" (pos 15) (pos 30) desc)))
        ⊎ ((found : List AppMetric) × (get_aggregated_metric_histories marks
                (query_of (pos 99) database s'.app_manager)
                "a"
                "cpu"
                request
              ≡ write_json marks "Error marshaling aggregated metric histories" found)
            × Reports "a" "cpu" (pos 15) (pos 30) desc (metrics_of events) found))
get_aggregated_metric_histories_lem_example =
    get_aggregated_metric_histories_lem marks (pos 99) database "a" "cpu" (pos 15) (pos 30) desc 4
      events saver request saver_filled saver-Tracks asked.0 asked.1 asked.2 asked.3
