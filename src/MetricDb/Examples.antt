-- ===== src/MetricDb/Examples.antt =====
-- Two bulks of metrics of an app.
use app_autoscaler.Prelude.{ℕ, String, ◌≡◌, refl, true, some, List, [], ◌∷◌, Holds, if◌then◌else◌}
use app_autoscaler.Prelude.Int.{pos, negsuc, ltb_ℤ}
use app_autoscaler.Models.{bad_conn, ok, AppInstanceMetric}
use app_autoscaler.EngineDb.{asc, desc}
use app_autoscaler.Tables.{Table, no_copy_faults, no_read_faults, copy_rows}
use app_autoscaler.MetricDb.{
  save_metrics_in_bulk, retrieve_instance_metrics, instance_metric_in_range,
}
use app_autoscaler.MetricDb.Distinct.{IsStrict, OfPoint}
use app_autoscaler.MetricDb.Bulks.{save_bulks, Saved}
use app_autoscaler.MetricDb.Retrieved.{retrieve_instance_metrics_lem}

abbrev point : ℕ → ℕ → String → AppInstanceMetric
point i t value = record {
  app_id = "a";
  instance_index = i;
  collected_at = pos t;
  name = "cpu";
  unit = "%";
  value = value;
  timestamp = pos t;
}

abbrev bulks : List (List AppInstanceMetric)
bulks = (point 1 20 "3" ∷ point 0 20 "4" ∷ point 0 10 "5" ∷ []) ∷ (point 0 20 "6" ∷ []) ∷ []

abbrev no_metrics : Table AppInstanceMetric
no_metrics = record { rows = []; open_transactions = 0 }

-- Of two metrics of one point, one is returned.
bulks_run :
    retrieve_instance_metrics no_read_faults
      (pos 99)
      "a"
      (negsuc 0)
      "cpu"
      (pos 0)
      (negsuc 0)
      desc
      (save_bulks bulks no_metrics)
    ≡ ok (point 0 20 "4" ∷ point 1 20 "3" ∷ point 0 10 "5" ∷ [])
unfolding retrieve_instance_metrics copy_rows
bulks_run = refl

-- A reading that breaks off after the first row returns a part of the metrics, and no error.
cut_run :
    retrieve_instance_metrics
      (record no_read_faults { cut = some 1 })
      (pos 99)
      "a"
      (pos 0)
      "cpu"
      (pos 0)
      (negsuc 0)
      asc
      (save_bulks bulks no_metrics)
    ≡ ok (point 0 10 "5" ∷ [])
unfolding retrieve_instance_metrics copy_rows
cut_run = refl

-- A copy that cannot be prepared leaves its transaction open.
unprepared :
    (save_metrics_in_bulk
      (record no_copy_faults { prepare = some bad_conn })
      (point 0 1 "1" ∷ [])
      no_metrics)
    ≡ (record { rows = []; open_transactions = 1 }, some bad_conn)
unfolding copy_rows
unprepared = refl

retrieve_instance_metrics_lem_example :
    (found : List AppInstanceMetric) × (retrieve_instance_metrics no_read_faults
        (pos 99)
        "a"
        (negsuc 0)
        "cpu"
        (pos 0)
        (negsuc 0)
        desc
        (save_bulks bulks no_metrics)
      ≡ ok found)
    × IsStrict desc found
    × ((m : AppInstanceMetric)
        → Holds m found
        → Saved m bulks no_metrics
          × (instance_metric_in_range "a"
                (negsuc 0)
                "cpu"
                (pos 0)
                (if ltb_ℤ (negsuc 0) (pos 0) then pos 99 else negsuc 0)
                m
              ≡ true))
    × ((m : AppInstanceMetric)
        → Saved m bulks no_metrics
        → instance_metric_in_range "a"
            (negsuc 0)
            "cpu"
            (pos 0)
            (if ltb_ℤ (negsuc 0) (pos 0) then pos 99 else negsuc 0)
            m
          ≡ true
        → (m' : AppInstanceMetric) × Holds m' found × OfPoint m m')
retrieve_instance_metrics_lem_example =
    retrieve_instance_metrics_lem (pos 99) "a" (negsuc 0) "cpu" (pos 0) (negsuc 0) desc bulks
      no_metrics
