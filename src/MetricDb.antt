-- ===== src/MetricDb.antt =====
-- db/sqldb/appmetric_sqldb.go and db/sqldb/instancemetrics_sqldb.go: the tables app_metric and appinstancemetrics.
-- The database may return rows that its order makes equal in any order; here they stay as they are stored.
pub mod Distinct
pub mod Bulks
pub mod Retrieved
mod Examples
use app_autoscaler.Prelude.{
  ℕ, String, Bool, true, false, ◌&&◌, ◌||◌, Option, none, some, List, [], ◌∷◌, ◌==◌, leb, str_eq,
  if◌then◌else◌,
}
use app_autoscaler.Prelude.Int.{ℤ, pos, leb_ℤ, ltb_ℤ, eq_ℤ}
use app_autoscaler.Models.{Error, Result, ok, err, AppMetric, AppInstanceMetric}
use app_autoscaler.EngineDb.{OrderType, asc, desc}
use app_autoscaler.Tables.{
  Reads, Copies, Table, filter_rows, sort_rows, read_rows, insert_row, delete_rows, copy_rows,
}

-- SaveAppMetric
abbrev pub save_app_metric :
    Option Error → AppMetric → Table AppMetric → Table AppMetric × Option Error
save_app_metric e m t = insert_row e m t

-- SaveAppMetricsInBulk
abbrev pub save_app_metrics_in_bulk :
    Copies AppMetric → List AppMetric → Table AppMetric → Table AppMetric × Option Error
save_app_metrics_in_bulk f ms t = copy_rows f ms t

-- The WHERE of RetrieveAppMetrics.
abbrev pub app_metric_in_range : String → String → ℤ → ℤ → AppMetric → Bool
app_metric_in_range app metric_type start end m =
    str_eq m.app_id app
    && str_eq m.metric_type metric_type
    && leb_ℤ start m.timestamp
    && leb_ℤ m.timestamp end

-- Its ORDER BY.
abbrev pub app_metric_before : OrderType → AppMetric → AppMetric → Bool
app_metric_before asc x y = leb_ℤ x.timestamp y.timestamp
app_metric_before desc x y = leb_ℤ y.timestamp x.timestamp

-- RetrieveAppMetrics; `now` is the clock, read for a negative end.
unfoldable pub retrieve_app_metrics :
    Reads → ℤ → String → String → ℤ → ℤ → OrderType → Table AppMetric → Result (List AppMetric)
retrieve_app_metrics f now app metric_type start end order t =
    let last = if ltb_ℤ end (pos 0) then now else end in
    read_rows f (
      sort_rows (app_metric_before order)
        (filter_rows (app_metric_in_range app metric_type start last) t.rows))

-- PruneAppMetrics
abbrev pub prune_app_metrics : Option Error → ℤ → Table AppMetric → Table AppMetric × Option Error
prune_app_metrics e before t = delete_rows e (λ m. leb_ℤ m.timestamp before) t

-- SaveMetric
abbrev pub save_metric :
    Option Error
    → AppInstanceMetric
    → Table AppInstanceMetric
    → Table AppInstanceMetric × Option Error
save_metric e m t = insert_row e m t

-- SaveMetricsInBulk
abbrev pub save_metrics_in_bulk :
    Copies AppInstanceMetric
    → List AppInstanceMetric
    → Table AppInstanceMetric
    → Table AppInstanceMetric × Option Error
save_metrics_in_bulk f ms t = copy_rows f ms t

-- The WHERE of RetrieveInstanceMetrics, with the index if it is not negative.
abbrev pub instance_metric_in_range : String → ℤ → String → ℤ → ℤ → AppInstanceMetric → Bool
instance_metric_in_range app index name start end m =
    str_eq m.app_id app
    && str_eq m.name name
    && leb_ℤ start m.timestamp
    && leb_ℤ m.timestamp end
    && (ltb_ℤ index (pos 0) || eq_ℤ (pos m.instance_index) index)

-- The ORDER BY of the query by index, and the one of the other.
abbrev pub before_by_time : OrderType → AppInstanceMetric → AppInstanceMetric → Bool
before_by_time asc x y = leb_ℤ x.timestamp y.timestamp
before_by_time desc x y = leb_ℤ y.timestamp x.timestamp

abbrev pub before_by_index : OrderType → AppInstanceMetric → AppInstanceMetric → Bool
before_by_index asc x y =
    ltb_ℤ x.timestamp y.timestamp
    || (eq_ℤ x.timestamp y.timestamp && leb x.instance_index y.instance_index)
before_by_index desc x y =
    ltb_ℤ y.timestamp x.timestamp
    || (eq_ℤ x.timestamp y.timestamp && leb x.instance_index y.instance_index)

-- Whether a row is of the time and the instance of the one that was taken last.
abbrev pub same_point : AppInstanceMetric → AppInstanceMetric → Bool
same_point last m = eq_ℤ m.timestamp last.timestamp && (m.instance_index == last.instance_index)

-- The loop over the rows, which leaves out those of the same point as the last.
abbrev pub collapse_from : AppInstanceMetric → List AppInstanceMetric → List AppInstanceMetric
collapse_from last [] = []
collapse_from last (m ∷ ms) = elim (same_point last m) [
  | true ↦ collapse_from last ms
  | false ↦ m ∷ collapse_from m ms
]

abbrev pub collapse : List AppInstanceMetric → List AppInstanceMetric
collapse [] = []
collapse (m ∷ ms) = m ∷ collapse_from m ms

abbrev pub collapsed : Result (List AppInstanceMetric) → Result (List AppInstanceMetric)
collapsed (err e) = err e
collapsed (ok ms) = ok (collapse ms)

-- The rows that the database returns.
abbrev pub instance_metric_rows :
    String → ℤ → String → ℤ → ℤ → OrderType → List AppInstanceMetric → List AppInstanceMetric
instance_metric_rows app index name start last order rows =
    sort_rows (if ltb_ℤ index (pos 0) then before_by_index order else before_by_time order)
      (filter_rows (instance_metric_in_range app index name start last) rows)

-- RetrieveInstanceMetrics
unfoldable pub retrieve_instance_metrics :
    Reads
    → ℤ
    → String
    → ℤ
    → String
    → ℤ
    → ℤ
    → OrderType
    → Table AppInstanceMetric
    → Result (List AppInstanceMetric)
retrieve_instance_metrics f now app index name start end order t =
    let last = if ltb_ℤ end (pos 0) then now else end in
    collapsed (read_rows f (instance_metric_rows app index name start last order t.rows))

-- PruneInstanceMetrics
abbrev pub prune_instance_metrics :
    Option Error → ℤ → Table AppInstanceMetric → Table AppInstanceMetric × Option Error
prune_instance_metrics e before t = delete_rows e (λ m. leb_ℤ m.timestamp before) t
