-- ===== src/MetricDb/Retrieved.antt =====
-- What the queries return of the metrics that were saved.
use app_autoscaler.Prelude.{
  ℕ, String, ◌≡◌, refl, sym, ap, ◌∙◌, subst, inl, inr, ◌↔◌, true, false, List, [], ◌∷◌,
  if◌then◌else◌, arith, Bool-cases, Holds, List-cases,
}
use app_autoscaler.Prelude.Int.{ℤ, pos, ltb_ℤ, eq_ℤ_iff}
use app_autoscaler.Models.{ok, AppMetric, AppInstanceMetric}
use app_autoscaler.EngineDb.{OrderType, asc, desc}
use app_autoscaler.Tables.{Table, no_read_faults, filter_rows, sort_rows, read_rows}
use app_autoscaler.Tables.Sorted.{
  BeforeAll, IsOrderedBy, Holds-filter_rows, Holds-sort_rows, sort_rows-IsOrderedBy,
}
use app_autoscaler.MetricDb.{
  app_metric_in_range, app_metric_before, retrieve_app_metrics, instance_metric_in_range,
  before_by_time, before_by_index, collapse, collapsed, instance_metric_rows,
  retrieve_instance_metrics,
}
use app_autoscaler.MetricDb.Bulks.{save_bulks, Saved, save_bulks-Saved}
use app_autoscaler.MetricDb.Distinct.{
  IsStrict, OfPoint, by_time_total, by_time_trans, by_index_total, by_index_trans, by_time_index,
  collapse-IsStrict, collapse-Holds, collapse_finds,
}

app_metric_total :
    (o : OrderType) (x y : AppMetric)
    → app_metric_before o x y ≡ false
    → app_metric_before o y x ≡ true
app_metric_total asc x y h = ground arith
app_metric_total desc x y h = ground arith

app_metric_trans :
    (o : OrderType) (x y z : AppMetric)
    → app_metric_before o x y ≡ true
    → app_metric_before o y z ≡ true
    → app_metric_before o x z ≡ true
app_metric_trans asc x y z h k = ground arith
app_metric_trans desc x y z h k = ground arith

read_all : {A : Type 0} (rows : List A) → read_rows no_read_faults rows ≡ ok rows
read_all [] = refl
read_all (x ∷ rows) = refl

-- If nothing fails, RetrieveAppMetrics returns rows in the order of time that is asked for, and a row is among them
-- exactly if the table holds it, it is of the app and the type, and its time is from the start to the end,
-- or to now for a negative end.
pub retrieve_app_metrics_lem :
    (now : ℤ) (app metric_type : String) (start end : ℤ) (o : OrderType) (t : Table AppMetric)
    → (found : List AppMetric) × (retrieve_app_metrics no_read_faults now app metric_type start end
          o t
        ≡ ok found)
      × IsOrderedBy (app_metric_before o) found
      × ((m : AppMetric)
          → Holds m found ↔ (
              Holds m t.rows
              × (app_metric_in_range app metric_type start
                    (if ltb_ℤ end (pos 0) then now else end)
                    m
                  ≡ true)))
unfolding retrieve_app_metrics
retrieve_app_metrics_lem now app metric_type start end o t =
    let last = if ltb_ℤ end (pos 0) then now else end in
    let rows = filter_rows (app_metric_in_range app metric_type start last) t.rows in
    (
      sort_rows (app_metric_before o) rows,
      read_all _,
      sort_rows-IsOrderedBy (app_metric_before o) (app_metric_total o) (app_metric_trans o) rows,
      λ m.
          let sorted = Holds-sort_rows (app_metric_before o) m rows in
          let kept = Holds-filter_rows (app_metric_in_range app metric_type start last) m t.rows in
          (λ h. kept.0 (sorted.0 h), λ h. sorted.1 (kept.1 h)),
    )

-- Rows of one instance.
BeforeAll-index :
    (o : OrderType) (i : ℕ) (x : AppInstanceMetric) (xs : List AppInstanceMetric)
    → x.instance_index ≡ i
    → ((m : AppInstanceMetric) → Holds m xs → m.instance_index ≡ i)
    → BeforeAll (before_by_time o) x xs
    → BeforeAll (before_by_index o) x xs
BeforeAll-index o i x [] e all b = tt
BeforeAll-index o i x (y ∷ xs) e all b = (
  by_time_index o x y (e ∙ sym (all y (inl refl))) b.0,
  BeforeAll-index o i x xs e (λ m h. all m (inr h)) b.1,
)

IsOrderedBy-index :
    (o : OrderType) (i : ℕ) (xs : List AppInstanceMetric)
    → ((m : AppInstanceMetric) → Holds m xs → m.instance_index ≡ i)
    → IsOrderedBy (before_by_time o) xs
    → IsOrderedBy (before_by_index o) xs
IsOrderedBy-index o i [] all s = tt
IsOrderedBy-index o i (x ∷ xs) all s = (
  BeforeAll-index o i x xs (all x (inl refl)) (λ m h. all m (inr h)) s.0,
  IsOrderedBy-index o i xs (λ m h. all m (inr h)) s.1,
)

module _ (app : String) (index : ℤ) (name : String) (start last : ℤ) (o : OrderType)
    (stored : List AppInstanceMetric) where
  abbrev wanted : List AppInstanceMetric
  wanted = filter_rows (instance_metric_in_range app index name start last) stored

  instance_metric_rows-Holds :
      (m : AppInstanceMetric)
      → Holds m (instance_metric_rows app index name start last o stored)
        ↔ (Holds m stored × (instance_metric_in_range app index name start last m ≡ true))
  instance_metric_rows-Holds m =
      let sorted =
        Holds-sort_rows (if ltb_ℤ index (pos 0) then before_by_index o else before_by_time o) m
          wanted in
      let kept = Holds-filter_rows (instance_metric_in_range app index name start last) m stored in
      (λ h. kept.0 (sorted.0 h), λ h. sorted.1 (kept.1 h))

  index_of :
      (m : AppInstanceMetric)
      → ltb_ℤ index (pos 0) ≡ false
      → instance_metric_in_range app index name start last m ≡ true
      → pos m.instance_index ≡ index
  index_of m h r = (eq_ℤ_iff (pos m.instance_index) index).0 (ground arith)

  same_index :
      (x y : AppInstanceMetric)
      → pos x.instance_index ≡ index
      → pos y.instance_index ≡ index
      → x.instance_index ≡ y.instance_index
  same_index x y e d =
      let q = (eq_ℤ_iff (pos x.instance_index) (pos y.instance_index)).1 (e ∙ sym d) in ground arith

  instance_metric_rows-IsOrderedBy :
      IsOrderedBy (before_by_index o) (instance_metric_rows app index name start last o stored)
  instance_metric_rows-IsOrderedBy = elim (Bool-cases (ltb_ℤ index (pos 0))) [
    | inl e ↦
        rw e
          (sort_rows-IsOrderedBy (before_by_index o) (by_index_total o) (by_index_trans o) wanted)
    | inr e ↦
        let s =
          sort_rows-IsOrderedBy (before_by_time o) (by_time_total o) (by_time_trans o) wanted in
        rw e (elim (List-cases (sort_rows (before_by_time o) wanted)) [
          | inl q ↦ subst (IsOrderedBy (before_by_index o)) (sym q) tt
          | inr (x, xs, q) ↦
              let at_index : (m : AppInstanceMetric)
                  → Holds m (sort_rows (before_by_time o) wanted)
                  → pos m.instance_index ≡ index =
                λ m h.
                  index_of m e
                    ((Holds-filter_rows (instance_metric_in_range app index name start last) m
                        stored).0
                      ((Holds-sort_rows (before_by_time o) m wanted).0 h)).1 in
              let first = at_index x (subst (Holds x) (sym q) (inl refl)) in
              IsOrderedBy-index o x.instance_index (sort_rows (before_by_time o) wanted)
                (λ m h. same_index m x (at_index m h) first) s
        ])
  ]

-- Let bulks be saved one after the other, and nothing fail. RetrieveInstanceMetrics then returns metrics that
-- were saved or stored before, each of the app, the name and the index that is asked for, if one is, and of a time
-- from the start to the end, or to now for a negative end. They stand in the order of time that is asked for
-- and of the index, with no two of one time and one index; and for every such metric that was saved or
-- stored there is one of its time and its index.
pub retrieve_instance_metrics_lem :
    (now : ℤ) (app : String) (index : ℤ) (name : String) (start end : ℤ) (o : OrderType)
    (bulks : List (List AppInstanceMetric)) (t : Table AppInstanceMetric)
    → (found : List AppInstanceMetric) × (retrieve_instance_metrics no_read_faults now app index
          name start end o
          (save_bulks bulks t)
        ≡ ok found)
      × IsStrict o found
      × ((m : AppInstanceMetric)
          → Holds m found
          → Saved m bulks t
            × (instance_metric_in_range app index name start
                  (if ltb_ℤ end (pos 0) then now else end)
                  m
                ≡ true))
      × ((m : AppInstanceMetric)
          → Saved m bulks t
          → instance_metric_in_range app index name start (if ltb_ℤ end (pos 0) then now else end) m
            ≡ true
          → (m' : AppInstanceMetric) × Holds m' found × OfPoint m m')
unfolding retrieve_instance_metrics
retrieve_instance_metrics_lem now app index name start end o bulks t =
    let last = if ltb_ℤ end (pos 0) then now else end in
    let stored = (save_bulks bulks t).rows in
    let rows = instance_metric_rows app index name start last o stored in
    (
      collapse rows,
      ap collapsed (read_all rows),
      collapse-IsStrict o rows
          (instance_metric_rows-IsOrderedBy app index name start last o stored),
      λ m h.
          let (k, r) =
            (instance_metric_rows-Holds app index name start last o stored m).0
              (collapse-Holds m rows h) in
          ((save_bulks-Saved m bulks t).0 k, r),
      λ m s r. collapse_finds m rows (
          (instance_metric_rows-Holds app index name start last o stored m).1
            ((save_bulks-Saved m bulks t).1 s, r)),
    )
