-- ===== src/MetricsServer/Collected.antt =====
-- What QueryMetrics answers after any run of the collector's loops.
use app_autoscaler.Prelude.{
  ℕ, String, ◌≡◌, refl, sym, ap, ◌∙◌, subst, ◌⊎◌, inl, inr, true, false, some, List, [], ◌∷◌,
  reverse, str_eq, eq_refl, eq_iff, arith, Bool-cases, Holds, Holds-append_one,
}
use mathlib.Core.List.{reverse-cons}
use app_autoscaler.Prelude.Int.{
  ℤ, pos, negsuc, ◌+ℤ◌, +ℤ_parts, ◌≤ℤ◌, ◌<ℤ◌, eq_ℤ, leb_ℤ, wrap64_id, InInt64,
}
use app_autoscaler.Prelude.Dict.{lookup}
use app_autoscaler.Strconv.{format_int}
use app_autoscaler.Models.{Result, ok, AppInstanceMetric, instance_metric_has_labels}
use app_autoscaler.EngineDb.{OrderType, asc, desc}
use app_autoscaler.TsdCache.{TsdCache, query}
use app_autoscaler.TsdCache.Filled.{Filled}
use app_autoscaler.TsdCache.Sound.{query-Answers}
use app_autoscaler.InstanceMetrics.{instance_metric_tsd, query_labels, in_order, or_database}
use app_autoscaler.MetricsServer.{MetricCollector, Event, run, query_metrics}
use app_autoscaler.MetricsServer.Run.{IsSound, metrics_of, of_app, Stays, Tracked, run_lem}

-- Whether a metric has the name and, for an index that is not negative, the index that are asked for.
pub Matches : ℤ → String → AppInstanceMetric → Type 0
Matches index name m =
    (m.name ≡ name) × ((leb_ℤ (pos 0) index ≡ false) ⊎ (index ≡ pos m.instance_index))

name_label :
    (name : String) (m : AppInstanceMetric)
    → m.name ≡ name
    → instance_metric_has_labels m (("name", name) ∷ []) ≡ true
unfolding instance_metric_has_labels
name_label name m e = let q = (eq_iff name m.name).1 (sym e) in rw q refl

both_labels :
    (name : String) (m : AppInstanceMetric)
    → m.name ≡ name
    → instance_metric_has_labels m
        (("name", name) ∷ ("instance_index", format_int (pos m.instance_index)) ∷ [])
      ≡ true
unfolding instance_metric_has_labels
both_labels name m e =
    let q = (eq_iff name m.name).1 (sym e) in
    rw (q, eq_refl (format_int (pos m.instance_index))) refl

query_labels_pos :
    (i : ℕ) (name : String)
    → query_labels (pos i) name ≡ ("name", name) ∷ ("instance_index", format_int (pos i)) ∷ []
query_labels_pos i name = let h : leb_ℤ (pos 0) (pos i) ≡ true = ground arith in rw h refl

Matches-labels :
    (index : ℤ) (name : String) (m : AppInstanceMetric)
    → Matches index name m
    → instance_metric_has_labels m (query_labels index name) ≡ true
unfolding Matches
Matches-labels index name m (e, inl h) = rw h (name_label name m e)
Matches-labels index name m (e, inr h) =
    subst (λ z. instance_metric_has_labels m (query_labels z name) ≡ true) (sym h)
      (rw query_labels_pos (both_labels name m e))

Holds-in_order :
    (order : OrderType) (m : AppInstanceMetric) (ms : List AppInstanceMetric)
    → Holds m ms
    → Holds m (in_order order ms)
Holds-in_order asc m ms h = h
Holds-in_order desc m [] h = elim h [ ]
Holds-in_order desc m (x ∷ ms) (inl e) =
    rw reverse-cons ((Holds-append_one m x (reverse ms)).1 (inr e))
Holds-in_order desc m (x ∷ ms) (inr h) =
    rw reverse-cons ((Holds-append_one m x (reverse ms)).1 (inl (Holds-in_order desc m ms h)))

Holds-of_app :
    (app : String) (d : AppInstanceMetric) (ms : List AppInstanceMetric)
    → d.app_id ≡ app
    → Holds d ms
    → Holds d (of_app app ms)
Holds-of_app app d [] e h = elim h [ ]
Holds-of_app app d (m ∷ ms) e (inl s) =
    let q : str_eq m.app_id app ≡ true = (eq_iff m.app_id app).1 (ap (λ z. z.app_id) (sym s) ∙ e) in
    rw q (inl s)
Holds-of_app app d (m ∷ ms) e (inr h) = elim (Bool-cases (str_eq m.app_id app)) [
  | inl q ↦ rw q (inr (Holds-of_app app d ms e h))
  | inr q ↦ rw q (Holds-of_app app d ms e h)
]

-- Whether an answer to a query from `start` to `last` has every metric of a list that was asked for.
pub FindsAll :
    String → ℤ → String → ℤ → ℤ → List AppInstanceMetric → List AppInstanceMetric → Type 0
FindsAll app index name start last ms found =
    (d : AppInstanceMetric)
    → Holds d ms
    → d.app_id ≡ app
    → Matches index name d
    → start <ℤ d.timestamp
    → d.timestamp ≤ℤ last
    → Holds d found

module _ (now : ℤ) (database : ℤ → Result (List AppInstanceMetric)) (app : String) (index : ℤ)
    (name : String) (start last : ℤ) (order : OrderType) where
  -- The answer from a cache that is what the metrics `ds` of the app leave.
  answer :
      (n : ℕ) (ms : List AppInstanceMetric) (c : TsdCache AppInstanceMetric) (mc : MetricCollector)
      → mc.persist_metrics ≡ true
      → lookup app mc.metric_cache ≡ some c
      → Filled n (of_app app ms) c
      → eq_ℤ last (negsuc 0) ≡ false
      → InInt64 (last +ℤ pos 1)
      → (query_metrics now database app index name start last order mc ≡ some (database last))
        ⊎ ((found : List AppInstanceMetric) × (query_metrics now database app index name start last
                order mc
              ≡ some (ok found))
            × FindsAll app index name start last ms found)
  unfolding query_metrics FindsAll instance_metric_tsd
  answer n ms c mc persists l f not_now small =
      let wide = wrap64_id (last +ℤ pos 1) small in
      let (found, hit, q, answers) =
        query-Answers start (last +ℤ pos 1) (query_labels index name) n (of_app app ms) c f in
      elim (Bool-cases hit) [
        | inl h ↦
            let q' : query c start (last +ℤ pos 1) (query_labels index name) ≡ some (found, true) =
              q ∙ ap (λ z. some (found, z)) h in
            inr (
              in_order order found,
              rw (query_metrics, l, not_now, wide, q') refl,
              λ d g a m lo hi. Holds-in_order order d found (
                  (answers h).all d (Holds-of_app app d ms a g) lo
                    (omega (arith, +ℤ_parts last (pos 1))) (Matches-labels index name d m)),
            )
        | inr h ↦
            let q' : query c start (last +ℤ pos 1) (query_labels index name) ≡ some (found, false) =
              q ∙ ap (λ z. some (found, z)) h in
            inl (rw (query_metrics, l, not_now, wide, q', or_database, persists) refl)
      ]

  -- Let the app's cache be empty, with capacities above 0, at least one node, and metrics persisted. After any
  -- run of the two loops in which every refresh that succeeds finds the app among the node's,
  -- `QueryMetrics` does not panic: it returns the database's answer, or it answers from the cache, and then with
  -- every metric of the app that the run received, that has the name (and the index, if one is
  -- asked for) and lies after the start and not after `last`. Here `last` is not -1, and `last + 1`
  -- is an int64.
  pub query_metrics_complete :
      (n k : ℕ) (es : List Event) (mc : MetricCollector)
      → IsSound n k mc
      → mc.persist_metrics ≡ true
      → Tracked n app [] mc
      → Stays k mc.node_index app es
      → eq_ℤ last (negsuc 0) ≡ false
      → InInt64 (last +ℤ pos 1)
      → (mc' : MetricCollector) × (run es mc ≡ some mc')
        × ((query_metrics now database app index name start last order mc' ≡ some (database last))
            ⊎ ((found : List AppInstanceMetric) × (query_metrics now database app index name start
                    last order mc'
                  ≡ some (ok found))
                × FindsAll app index name start last (metrics_of es) found))
  query_metrics_complete n k es mc v persists empty stays not_now small =
      let (mc', r, f) = run_lem n k es mc v in
      let (c, l, filled) = f.tracks app [] stays empty in
      (mc', r, answer n (metrics_of es) c mc' (f.persists ∙ persists) l filled not_now small)
