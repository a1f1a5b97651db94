-- ===== src/EventGenServer/Composed.antt =====
-- What GetAggregatedMetricHistories answers after any run of startSavingAppMetric: the handler over
-- QueryAppMetrics of the app manager whose caches the run fills.
use app_autoscaler.Prelude.{
  ℕ, String, ◌≡◌, refl, sym, ap, ◌∙◌, ◌↔◌, ◌⊎◌, inl, inr, Option, some, List, [], ◌∷◌, reverse,
  str_eq, eq_iff, if◌then◌else◌, arith, Bool-cases, Holds, Holds-append_one,
}
use mathlib.Core.List.{reverse-cons}
use app_autoscaler.Prelude.Int.{
  ℤ, pos, negsuc, ◌+ℤ◌, +ℤ_parts, ◌≤ℤ◌, ◌<ℤ◌, eq_ℤ, wrap64_id, InInt64,
}
use app_autoscaler.Models.{Result, ok, AppMetric}
use app_autoscaler.Models.Labels.{app_metric_has_labels_name}
use app_autoscaler.EngineDb.{OrderType, asc, desc}
use app_autoscaler.TsdCache.Order.{IsSorted}
use app_autoscaler.TsdCache.Tracked.{AllFilled, Tracks}
use app_autoscaler.TsdCache.Sound.{Answers, query-Answers}
use app_autoscaler.Http.{Query, param, write_json, or_refuse}
use app_autoscaler.Http.Params.{MeansTime, MeansOrder, time_param-MeansTime, order_param-MeansOrder}
use app_autoscaler.AppManager.{AppManager, app_metric_tsd, query_app_metrics, in_order}
use app_autoscaler.Aggregator.{Event, Saver, save_all}
use app_autoscaler.Aggregator.Saving.{metrics_of, of_app, save_all_lem}
use app_autoscaler.EventGenServer.{
  QueryAppMetrics, aggregated_params, respond, get_aggregated_metric_histories,
}

-- RetrieveAppMetrics of the metrics database
abbrev pub Database : Type 0
Database = String → String → ℤ → ℤ → OrderType → Result (List AppMetric)

-- AppManager.QueryAppMetrics
abbrev pub query_of : ℤ → Database → AppManager → QueryAppMetrics
query_of now database am app metric_type start end order =
    query_app_metrics now (λ last. database app metric_type start last order) app metric_type start
      end order am

-- Whether a metric is of the app and the type.
abbrev pub IsOf : String → String → AppMetric → Type 0
IsOf app metric_type m = (m.app_id ≡ app) × (m.metric_type ≡ metric_type)

-- What an answer from `start` to `last` makes of the metrics that were saved: those of the app and the type, in
-- the order that is asked for. It may miss some of those at the start itself.
pub record Reports (app metric_type : String) (start last : ℤ) (order : OrderType)
    (ms found : List AppMetric) : Type 0 where
  pub sorted : (raw : List AppMetric) × IsSorted raw × (found ≡ in_order order raw)
  pub only :
      (d : AppMetric)
      → Holds d found
      → Holds d ms × IsOf app metric_type d × (start ≤ℤ d.timestamp) × (d.timestamp ≤ℤ last)
  pub all :
      (d : AppMetric)
      → Holds d ms
      → IsOf app metric_type d
      → start <ℤ d.timestamp
      → d.timestamp ≤ℤ last
      → Holds d found

Holds-reverse : (m : AppMetric) (ms : List AppMetric) → Holds m ms ↔ Holds m (reverse ms)
Holds-reverse m [] = (λ h. elim h [ ], λ h. elim h [ ])
Holds-reverse m (x ∷ ms) =
    let below = Holds-reverse m ms in
    let last = Holds-append_one m x (reverse ms) in
    (
      elim [
        | inl e ↦ rw reverse-cons (last.1 (inr e))
        | inr h ↦ rw reverse-cons (last.1 (inl (below.0 h)))
      ],
      λ h. elim (last.0 (rw reverse-cons at h)) [ inl k ↦ inr (below.1 k) | inr e ↦ inl e ],
    )

Holds-in_order :
    (order : OrderType) (m : AppMetric) (ms : List AppMetric)
    → Holds m ms ↔ Holds m (in_order order ms)
Holds-in_order asc m ms = (λ h. h, λ h. h)
Holds-in_order desc m ms = Holds-reverse m ms

Holds-of_app :
    (app : String) (d : AppMetric) (ms : List AppMetric)
    → (Holds d ms × (d.app_id ≡ app)) ↔ Holds d (of_app app ms)
Holds-of_app app d [] = (λ h. elim h.0 [ ], λ h. elim h [ ])
Holds-of_app app d (m ∷ ms) =
    let below = Holds-of_app app d ms in
    elim (Bool-cases (str_eq m.app_id app)) [
      | inl q ↦ (
        λ (h, a). rw q (elim h [ inl e ↦ inl e | inr k ↦ inr (below.0 (k, a)) ]),
        λ h. elim (rw q at h) [
          | inl e ↦ (inl e, ap (λ z. z.app_id) e ∙ (eq_iff m.app_id app).0 q)
          | inr k ↦ let (g, a) = below.1 k in (inr g, a)
        ],
      )
      | inr q ↦ (
        λ (h, a). rw q (elim h [
          | inl e ↦ let s = (eq_iff m.app_id app).1 (ap (λ z. z.app_id) (sym e) ∙ a) in ground arith
          | inr k ↦ below.0 (k, a)
        ]),
        λ h. let (g, a) = below.1 (rw q at h) in (inr g, a),
      )
    ]

module _ (app metric_type : String) (start last : ℤ) (order : OrderType)
    (ms found : List AppMetric) where
  Answers-Reports :
      Answers start (last +ℤ pos 1) (("name", metric_type) ∷ []) (of_app app ms) found
      → Reports app metric_type start last order ms (in_order order found)
  unfolding app_metric_tsd
  Answers-Reports a = record {
    sorted = (found, a.sorted, refl);
    only = λ d h.
        let (g, r) = a.only d ((Holds-in_order order d found).1 h) in
        let (k, of) = (Holds-of_app app d ms).1 g in
        let label = app_metric_has_labels_name d metric_type in
        let same = eq_iff metric_type d.metric_type in
        let parts : (start ≤ℤ d.timestamp)
            × (d.timestamp <ℤ last +ℤ pos 1)
            × (metric_type ≡ d.metric_type) =
          ground (arith, label, same, r) in
        (k, (of, sym parts.2), parts.0, omega (arith, parts.1, +ℤ_parts last (pos 1)));
    all = λ d h of lo hi. (Holds-in_order order d found).0 (
        a.all d ((Holds-of_app app d ms).0 (h, of.0)) lo (omega (arith, +ℤ_parts last (pos 1))) (
          app_metric_has_labels_name d metric_type
          ∙ (eq_iff metric_type d.metric_type).1 (sym of.1)));
  }

module _ (encode : List AppMetric → Option String) (now : ℤ) (database : Database)
    (app metric_type : String) (start end : ℤ) (order : OrderType) where
  -- Until when the query reaches.
  abbrev last : ℤ
  last = if eq_ℤ end (negsuc 0) then now else end

  -- The answer from a cache that is what the app's metrics of `ms` leave.
  query_of_lem :
      (n : ℕ) (ms : List AppMetric) (am : AppManager)
      → Tracks n app (of_app app ms) am.metric_cache
      → InInt64 (last +ℤ pos 1)
      → (r : Result (List AppMetric)) × (query_of now database am app metric_type start end order
          ≡ some r)
        × ((r ≡ database app metric_type start last order)
            ⊎ ((found : List AppMetric) × (r ≡ ok found)
                × Reports app metric_type start last order ms found))
  unfolding query_app_metrics
  query_of_lem n ms am (c, l, f) small =
      let wide = wrap64_id (last +ℤ pos 1) small in
      let (found, hit, q, answers) =
        query-Answers start (last +ℤ pos 1) (("name", metric_type) ∷ []) n (of_app app ms) c f in
      elim (Bool-cases hit) [
        | inl h ↦ (
          ok (in_order order found),
          rw (query_app_metrics, l, wide, q, h) refl,
          inr (
            in_order order found,
            refl,
            Answers-Reports app metric_type start last order ms found (answers h),
          ),
        )
        | inr h ↦ (
          database app metric_type start last order,
          rw (query_app_metrics, l, wide, q, h) refl,
          inl refl,
        )
      ]

  -- Let every cache be what some puts leave of an empty one of a capacity above 0, and the app's be empty.
  -- Let a query string ask for a start, an end and an order, and let the next int64 after `last` not overflow,
  -- where `last` is the end, or now if the end is -1. After any run of startSavingAppMetric, which does not
  -- panic, GetAggregatedMetricHistories answers with the answer of the database, or with the encoding of
  -- a list of the app's metrics of the type that the run received, from the start to `last`, in the order of
  -- their timestamps, or the reverse of it for DESC; all that lie after the start are in it.
  pub get_aggregated_metric_histories_lem :
      (n : ℕ) (es : List Event) (s : Saver) (q : Query)
      → AllFilled n s.app_manager.metric_cache
      → Tracks n app [] s.app_manager.metric_cache
      → MeansTime (pos 0) (param "start" q) start
      → MeansTime (negsuc 0) (param "end" q) end
      → MeansOrder asc (param "order" q) order
      → InInt64 (last +ℤ pos 1)
      → (s' : Saver) × (save_all es s ≡ some s')
        × ((get_aggregated_metric_histories encode
                (query_of now database s'.app_manager)
                app
                metric_type
                q
              ≡ respond encode (some (database app metric_type start last order)))
            ⊎ ((found : List AppMetric) × (get_aggregated_metric_histories encode
                    (query_of now database s'.app_manager)
                    app
                    metric_type
                    q
                  ≡ write_json encode "Error marshaling aggregated metric histories" found)
                × Reports app metric_type start last order (metrics_of es) found))
  unfolding get_aggregated_metric_histories aggregated_params
  get_aggregated_metric_histories_lem n es s q v empty from to by small =
      let (s', e, f) = save_all_lem n es s v in
      let (r, a, cases) =
        query_of_lem n (metrics_of es) s'.app_manager (f.tracks app [] empty) small in
      let p₁ = time_param-MeansTime "start" (pos 0) start (param "start" q) from in
      let p₂ = time_param-MeansTime "end" (negsuc 0) end (param "end" q) to in
      let p₃ = order_param-MeansOrder "" asc order (param "order" q) by in
      (
        s',
        e,
        elim cases [
          | inl d ↦ inl (
              rw (get_aggregated_metric_histories, aggregated_params, p₁, p₂, p₃, or_refuse, a)
                (ap (λ z. respond encode (some z)) d))
          | inr (found, d, reports) ↦ inr (
            found,
            rw (get_aggregated_metric_histories, aggregated_params, p₁, p₂, p₃, or_refuse, a, d)
                refl,
            reports,
          )
        ],
      )
