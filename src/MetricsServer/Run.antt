-- ===== src/MetricsServer/Run.antt =====
-- What a run of the collector's loops keeps.
use app_autoscaler.Prelude.{
  ℕ, suc, String, ◌≡◌, refl, sym, ap, ◌∙◌, subst, inl, inr, Bool, true, false, none, some, List, [],
  ◌∷◌, ◌++◌, str_eq, if◌then◌else◌, arith, Bool-cases, Option-cases, eq_iff,
}
use mathlib.Core.List.{append-nil, append_assoc}
use app_autoscaler.Prelude.Dict.{Dict, lookup, insert}
use app_autoscaler.Models.{Result, ok, err, AppInstanceMetric}
use app_autoscaler.TsdCache.{TsdCache}
use app_autoscaler.TsdCache.Filled.{Filled}
use app_autoscaler.TsdCache.Tracked.{AllFilled, Tracks, put-Tracks}
use app_autoscaler.InstanceMetrics.{instance_metric_tsd, own_apps, shard}
use app_autoscaler.MetricsServer.{
  MetricCollector, is_in, keep_caches, add_caches, Event, refreshed, received, save_tick,
  refresh_apps, save_metric_to_cache, step, run,
}
use app_autoscaler.MetricsServer.Lookups.{add_caches_lem, keep-AllFilled, keep_kept}

-- A collector of `suc k` nodes whose caches have room for `suc n` points each.
pub record IsSound (n k : ℕ) (mc : MetricCollector) : Type 0 where
  pub size : mc.metric_cache_size_per_app ≡ suc n
  pub nodes : mc.node_num ≡ suc k
  pub filled : AllFilled n mc.metric_cache

-- The metrics that a list of events brings.
abbrev pub metrics_of : List Event → List AppInstanceMetric
metrics_of [] = []
metrics_of (refreshed apps ∷ es) = metrics_of es
metrics_of (received m ∷ es) = m ∷ metrics_of es
metrics_of (save_tick ∷ es) = metrics_of es

-- Those of an app.
abbrev pub of_app : String → List AppInstanceMetric → List AppInstanceMetric
of_app app [] = []
of_app app (m ∷ ms) = let rest = of_app app ms in if str_eq m.app_id app then m ∷ rest else rest

-- Every refresh that reads the apps finds the app among those of the node.
abbrev pub Stays : ℕ → ℕ → String → List Event → Type 0
Stays k index app [] = Unit {0}
Stays k index app (refreshed (ok apps) ∷ es) =
    (is_in app (own_apps k index apps) ≡ true) × Stays k index app es
Stays k index app (refreshed (err e) ∷ es) = Stays k index app es
Stays k index app (received m ∷ es) = Stays k index app es
Stays k index app (save_tick ∷ es) = Stays k index app es

abbrev pub flatten : List (List AppInstanceMetric) → List AppInstanceMetric
flatten [] = []
flatten (b ∷ bs) = flatten bs ++ b

-- The metrics that were handed to the database, and those that wait for it.
abbrev pub handed : MetricCollector → List AppInstanceMetric
handed mc = flatten mc.bulks ++ mc.pending

-- The cache of an app is what the metrics leave of an empty one.
abbrev pub Tracked : ℕ → String → List AppInstanceMetric → MetricCollector → Type 0
Tracked n app ds mc = Tracks n app ds mc.metric_cache

-- What the events `es` make of a collector.
pub record Follows (n k : ℕ) (es : List Event) (mc mc' : MetricCollector) : Type 0 where
  pub sound : IsSound n k mc'
  pub persists : mc'.persist_metrics ≡ mc.persist_metrics
  pub index : mc'.node_index ≡ mc.node_index
  pub given : handed mc' ≡ (if mc.persist_metrics then handed mc ++ metrics_of es else handed mc)
  pub tracks :
      (app : String) (ds : List AppInstanceMetric)
      → Stays k mc.node_index app es
      → Tracked n app ds mc
      → Tracked n app (ds ++ of_app app (metrics_of es)) mc'

nothing : (b : Bool) (xs : List AppInstanceMetric) → xs ≡ (if b then xs ++ [] else xs)
nothing true xs = sym (append-nil xs)
nothing false xs = refl

refresh_lem :
    (n k : ℕ) (apps : Result (List String)) (mc : MetricCollector)
    → IsSound n k mc
    → (mc' : MetricCollector) × (refresh_apps apps mc ≡ some mc')
      × Follows n k (refreshed apps ∷ []) mc mc'
unfolding refresh_apps shard
refresh_lem n k (err e) mc v = (
  mc,
  refl,
  record {
    sound = v;
    persists = refl;
    index = refl;
    given = nothing mc.persist_metrics (handed mc);
    tracks = λ app ds s t. subst (λ z. Tracked n app z mc) (sym (append-nil ds)) t;
  },
)
refresh_lem n k (ok apps) mc v =
    let ids = own_apps k mc.node_index apps in
    let (caches, e, a) =
      add_caches_lem n ids (keep_caches ids mc.metric_cache)
        (keep-AllFilled n ids mc.metric_cache v.filled) in
    let own : shard mc.node_num mc.node_index apps ≡ some ids =
      subst (λ z. shard z mc.node_index apps ≡ some ids) (sym v.nodes) refl in
    let more : add_caches mc.metric_cache_size_per_app ids (keep_caches ids mc.metric_cache)
        ≡ some caches =
      subst (λ z. add_caches z ids (keep_caches ids mc.metric_cache) ≡ some caches) (sym v.size)
        e in
    (
      record mc { app_ids = ids; metric_cache = caches },
      rw (own, more) refl,
      record {
        sound = record { size = v.size; nodes = v.nodes; filled = a.filled };
        persists = refl;
        index = refl;
        given = nothing mc.persist_metrics (handed mc);
        tracks = λ app ds s (c, l, f). (
          c,
          a.kept app c (keep_kept ids app mc.metric_cache s.0 ∙ l),
          subst (λ z. Filled n z c) (sym (append-nil ds)) f,
        );
      },
    )

add_if :
    (b : Bool) (m : AppInstanceMetric) (ds : List AppInstanceMetric)
    → (if b then ds ++ m ∷ [] else ds) ≡ ds ++ (if b then m ∷ [] else [])
add_if true m ds = refl
add_if false m ds = sym (append-nil ds)

-- A metric in the cache of its app.
cache_lem :
    (n k : ℕ) (m : AppInstanceMetric) (mc : MetricCollector)
    → IsSound n k mc
    → (caches : Dict (TsdCache AppInstanceMetric)) × (save_metric_to_cache m mc
        ≡ some (record mc { metric_cache = caches }))
      × AllFilled n caches
      × ((app : String) (ds : List AppInstanceMetric)
          → Tracked n app ds mc
          → Tracked n app (ds ++ of_app app (m ∷ [])) (record mc { metric_cache = caches }))
unfolding save_metric_to_cache
cache_lem n k m mc v = elim (Option-cases (lookup m.app_id mc.metric_cache)) [
  | inl p ↦ (
    mc.metric_cache,
    rw (save_metric_to_cache, p) refl,
    v.filled,
    λ app ds (c, l, f). elim (Bool-cases (str_eq m.app_id app)) [
      | inl same ↦
          let q = subst (λ z. lookup z mc.metric_cache ≡ none) ((eq_iff m.app_id app).0 same) p in
          ground arith
      | inr other ↦ (c, l, rw (other, append-nil ds) f)
    ],
  )
  | inr (c₀, p) ↦
      let (c', e, filled, tracks) = put-Tracks n m.app_id m mc.metric_cache c₀ v.filled p in
      (
        insert m.app_id c' mc.metric_cache,
        rw (save_metric_to_cache, p, e) refl,
        filled,
        λ app ds t.
            subst (λ z. Tracks n app z (insert m.app_id c' mc.metric_cache))
              (add_if (str_eq m.app_id app) m ds) (tracks app ds t),
      )
]

choose_true : {A : Type 0} (b : Bool) (x y : A) → b ≡ true → (if b then x else y) ≡ x
choose_true b x y p = rw p refl

choose_false : {A : Type 0} (b : Bool) (x y : A) → b ≡ false → (if b then x else y) ≡ y
choose_false b x y p = rw p refl

same_cache :
    (n : ℕ) (app : String) (ds : List AppInstanceMetric) (mc mc' : MetricCollector)
    → mc'.metric_cache ≡ mc.metric_cache
    → Tracked n app ds mc
    → Tracked n app (ds ++ []) mc'
same_cache n app ds mc mc' e (c, l, f) =
    (c, ap (lookup app) e ∙ l, subst (λ z. Filled n z c) (sym (append-nil ds)) f)

receive_lem :
    (n k : ℕ) (m : AppInstanceMetric) (mc : MetricCollector)
    → IsSound n k mc
    → (mc' : MetricCollector) × (step (received m) mc ≡ some mc')
      × Follows n k (received m ∷ []) mc mc'
unfolding step cache_lem
receive_lem n k m mc v =
    let (caches, e, filled, tracks) = cache_lem n k m mc v in
    elim (Bool-cases mc.persist_metrics) [
      | inl p ↦ (
        record mc { metric_cache = caches; pending = mc.pending ++ m ∷ [] },
        rw (step, e) (ap some (choose_true mc.persist_metrics _ _ p)),
        record {
          sound = record { size = v.size; nodes = v.nodes; filled = filled };
          persists = refl;
          index = refl;
          given =
              sym (append_assoc (flatten mc.bulks) mc.pending (m ∷ []))
              ∙ sym (choose_true mc.persist_metrics _ _ p);
          tracks = λ app ds s t. tracks app ds t;
        },
      )
      | inr p ↦ (
        record mc { metric_cache = caches },
        rw (step, e) (ap some (choose_false mc.persist_metrics _ _ p)),
        record {
          sound = record { size = v.size; nodes = v.nodes; filled = filled };
          persists = refl;
          index = refl;
          given = sym (choose_false mc.persist_metrics _ _ p);
          tracks = λ app ds s t. tracks app ds t;
        },
      )
    ]

tick_lem :
    (n k : ℕ) (mc : MetricCollector)
    → IsSound n k mc
    → (mc' : MetricCollector) × (step save_tick mc ≡ some mc') × Follows n k (save_tick ∷ []) mc mc'
unfolding step
tick_lem n k mc v = elim (Bool-cases mc.persist_metrics) [
  | inl p ↦ (
    record mc { pending = []; bulks = mc.pending ∷ mc.bulks },
    ap some (choose_true mc.persist_metrics _ _ p),
    record {
      sound = record { size = v.size; nodes = v.nodes; filled = v.filled };
      persists = refl;
      index = refl;
      given = sym (choose_true mc.persist_metrics _ _ p);
      tracks = λ app ds s t.
          same_cache n app ds mc (record mc { pending = []; bulks = mc.pending ∷ mc.bulks }) refl t;
    },
  )
  | inr p ↦ (
    mc,
    ap some (choose_false mc.persist_metrics _ _ p),
    record {
      sound = v;
      persists = refl;
      index = refl;
      given = sym (choose_false mc.persist_metrics _ _ p);
      tracks = λ app ds s t. same_cache n app ds mc mc refl t;
    },
  )
]

step_lem :
    (n k : ℕ) (e : Event) (mc : MetricCollector)
    → IsSound n k mc
    → (mc' : MetricCollector) × (step e mc ≡ some mc') × Follows n k (e ∷ []) mc mc'
unfolding step refresh_apps
step_lem n k (refreshed apps) mc v = refresh_lem n k apps mc v
step_lem n k (received m) mc v = receive_lem n k m mc v
step_lem n k save_tick mc v = tick_lem n k mc v

metrics_of-append : (xs ys : List Event) → metrics_of (xs ++ ys) ≡ metrics_of xs ++ metrics_of ys
metrics_of-append [] ys = refl
metrics_of-append (refreshed apps ∷ xs) ys = metrics_of-append xs ys
metrics_of-append (received m ∷ xs) ys = ap (λ zs. m ∷ zs) (metrics_of-append xs ys)
metrics_of-append (save_tick ∷ xs) ys = metrics_of-append xs ys

of_app-append :
    (app : String) (xs ys : List AppInstanceMetric)
    → of_app app (xs ++ ys) ≡ of_app app xs ++ of_app app ys
of_app-append app [] ys = refl
of_app-append app (x ∷ xs) ys = elim (Bool-cases (str_eq x.app_id app)) [
  | inl e ↦ rw e (ap (λ zs. x ∷ zs) (of_app-append app xs ys))
  | inr e ↦ rw e (of_app-append app xs ys)
]

Stays-parts :
    (k i : ℕ) (app : String) (e : Event) (es : List Event)
    → Stays k i app (e ∷ es)
    → Stays k i app (e ∷ []) × Stays k i app es
Stays-parts k i app (refreshed (ok apps)) es s = ((s.0, tt), s.1)
Stays-parts k i app (refreshed (err e)) es s = (tt, s)
Stays-parts k i app (received m) es s = (tt, s)
Stays-parts k i app save_tick es s = (tt, s)

both_given :
    (b : Bool) (xs ys zs us vs : List AppInstanceMetric)
    → vs ≡ (if b then us ++ zs else us)
    → us ≡ (if b then xs ++ ys else xs)
    → vs ≡ (if b then xs ++ (ys ++ zs) else xs)
both_given true xs ys zs us vs e d = e ∙ ap (λ w. w ++ zs) d ∙ append_assoc xs ys zs
both_given false xs ys zs us vs e d = e ∙ d

Follows-trans :
    (n k : ℕ) (e : Event) (es : List Event) (a b c : MetricCollector)
    → Follows n k (e ∷ []) a b
    → Follows n k es b c
    → Follows n k (e ∷ es) a c
Follows-trans n k e es a b c f g = record {
  sound = g.sound;
  persists = g.persists ∙ f.persists;
  index = g.index ∙ f.index;
  given =
      let h : handed c ≡ (if a.persist_metrics then handed b ++ metrics_of es else handed b) =
        g.given ∙ ap (λ z. if z then handed b ++ metrics_of es else handed b) f.persists in
      both_given a.persist_metrics (handed a) (metrics_of (e ∷ [])) (metrics_of es) (handed b)
        (handed c) h f.given
      ∙ ap (λ z. if a.persist_metrics then handed a ++ z else handed a)
          (sym (metrics_of-append (e ∷ []) es));
  tracks = λ app ds s t.
      let (s₁, s₂) = Stays-parts k a.node_index app e es s in
      let s₃ : Stays k b.node_index app es = subst (λ z. Stays k z app es) (sym f.index) s₂ in
      subst (λ z. Tracked n app z c)
        (append_assoc ds (of_app app (metrics_of (e ∷ []))) (of_app app (metrics_of es))
          ∙ ap (λ z. ds ++ z)
              (sym (of_app-append app (metrics_of (e ∷ [])) (metrics_of es))
                ∙ ap (of_app app) (sym (metrics_of-append (e ∷ []) es))))
        (g.tracks app (ds ++ of_app app (metrics_of (e ∷ []))) s₃ (f.tracks app ds s₁ t));
}

-- A run of the two loops, in any order of what they receive, goes through without a panic, on caches of a
-- capacity above 0 and with at least one node. Every metric that it receives is handed to the database
-- once, in the order of receipt, or waits for the next tick, if metrics are persisted; otherwise none is.
-- The cache of an app that every refresh finds among the node's is what the app's metrics of before and
-- of the run leave of an empty one, in their order.
pub run_lem :
    (n k : ℕ) (es : List Event) (mc : MetricCollector)
    → IsSound n k mc
    → (mc' : MetricCollector) × (run es mc ≡ some mc') × Follows n k es mc mc'
unfolding run
run_lem n k [] mc v = (
  mc,
  refl,
  record {
    sound = v;
    persists = refl;
    index = refl;
    given = nothing mc.persist_metrics (handed mc);
    tracks = λ app ds s t. same_cache n app ds mc mc refl t;
  },
)
run_lem n k (e ∷ es) mc v =
    let (mc₁, p, f) = step_lem n k e mc v in
    let (mc', q, g) = run_lem n k es mc₁ f.sound in
    (mc', rw p q, Follows-trans n k e es mc mc₁ mc' f g)
