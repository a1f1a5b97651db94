-- ===== src/Aggregator/Saving.antt =====
-- What a run of startSavingAppMetric keeps.
use app_autoscaler.Prelude.{
  ℕ, String, ◌≡◌, refl, sym, ap, ◌∙◌, subst, inl, inr, Bool, true, false, none, some, List, [], ◌∷◌,
  ◌++◌, str_eq, if◌then◌else◌, arith, Bool-cases, Option-cases, eq_iff,
}
use mathlib.Core.List.{append-nil, append_assoc}
use app_autoscaler.Prelude.Dict.{Dict, lookup, insert}
use app_autoscaler.Models.{AppMetric}
use app_autoscaler.TsdCache.{TsdCache}
use app_autoscaler.TsdCache.Tracked.{AllFilled, Tracks, put-Tracks}
use app_autoscaler.AppManager.{app_metric_tsd, save_metric_to_cache}
use app_autoscaler.Aggregator.{Event, metric, tick, Saver, save_step, save_all}

-- The metrics that a list of events brings.
abbrev pub metrics_of : List Event → List AppMetric
metrics_of [] = []
metrics_of (metric m ∷ es) = m ∷ metrics_of es
metrics_of (tick ∷ es) = metrics_of es

-- Those of an app.
abbrev pub of_app : String → List AppMetric → List AppMetric
of_app app [] = []
of_app app (m ∷ ms) = let rest = of_app app ms in if str_eq m.app_id app then m ∷ rest else rest

abbrev pub flatten : List (List AppMetric) → List AppMetric
flatten [] = []
flatten (b ∷ bs) = flatten bs ++ b

-- The metrics that were handed to the database, and those that wait for it.
abbrev pub handed : Saver → List AppMetric
handed s = flatten s.bulks ++ s.app_metrics

-- What the events make of the saver.
pub record Follows (n : ℕ) (es : List Event) (s s' : Saver) : Type 0 where
  pub filled : AllFilled n s'.app_manager.metric_cache
  pub given : handed s' ≡ handed s ++ metrics_of es
  pub tracks :
      (app : String) (ds : List AppMetric)
      → Tracks n app ds s.app_manager.metric_cache
      → Tracks n app (ds ++ of_app app (metrics_of es)) s'.app_manager.metric_cache

add_if :
    (b : Bool) (m : AppMetric) (ds : List AppMetric)
    → (if b then ds ++ m ∷ [] else ds) ≡ ds ++ (if b then m ∷ [] else [])
add_if true m ds = refl
add_if false m ds = sym (append-nil ds)

-- A metric whose app has no cache is not of a tracked app.
untracked :
    (n : ℕ) (m : AppMetric) (app : String) (ds : List AppMetric)
    (caches : Dict (TsdCache AppMetric))
    → lookup m.app_id caches ≡ none
    → Tracks n app ds caches
    → Tracks n app (ds ++ of_app app (m ∷ [])) caches
untracked n m app ds caches p (c, l, f) = elim (Bool-cases (str_eq m.app_id app)) [
  | inl same ↦
      let q = subst (λ z. lookup z caches ≡ none) ((eq_iff m.app_id app).0 same) p in ground arith
  | inr other ↦ (c, l, rw (other, append-nil ds) f)
]

metric_lem :
    (n : ℕ) (m : AppMetric) (s : Saver)
    → AllFilled n s.app_manager.metric_cache
    → (s' : Saver) × (save_step (metric m) s ≡ some s') × Follows n (metric m ∷ []) s s'
unfolding save_step save_metric_to_cache
metric_lem n m s v = elim (Option-cases (lookup m.app_id s.app_manager.metric_cache)) [
  | inl p ↦ (
    record s { app_metrics = s.app_metrics ++ m ∷ [] },
    rw (save_step, save_metric_to_cache, p) refl,
    record {
      filled = v;
      given = sym (append_assoc (flatten s.bulks) s.app_metrics (m ∷ []));
      tracks = λ app ds t. untracked n m app ds s.app_manager.metric_cache p t;
    },
  )
  | inr (c, p) ↦
      let (c', e, filled, tracks) = put-Tracks n m.app_id m s.app_manager.metric_cache c v p in
      let caches = insert m.app_id c' s.app_manager.metric_cache in
      (
        record s {
          app_metrics = s.app_metrics ++ m ∷ [];
          app_manager = record s.app_manager { metric_cache = caches };
        },
        rw (save_step, save_metric_to_cache, p, e) refl,
        record {
          filled = filled;
          given = sym (append_assoc (flatten s.bulks) s.app_metrics (m ∷ []));
          tracks = λ app ds t.
              subst (λ z. Tracks n app z caches) (add_if (str_eq m.app_id app) m ds)
                (tracks app ds t);
        },
      )
]

step_lem :
    (n : ℕ) (e : Event) (s : Saver)
    → AllFilled n s.app_manager.metric_cache
    → (s' : Saver) × (save_step e s ≡ some s') × Follows n (e ∷ []) s s'
unfolding save_step
step_lem n (metric m) s v = metric_lem n m s v
step_lem n tick s v = (
  record s { app_metrics = []; bulks = s.app_metrics ∷ s.bulks },
  refl,
  record {
    filled = v;
    given = refl;
    tracks =
        λ app ds t. subst (λ z. Tracks n app z s.app_manager.metric_cache) (sym (append-nil ds)) t;
  },
)

metrics_of-append : (xs ys : List Event) → metrics_of (xs ++ ys) ≡ metrics_of xs ++ metrics_of ys
metrics_of-append [] ys = refl
metrics_of-append (metric m ∷ xs) ys = ap (λ zs. m ∷ zs) (metrics_of-append xs ys)
metrics_of-append (tick ∷ xs) ys = metrics_of-append xs ys

of_app-append :
    (app : String) (xs ys : List AppMetric) → of_app app (xs ++ ys) ≡ of_app app xs ++ of_app app ys
of_app-append app [] ys = refl
of_app-append app (x ∷ xs) ys = elim (Bool-cases (str_eq x.app_id app)) [
  | inl e ↦ rw e (ap (λ zs. x ∷ zs) (of_app-append app xs ys))
  | inr e ↦ rw e (of_app-append app xs ys)
]

Follows-trans :
    (n : ℕ) (e : Event) (es : List Event) (a b c : Saver)
    → Follows n (e ∷ []) a b
    → Follows n es b c
    → Follows n (e ∷ es) a c
Follows-trans n e es a b c f g =
    let split = metrics_of-append (e ∷ []) es in
    record {
      filled = g.filled;
      given =
          g.given
          ∙ ap (λ z. z ++ metrics_of es) f.given
          ∙ append_assoc (handed a) (metrics_of (e ∷ [])) (metrics_of es)
          ∙ ap (λ z. handed a ++ z) (sym split);
      tracks = λ app ds t.
          subst (λ z. Tracks n app z c.app_manager.metric_cache)
            (append_assoc ds (of_app app (metrics_of (e ∷ []))) (of_app app (metrics_of es))
              ∙ ap (λ z. ds ++ z)
                  (sym (of_app-append app (metrics_of (e ∷ [])) (metrics_of es))
                    ∙ ap (of_app app) (sym split)))
            (g.tracks app (ds ++ of_app app (metrics_of (e ∷ []))) (f.tracks app ds t));
    }

-- A run of startSavingAppMetric, in any order of what it receives, goes through without a panic if every
-- cache is what some puts leave of an empty one of a capacity above 0. Every metric that it receives is
-- handed to the database once, in the order of receipt, or waits for the next tick; and the cache of an app
-- that has one is what the app's metrics of before and of the run leave of an empty one, in their order.
pub save_all_lem :
    (n : ℕ) (es : List Event) (s : Saver)
    → AllFilled n s.app_manager.metric_cache
    → (s' : Saver) × (save_all es s ≡ some s') × Follows n es s s'
unfolding save_all
save_all_lem n [] s v = (
  s,
  refl,
  record {
    filled = v;
    given = sym (append-nil (handed s));
    tracks =
        λ app ds t. subst (λ z. Tracks n app z s.app_manager.metric_cache) (sym (append-nil ds)) t;
  },
)
save_all_lem n (e ∷ es) s v =
    let (s₁, p, f) = step_lem n e s v in
    let (s', q, g) = save_all_lem n es s₁ f.filled in (s', rw p q, Follows-trans n e es s s₁ s' f g)
