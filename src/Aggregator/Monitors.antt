-- ===== src/Aggregator/Monitors.antt =====
-- Which monitors a tick of startAggregating sends to the pollers.
use app_autoscaler.Prelude.{
  String, ◌≡◌, refl, sym, ap, ◌∙◌, subst, ◌⊎◌, inl, inr, List, [], ◌∷◌, str_eq, Bool-cases, Holds,
  eq_iff,
}
use app_autoscaler.Prelude.Int.{ℤ}
use app_autoscaler.Prelude.Dict.{Dict, insert}
use app_autoscaler.Models.{ScalingRule, AppPolicy, AppMonitor}
use app_autoscaler.Aggregator.{
  monitor_key, monitor_of, add_monitors, monitors_from, get_app_monitors, values, aggregate_tick,
}

-- Whether a monitor is the one of a rule of one of the policies.
pub Asked : ℤ → Dict AppPolicy → AppMonitor → Type 0
Asked default_secs policies m =
    (app : String) × (policy : AppPolicy) × (rule : ScalingRule) × Holds (app, policy) policies
    × Holds rule policy.scaling_policy.scaling_rules
    × (m ≡ monitor_of default_secs app rule)

-- Whether a key is there.
abbrev HasKey : String → Dict AppMonitor → Type 0
HasKey key d = (m : AppMonitor) × Holds (key, m) d

Holds-insert :
    (key : String) (m : AppMonitor) (e : String × AppMonitor) (d : Dict AppMonitor)
    → Holds e (insert key m d)
    → (e ≡ (key, m)) ⊎ Holds e d
unfolding insert
Holds-insert key m e [] (inl q) = inl q
Holds-insert key m e [] (inr h) = elim h [ ]
Holds-insert key m e (x ∷ d) h = elim (Bool-cases (str_eq x.0 key)) [
  | inl same ↦ elim (rw same at h) [ inl q ↦ inl q | inr k ↦ inr (inr k) ]
  | inr other ↦ elim (rw other at h) [
    | inl q ↦ inr (inl q)
    | inr k ↦ elim (Holds-insert key m e d k) [ inl q ↦ inl q | inr g ↦ inr (inr g) ]
  ]
]

insert_has : (key : String) (m : AppMonitor) (d : Dict AppMonitor) → HasKey key (insert key m d)
unfolding insert
insert_has key m [] = (m, inl refl)
insert_has key m (x ∷ d) = elim (Bool-cases (str_eq x.0 key)) [
  | inl same ↦ (m, rw same (inl refl))
  | inr other ↦ let (v, h) = insert_has key m d in (v, rw other (inr h))
]

insert_keeps :
    (key k : String) (m : AppMonitor) (d : Dict AppMonitor) → HasKey k d → HasKey k (insert key m d)
unfolding insert
insert_keeps key k m [] (v, h) = elim h [ ]
insert_keeps key k m (x ∷ d) (v, inl q) = elim (Bool-cases (str_eq x.0 key)) [
  | inl same ↦ (m, rw same (inl (ap (λ z. (z, m)) (ap (λ z. z.0) q ∙ (eq_iff x.0 key).0 same))))
  | inr other ↦ (v, rw other (inl q))
]
insert_keeps key k m (x ∷ d) (v, inr h) = elim (Bool-cases (str_eq x.0 key)) [
  | inl same ↦ (v, rw same (inr h))
  | inr other ↦ let (w, g) = insert_keeps key k m d (v, h) in (w, rw other (inr g))
]

-- Every monitor is asked for, and stands under its own key.
pub record IsAsked (default_secs : ℤ) (policies : Dict AppPolicy) (d : Dict AppMonitor)
    : Type 0 where
  pub asked :
      (key : String) (m : AppMonitor)
      → Holds (key, m) d
      → Asked default_secs policies m × (key ≡ monitor_key m.app_id m.metric_type)

module _ (default_secs : ℤ) where
  insert-IsAsked :
      (policies : Dict AppPolicy) (app : String) (rule : ScalingRule) (d : Dict AppMonitor)
      → Asked default_secs policies (monitor_of default_secs app rule)
      → IsAsked default_secs policies d
      → IsAsked default_secs policies
          (insert (monitor_key app rule.metric_type) (monitor_of default_secs app rule) d)
  insert-IsAsked policies app rule d a v = record {
    asked = λ key m h.
        elim (Holds-insert (monitor_key app rule.metric_type) (monitor_of default_secs app rule)
          (key, m) d h) [
            | inl q ↦
                let r = ap (λ z. z.1) q in
                (
                  subst (Asked default_secs policies) (sym r) a,
                  ap (λ z. z.0) q ∙ ap (λ z. monitor_key z.app_id z.metric_type) (sym r),
                )
            | inr g ↦ v.asked key m g
          ];
  }

  add_monitors-IsAsked :
      (policies : Dict AppPolicy) (app : String) (rules : List ScalingRule) (d : Dict AppMonitor)
      → ((rule : ScalingRule)
          → Holds rule rules
          → Asked default_secs policies (monitor_of default_secs app rule))
      → IsAsked default_secs policies d
      → IsAsked default_secs policies (add_monitors default_secs app rules d)
  unfolding add_monitors
  add_monitors-IsAsked policies app [] d a v = v
  add_monitors-IsAsked policies app (rule ∷ rules) d a v =
      add_monitors-IsAsked policies app rules _ (λ r h. a r (inr h))
        (insert-IsAsked policies app rule d (a rule (inl refl)) v)

  monitors_from-IsAsked :
      (all policies : Dict AppPolicy) (d : Dict AppMonitor)
      → ((e : String × AppPolicy) → Holds e policies → Holds e all)
      → IsAsked default_secs all d
      → IsAsked default_secs all (monitors_from default_secs policies d)
  unfolding monitors_from Asked
  monitors_from-IsAsked all [] d sub v = v
  monitors_from-IsAsked all ((app, policy) ∷ policies) d sub v =
      monitors_from-IsAsked all policies _ (λ e h. sub e (inr h))
        (add_monitors-IsAsked all app policy.scaling_policy.scaling_rules d
          (λ rule h. (app, policy, rule, sub (app, policy) (inl refl), h, refl)) v)

  add_monitors_keeps :
      (app k : String) (rules : List ScalingRule) (d : Dict AppMonitor)
      → HasKey k d
      → HasKey k (add_monitors default_secs app rules d)
  unfolding add_monitors
  add_monitors_keeps app k [] d h = h
  add_monitors_keeps app k (rule ∷ rules) d h =
      add_monitors_keeps app k rules _ (insert_keeps (monitor_key app rule.metric_type) k _ d h)

  add_monitors_has :
      (app : String) (rule : ScalingRule) (rules : List ScalingRule) (d : Dict AppMonitor)
      → Holds rule rules
      → HasKey (monitor_key app rule.metric_type) (add_monitors default_secs app rules d)
  unfolding add_monitors
  add_monitors_has app rule [] d h = elim h [ ]
  add_monitors_has app rule (r ∷ rules) d (inl q) =
      subst
        (λ z. HasKey (monitor_key app z.metric_type) (add_monitors default_secs app (r ∷ rules) d))
        (sym q) (add_monitors_keeps app (monitor_key app r.metric_type) rules _ (insert_has _ _ d))
  add_monitors_has app rule (r ∷ rules) d (inr h) = add_monitors_has app rule rules _ h

  monitors_from_keeps :
      (k : String) (policies : Dict AppPolicy) (d : Dict AppMonitor)
      → HasKey k d
      → HasKey k (monitors_from default_secs policies d)
  unfolding monitors_from
  monitors_from_keeps k [] d h = h
  monitors_from_keeps k ((app, policy) ∷ policies) d h =
      monitors_from_keeps k policies _
        (add_monitors_keeps app k policy.scaling_policy.scaling_rules d h)

  monitors_from_has :
      (app : String) (policy : AppPolicy) (rule : ScalingRule) (policies : Dict AppPolicy)
      (d : Dict AppMonitor)
      → Holds (app, policy) policies
      → Holds rule policy.scaling_policy.scaling_rules
      → HasKey (monitor_key app rule.metric_type) (monitors_from default_secs policies d)
  unfolding monitors_from
  monitors_from_has app policy rule [] d h g = elim h [ ]
  monitors_from_has app policy rule ((a, p) ∷ policies) d (inl q) g =
      let q₀ : app ≡ a = ap (λ z. z.0) q in
      let g' = subst (λ z. Holds rule z.scaling_policy.scaling_rules) (ap (λ z. z.1) q) g in
      monitors_from_keeps (monitor_key app rule.metric_type) policies _ (
        subst
          (λ z.
            HasKey (monitor_key z rule.metric_type)
              (add_monitors default_secs a p.scaling_policy.scaling_rules d))
          (sym q₀) (add_monitors_has a rule p.scaling_policy.scaling_rules d g'))
  monitors_from_has app policy rule ((a, p) ∷ policies) d (inr h) g =
      monitors_from_has app policy rule policies _ h g

Holds-values :
    (m : AppMonitor) (d : Dict AppMonitor) → Holds m (values d) → (key : String) × Holds (key, m) d
Holds-values m [] h = elim h [ ]
Holds-values m ((key, v) ∷ d) (inl q) = (key, inl (ap (λ z. (key, z)) q))
Holds-values m ((key, v) ∷ d) (inr h) = let (k, g) = Holds-values m d h in (k, inr g)

values-Holds :
    (key : String) (m : AppMonitor) (d : Dict AppMonitor) → Holds (key, m) d → Holds m (values d)
values-Holds key m [] h = elim h [ ]
values-Holds key m ((k, v) ∷ d) (inl q) = inl (ap (λ z. z.1) q)
values-Holds key m ((k, v) ∷ d) (inr h) = inr (values-Holds key m d h)

-- Every monitor that a tick of startAggregating sends is of a rule of a policy, with the default window; and
-- for every rule of every policy it sends a monitor with the key of the rule's app and metric type.
pub aggregate_tick_lem :
    (default_secs : ℤ) (policies : Dict AppPolicy)
    → ((m : AppMonitor)
        → Holds m (aggregate_tick default_secs policies)
        → Asked default_secs policies m)
      × ((app : String) (policy : AppPolicy) (rule : ScalingRule)
          → Holds (app, policy) policies
          → Holds rule policy.scaling_policy.scaling_rules
          → (m : AppMonitor) × Holds m (aggregate_tick default_secs policies)
            × (monitor_key m.app_id m.metric_type ≡ monitor_key app rule.metric_type))
unfolding aggregate_tick get_app_monitors
aggregate_tick_lem default_secs policies =
    let v =
      monitors_from-IsAsked default_secs policies policies [] (λ e h. h)
        (record { asked = λ key m h. elim h [ ] }) in
    (
      λ m h.
          let (key, g) = Holds-values m (get_app_monitors default_secs policies) h in
          (v.asked key m g).0,
      λ app policy rule h g.
          let (m, k) = monitors_from_has default_secs app policy rule policies [] h g in
          (m, values-Holds _ m _ k, sym (v.asked _ m k).1),
    )
