-- ===== src/Forwarder/Shared.antt =====
-- What RefreshAllowedMetricCache of metricsforwarder/manager/policyManager.go allows.
use app_autoscaler.Prelude.{
  String, ◌≡◌, refl, ap, sym, subst, true, inl, inr, Option, none, some, List, [], ◌∷◌, str_eq,
  arith, Bool-cases, Option-cases, Holds, eq_iff, eq_refl,
}
use app_autoscaler.Prelude.Dict.{Dict, lookup}
use app_autoscaler.Models.{Error, ScalingRule, AppPolicy}
use app_autoscaler.Forwarder.{
  Caches, contains, add_rule_types, replace_types, share_types, refresh_allowed_metric_cache,
}

add_rule_types_keeps :
    (rules : List ScalingRule) (types : List String) (name : String)
    → contains name types ≡ true
    → contains name (add_rule_types rules types) ≡ true
add_rule_types_keeps [] types name h = h
add_rule_types_keeps (r ∷ rs) types name h =
    add_rule_types_keeps rs (r.metric_type ∷ types) name (ground arith)

add_rule_types_adds :
    (rules : List ScalingRule) (types : List String) (r : ScalingRule)
    → Holds r rules
    → contains r.metric_type (add_rule_types rules types) ≡ true
add_rule_types_adds [] types r h = absurd h
add_rule_types_adds (x ∷ xs) types r (inl e) =
    add_rule_types_keeps xs (x.metric_type ∷ types) r.metric_type
      (rw (ap (λ (z : ScalingRule). z.metric_type) e, eq_refl x.metric_type) refl)
add_rule_types_adds (x ∷ xs) types r (inr h) = add_rule_types_adds xs (x.metric_type ∷ types) r h

module _ (policies : Dict AppPolicy) (fails : String → Option Error)
    (calm : (app : String) → fails app ≡ none) where
  replace_types_keeps :
      (entries : Dict (List String)) (types : List String) (name : String)
      → contains name types ≡ true
      → contains name (replace_types policies fails entries types).0 ≡ true
  unfolding replace_types
  replace_types_keeps [] types name h = h
  replace_types_keeps ((app, old) ∷ entries) types name h =
      elim (Option-cases (lookup app policies)) [
        | inl e ↦ rw (replace_types, e) (replace_types_keeps entries types name h)
        | inr (p, e) ↦
            rw (replace_types, e, calm app)
              (replace_types_keeps entries (add_rule_types p.scaling_policy.scaling_rules types)
                name (add_rule_types_keeps p.scaling_policy.scaling_rules types name h))
      ]

  -- The set has the types of every cached app that has a policy.
  replace_types_adds :
      (entries : Dict (List String)) (types : List String) (app : String) (old : List String)
      (p : AppPolicy) (r : ScalingRule)
      → lookup app entries ≡ some old
      → lookup app policies ≡ some p
      → Holds r p.scaling_policy.scaling_rules
      → (contains r.metric_type (replace_types policies fails entries types).0 ≡ true)
        × (contains app (replace_types policies fails entries types).1 ≡ true)
  unfolding replace_types lookup
  replace_types_adds [] types app old p r l e h = absurd (ground arith)
  replace_types_adds ((a, o) ∷ entries) types app old p r l e h = elim (Bool-cases (str_eq a app)) [
    | inl same ↦
        let e' : lookup a policies ≡ some p =
          subst (λ z. lookup z policies ≡ some p) (sym ((eq_iff a app).0 same)) e in
        rw (replace_types, e', calm a, same)
          (
            replace_types_keeps entries (add_rule_types p.scaling_policy.scaling_rules types)
                r.metric_type (add_rule_types_adds p.scaling_policy.scaling_rules types r h),
            refl,
          )
    | inr other ↦
        let l' : lookup app entries ≡ some old = rw other at l in
        elim (Option-cases (lookup a policies)) [
          | inl f ↦ rw (replace_types, f) (replace_types_adds entries types app old p r l' e h)
          | inr (q, f) ↦
              rw (replace_types, f, calm a, other)
                (replace_types_adds entries (add_rule_types q.scaling_policy.scaling_rules types)
                  app old p r l' e h)
        ]
  ]

share_types_found :
    (replaced types : List String) (entries : Dict (List String)) (app : String) (old : List String)
    → lookup app entries ≡ some old
    → contains app replaced ≡ true
    → lookup app (share_types replaced types entries) ≡ some types
unfolding lookup
share_types_found replaced types [] app old l h = absurd (ground arith)
share_types_found replaced types ((a, o) ∷ entries) app old l h = elim (Bool-cases (str_eq a app)) [
  | inl same ↦
      let h' : contains a replaced ≡ true =
        subst (λ z. contains z replaced ≡ true) (sym ((eq_iff a app).0 same)) h in
      rw (same, h') refl
  | inr other ↦ rw other (share_types_found replaced types entries app old (rw other at l) h)
]

-- If no entry expires meanwhile, then after `RefreshAllowedMetricCache` every cached app that has a policy
-- with a rule is allowed the metric types of every cached app that has a policy, its own and those of
-- the others.
pub refresh_shares :
    (policies : Dict AppPolicy) (fails : String → Option Error) (c : Caches) (app other : String)
    (old old' : List String) (p p' : AppPolicy) (r r' : ScalingRule)
    → ((a : String) → fails a ≡ none)
    → lookup app c.allowed_metric_cache ≡ some old
    → lookup app policies ≡ some p
    → Holds r p.scaling_policy.scaling_rules
    → lookup other c.allowed_metric_cache ≡ some old'
    → lookup other policies ≡ some p'
    → Holds r' p'.scaling_policy.scaling_rules
    → (types : List String) × (lookup app
          (refresh_allowed_metric_cache policies fails c).0.allowed_metric_cache
        ≡ some types)
      × (contains r.metric_type types ≡ true)
      × (contains r'.metric_type types ≡ true)
unfolding refresh_allowed_metric_cache
refresh_shares policies fails c app other old old' p p' r r' calm l e h l' e' h' =
    let (own, replaced) =
      replace_types_adds policies fails calm c.allowed_metric_cache [] app old p r l e h in
    let (others, replaced') =
      replace_types_adds policies fails calm c.allowed_metric_cache [] other old' p' r' l' e' h' in
    (
      (replace_types policies fails c.allowed_metric_cache []).0,
      share_types_found _ _ c.allowed_metric_cache app old l replaced,
      own,
      others,
    )
