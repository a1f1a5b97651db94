-- ===== src/EvaluationManager/Triggers.antt =====
-- Which triggers a tick sends.
use app_autoscaler.Prelude.{
  String, ◌≡◌, refl, sym, ◌∙◌, subst, true, false, ◌⊎◌, inl, inr, ◌↔◌, List, [], ◌∷◌, ◌++◌, str_eq,
  arith, Bool-cases, Holds, Holds-append_one, eq_iff,
}
use app_autoscaler.Prelude.Int.{ℤ}
use app_autoscaler.Prelude.Dict.{Dict, lookup, insert, lookup-insert}
use app_autoscaler.Models.{AppPolicy, ScalingRule, Trigger}
use app_autoscaler.EvaluationManager.{
  Manager, trigger_of, in_cooldown, found_or_empty, trigger_key, add_rules, add_policies,
  get_triggers,
}

-- A trigger among those of a key.
abbrev pub Sends : Dict (List Trigger) → String → Trigger → Type 0
Sends d key t = Holds t (found_or_empty (lookup key d))

-- A rule of the app that makes this trigger under this key.
abbrev pub Makes : String → List ScalingRule → String → Trigger → Type 0
Makes app [] key t = ⊥
Makes app (rule ∷ rules) key t =
    ((trigger_key app rule ≡ key) × (t ≡ trigger_of app rule)) ⊎ Makes app rules key t

clash : true ≡ false → ⊥
clash e = ground arith

module _ (cooldowns : Dict ℤ) (now : ℤ) where
  insert-Sends :
      (app key : String) (rule : ScalingRule) (d : Dict (List Trigger)) (t : Trigger)
      → Sends
          (insert
            (trigger_key app rule)
            (found_or_empty (lookup (trigger_key app rule) d) ++ trigger_of app rule ∷ [])
            d)
          key
          t
        ↔ (Sends d key t ⊎ ((trigger_key app rule ≡ key) × (t ≡ trigger_of app rule)))
  insert-Sends app key rule d t =
      let k = trigger_key app rule in
      let inserted =
        lookup-insert k key (found_or_empty (lookup k d) ++ trigger_of app rule ∷ []) d in
      let (out, into) = Holds-append_one t (trigger_of app rule) (found_or_empty (lookup k d)) in
      elim (Bool-cases (str_eq k key)) [
        | inl same ↦
            let at : k ≡ key = (eq_iff k key).0 same in
            rw (inserted, same)
              (
                λ h. elim (out h) [
                  | inl old ↦ inl (subst (λ z. Sends d z t) at old)
                  | inr e ↦ inr (at, e)
                ],
                elim [
                  | inl old ↦ into (inl (subst (λ z. Sends d z t) (sym at) old))
                  | inr (e, made) ↦ into (inr made)
                ],
              )
        | inr other ↦
            rw (inserted, other)
              (
                λ h. inl h,
                elim [
                  | inl old ↦ old
                  | inr (e, made) ↦ absurd (clash (sym ((eq_iff k key).1 e) ∙ other))
                ],
              )
      ]

  add_rules-Sends :
      (app key : String) (rules : List ScalingRule) (d : Dict (List Trigger)) (t : Trigger)
      → Sends (add_rules cooldowns now app rules d) key t
        ↔ (Sends d key t ⊎ ((in_cooldown cooldowns now app ≡ false) × Makes app rules key t))
  unfolding add_rules
  add_rules-Sends app key [] d t = (λ h. inl h, elim [ inl h ↦ h | inr (c, m) ↦ absurd m ])
  add_rules-Sends app key (rule ∷ rules) d t = elim (Bool-cases (in_cooldown cooldowns now app)) [
    | inl cooling ↦
        let (out, into) = add_rules-Sends app key rules d t in
        rw (add_rules, cooling)
          (
            λ h. elim (out h) [ inl old ↦ inl old | inr (c, m) ↦ absurd (clash (sym cooling ∙ c)) ],
            elim [ inl old ↦ into (inl old) | inr (c, m) ↦ absurd (clash c) ],
          )
    | inr free ↦
        let k = trigger_key app rule in
        let (out, into) =
          add_rules-Sends app key rules
            (insert k (found_or_empty (lookup k d) ++ trigger_of app rule ∷ []) d) t in
        let (out', into') = insert-Sends app key rule d t in
        rw (add_rules, free)
          (
            λ h. elim (out h) [
              | inl early ↦ elim (out' early) [
                | inl old ↦ inl old
                | inr made ↦ inr (refl, inl made)
              ]
              | inr (c, m) ↦ inr (refl, inr m)
            ],
            elim [
              | inl old ↦ into (inl (into' (inl old)))
              | inr (c, inl made) ↦ into (inl (into' (inr made)))
              | inr (c, inr m) ↦ into (inr (free, m))
            ],
          )
  ]

  -- A policy whose app is not in its cooldown and that has a rule for this trigger and key.
  abbrev pub Due : Dict AppPolicy → String → Trigger → Type 0
  Due [] key t = ⊥
  Due ((app, p) ∷ policies) key t =
      ((in_cooldown cooldowns now app ≡ false) × Makes app p.scaling_policy.scaling_rules key t)
      ⊎ Due policies key t

  add_policies-Sends :
      (policies : Dict AppPolicy) (d : Dict (List Trigger)) (key : String) (t : Trigger)
      → Sends (add_policies cooldowns now policies d) key t ↔ (Sends d key t ⊎ Due policies key t)
  unfolding add_policies
  add_policies-Sends [] d key t = (λ h. inl h, elim [ inl h ↦ h | inr m ↦ absurd m ])
  add_policies-Sends ((app, p) ∷ policies) d key t =
      let d' = add_rules cooldowns now app p.scaling_policy.scaling_rules d in
      let (out, into) = add_policies-Sends policies d' key t in
      let (out', into') = add_rules-Sends app key p.scaling_policy.scaling_rules d t in
      (
        λ h. elim (out h) [
          | inl early ↦ elim (out' early) [ inl old ↦ inl old | inr made ↦ inr (inl made) ]
          | inr m ↦ inr (inr m)
        ],
        elim [
          | inl old ↦ into (inl (into' (inl old)))
          | inr (inl made) ↦ into (inl (into' (inr made)))
          | inr (inr m) ↦ into (inr m)
        ],
      )

-- The triggers of a tick: a trigger is sent under a key exactly if some app that has a policy is not in its
-- cooldown, and the policy has a rule that makes this trigger and this key. So no app in its cooldown is
-- evaluated, and every rule of another is.
pub get_triggers_iff :
    {B : Type 0} (m : Manager B) (now : ℤ) (policies : Dict AppPolicy) (key : String) (t : Trigger)
    → Sends (get_triggers m now policies) key t ↔ Due m.cooldown_expired now policies key t
unfolding get_triggers lookup
get_triggers_iff m now policies key t =
    let (out, into) = add_policies-Sends m.cooldown_expired now policies [] key t in
    (λ h. elim (out h) [ inl none_yet ↦ absurd none_yet | inr due ↦ due ], λ due. into (inr due))
