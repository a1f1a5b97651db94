-- ===== src/Operator/Prunes.antt =====
-- Which policies operator/applicationsyncer.go deletes.
use app_autoscaler.Prelude.{
  String, ◌≡◌, refl, sym, ◌∙◌, subst, ◌⊎◌, inl, inr, Option, none, some, List, [], ◌∷◌, str_eq,
  Bool-cases, Option-cases, Holds, arith, eq_iff, eq_refl,
}
use app_autoscaler.Prelude.Dict.{lookup, remove, lookup-remove}
use app_autoscaler.Models.{Error, Result, AppEntity}
use app_autoscaler.Operator.{Policies, app_ids, get_app_ids, delete_policy, is_gone, prune, operate}

none≢some : {V : Type 0} {v : V} → none ≡ some v → ⊥
none≢some e = ground arith

-- The policy of an app is as it was, or it is deleted and the app does not exist.
pub Pruned : (String → Result AppEntity) → String → Policies → Policies → Type 0
Pruned get_app app before after =
    (lookup app after ≡ lookup app before)
    ⊎ ((lookup app after ≡ none) × (text : String) × (is_gone (get_app app) ≡ some text))

module _ (get_app : String → Result AppEntity) (delete_fails : String → Option Error) where
  prune-Pruned :
      (apps : List String) (policies : Policies) (app : String)
      → Pruned get_app app policies (prune get_app delete_fails apps policies)
  unfolding prune delete_policy Pruned
  prune-Pruned [] policies app = inl refl
  prune-Pruned (a ∷ apps) policies app = elim (Option-cases (is_gone (get_app a))) [
    | inl e ↦ rw (prune, e) (prune-Pruned apps policies app)
    | inr (text, e) ↦ elim (Option-cases (delete_fails a)) [
      | inr (x, f) ↦ rw (prune, e, f) (inl refl)
      | inl f ↦
          rw (prune, e, f)
            (elim (prune-Pruned apps (remove a policies) app) [
              | inr gone ↦ inr gone
              | inl same ↦ elim (Bool-cases (str_eq a app)) [
                | inr other ↦ inl (same ∙ lookup-remove a app policies ∙ rw other refl)
                | inl here ↦ inr (
                  same ∙ lookup-remove a app policies ∙ rw here refl,
                  text,
                  subst (λ z. is_gone (get_app z) ≡ some text) ((eq_iff a app).0 here) e,
                )
              ]
            ])
    ]
  ]

  -- An app without a policy stays so.
  prune_missing :
      (apps : List String) (policies : Policies) (app : String)
      → lookup app policies ≡ none
      → lookup app (prune get_app delete_fails apps policies) ≡ none
  unfolding Pruned
  prune_missing apps policies app n = elim (prune-Pruned apps policies app) [
    | inl same ↦ same ∙ n
    | inr (gone, why, is) ↦ gone
  ]

  prune_gone :
      (apps : List String) (policies : Policies) (app text : String)
      → ((a : String) → delete_fails a ≡ none)
      → Holds app apps
      → is_gone (get_app app) ≡ some text
      → lookup app (prune get_app delete_fails apps policies) ≡ none
  unfolding prune delete_policy
  prune_gone [] policies app text calm h g = absurd h
  prune_gone (a ∷ apps) policies app text calm (inl same) g =
      let e : is_gone (get_app a) ≡ some text =
        subst (λ z. is_gone (get_app z) ≡ some text) same g in
      rw (prune, e, calm a)
        (prune_missing apps (remove a policies) app
          (lookup-remove a app policies ∙ rw (same, eq_refl a) refl))
  prune_gone (a ∷ apps) policies app text calm (inr h) g =
      elim (Option-cases (is_gone (get_app a))) [
        | inl e ↦ rw (prune, e) (prune_gone apps policies app text calm h g)
        | inr (t, e) ↦ rw (prune, e, calm a) (prune_gone apps (remove a policies) app text calm h g)
      ]

  Holds-app_ids :
      (policies : Policies) (app policy : String)
      → lookup app policies ≡ some policy
      → Holds app (app_ids policies)
  unfolding lookup
  Holds-app_ids [] app policy l = absurd (none≢some l)
  Holds-app_ids ((a, p) ∷ policies) app policy l = elim (Bool-cases (str_eq a app)) [
    | inl same ↦ inl (sym ((eq_iff a app).0 same))
    | inr other ↦ inr (Holds-app_ids policies app policy (rw other at l))
  ]

  -- Whatever fails, `Operate` leaves the policy of an app as it is, or deletes it and the cloud controller
  -- says that the app does not exist.
  pub operate-Pruned :
      (fault : Option Error) (policies : Policies) (app : String)
      → Pruned get_app app policies (operate get_app delete_fails fault policies)
  unfolding operate get_app_ids Pruned
  operate-Pruned (some e) policies app = inl refl
  operate-Pruned none policies app = prune-Pruned (app_ids policies) policies app

  -- If the app ids are read and no deletion fails, then after `Operate` no app of which the cloud controller
  -- says that it does not exist has a policy, whatever other errors it answers for other apps.
  pub operate_clears :
      (policies : Policies) (app text : String)
      → ((a : String) → delete_fails a ≡ none)
      → is_gone (get_app app) ≡ some text
      → lookup app (operate get_app delete_fails none policies) ≡ none
  unfolding operate get_app_ids
  operate_clears policies app text calm g = elim (Option-cases (lookup app policies)) [
    | inl n ↦ prune_missing (app_ids policies) policies app n
    | inr (policy, l) ↦
        prune_gone (app_ids policies) policies app text calm (Holds-app_ids policies app policy l) g
  ]
