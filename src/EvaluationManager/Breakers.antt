-- ===== src/EvaluationManager/Breakers.antt =====
-- Which breakers a tick leaves.
use app_autoscaler.Prelude.{
  String, ◌≡◌, refl, ap, ◌∙◌, ◌⊎◌, inl, inr, none, some, [], ◌∷◌, str_eq, Bool-cases, Option-cases,
  eq_iff,
}
use app_autoscaler.Prelude.Int.{ℤ}
use app_autoscaler.Prelude.Dict.{Dict, lookup, insert, lookup-insert}
use app_autoscaler.Models.{AppPolicy}
use app_autoscaler.EvaluationManager.{Manager, next_breakers, found_or, tick, get_breaker}

module _ {B : Type 0} (fresh : String → B) where
  next_breakers_lem :
      (old : Dict B) (policies : Dict AppPolicy) (new : Dict B) (app : String)
      → (lookup app new ≡ none) ⊎ (lookup app new ≡ some (found_or (lookup app old) (fresh app)))
      → lookup app (next_breakers fresh old policies new) ≡ (elim (lookup app policies) [
        | none ↦ lookup app new
        | some p ↦ some (found_or (lookup app old) (fresh app))
      ])
  unfolding next_breakers lookup
  next_breakers_lem old [] new app h = refl
  next_breakers_lem old ((a, p) ∷ policies) new app h =
      let b = found_or (lookup a old) (fresh a) in
      let inserted = lookup-insert a app b new in
      elim (Bool-cases (str_eq a app)) [
        | inl same ↦
            let hit : lookup app (insert a b new) ≡ some (found_or (lookup app old) (fresh app)) =
              inserted
              ∙ rw same
                  (ap (λ z. some (found_or (lookup z old) (fresh z))) ((eq_iff a app).0 same)) in
            let rest = next_breakers_lem old policies (insert a b new) app (inr hit) in
            rw same (elim (Option-cases (lookup app policies)) [
              | inl e ↦ rest ∙ rw e hit
              | inr (q, e) ↦ rest ∙ rw e refl
            ])
        | inr other ↦
            let kept : lookup app (insert a b new) ≡ lookup app new = inserted ∙ rw other refl in
            let rest = next_breakers_lem old policies (insert a b new) app (rw kept h) in
            rw other (elim (Option-cases (lookup app policies)) [
              | inl e ↦ rest ∙ rw (e, kept) refl
              | inr (q, e) ↦ rest ∙ rw e refl
            ])
      ]

  -- After a tick an app has a breaker exactly if it has a policy: the one that it had, or else a fresh
  -- one. The cooldowns stay.
  pub tick_breakers :
      (now : ℤ) (policies : Dict AppPolicy) (m : Manager B) (app : String)
      → (get_breaker (tick fresh now policies m).0 app ≡ (elim (lookup app policies) [
        | none ↦ none
        | some p ↦ some (found_or (get_breaker m app) (fresh app))
      ]))
        × ((tick fresh now policies m).0.cooldown_expired ≡ m.cooldown_expired)
  unfolding tick get_breaker lookup
  tick_breakers now policies m app = (next_breakers_lem m.breakers policies [] app (inl refl), refl)
