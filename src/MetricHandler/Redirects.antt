-- ===== src/MetricHandler/Redirects.antt =====
-- Which node answers.
use app_autoscaler.Prelude.{
  ℕ, zero, suc, ◌%◌, ◌<◌, String, ◌≡◌, ◌≢◌, refl, ◌⊎◌, inl, inr, none, some, List, [], ◌∷◌, ◌==◌,
  ==_iff, length, get_elem?, arith, Bool-cases,
}
use native.Mathlib.Nat.{mod-lt}
use app_autoscaler.Prelude.Dict.{lookup}
use app_autoscaler.Hash.{fnv_hash}
use app_autoscaler.Http.Params.{is_not}
use app_autoscaler.Http.{Query, add_param, redirected}
use app_autoscaler.MetricHandler.{MetricHandler, redirect}

pub get_elem?-some :
    {A : Type 0} (xs : List A) (i : ℕ) → i < length xs → (x : A) × (get_elem? xs i ≡ some x)
get_elem?-some [] i h = elim h [ ]
get_elem?-some (x ∷ xs) zero h = (x, refl)
get_elem?-some (x ∷ xs) (suc i) h = get_elem?-some xs i (omega arith)

-- The node of an app.
abbrev pub owner : List String → String → ℕ
owner adds app = fnv_hash app % length adds

pub owner-lt-length :
    (adds : List String) (app : String) (i : ℕ) → i < length adds → owner adds app < length adds
owner-lt-length adds app i h = mod-lt (fnv_hash app) (omega arith)

abbrev pub node : List String → ℕ → MetricHandler
node adds i = record { node_index = i; node_adds = adds }

-- A request that comes from another node is not sent on.
pub redirect_referred :
    (adds : List String) (app : String) (i : ℕ) (q : Query) (values : List String)
    → lookup "referer" q ≡ some values
    → redirect (node adds i) app q ≡ none
unfolding redirect
redirect_referred adds app i q values e = rw (redirect, e) refl

-- Any other is sent on by all nodes but the one of the app, and to that.
pub redirect_first :
    (adds : List String) (app : String) (i : ℕ) (q : Query)
    → lookup "referer" q ≡ none
    → i < length adds
    → ((owner adds app ≡ i) × (redirect (node adds i) app q ≡ none))
      ⊎ ((owner adds app ≢ i)
          × (self host : String) × (get_elem? adds i ≡ some self)
          × (get_elem? adds (owner adds app) ≡ some host)
          × (redirect (node adds i) app q ≡ some (redirected host (add_param "referer" self q))))
unfolding redirect
redirect_first [] app i q e h = absurd (omega arith)
redirect_first (a ∷ adds) app i q e h =
    let o = owner (a ∷ adds) app in
    let (self, s) = get_elem?-some (a ∷ adds) i h in
    let (host, t) = get_elem?-some (a ∷ adds) o (owner-lt-length (a ∷ adds) app i h) in
    elim (Bool-cases (o == i)) [
      | inl same ↦ inl ((==_iff o i).0 same, rw (redirect, e, same) refl)
      | inr other ↦ inr (
        λ k. is_not ((==_iff o i).1 k) other,
        self,
        host,
        s,
        t,
        rw (redirect, e, other, s, t) refl,
      )
    ]
