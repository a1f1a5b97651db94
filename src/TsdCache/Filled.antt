-- ===== src/TsdCache/Filled.antt =====
-- A cache that is what a sequence of puts leaves of the empty one.
use app_autoscaler.Prelude.{
  ℕ, suc, ◌≡◌, refl, sym, ◌∙◌, inl, inr, Option, none, some, List, [], ◌∷◌, ◌++◌, Option-cases,
}
use app_autoscaler.TsdCache.{Tsd, TsdCache, put, new_tsd_cache, ◌>>=◌}
use app_autoscaler.TsdCache.History.{put_all, put_all_new}

module _ {A : Type 0} ⦃tsd : Tsd A⦄ where
  abbrev pub Filled : ℕ → List A → TsdCache A → Type 0
  Filled n ds c = (new_tsd_cache (suc n) >>= λ c₀. put_all c₀ ds) ≡ some c

  bind_some : (o : Option (TsdCache A)) → (o >>= λ z. some z) ≡ o
  bind_some none = refl
  bind_some (some z) = refl

  put_all-append :
      (c : TsdCache A) (xs ys : List A)
      → put_all c (xs ++ ys) ≡ (put_all c xs >>= λ c'. put_all c' ys)
  put_all-append c [] ys = refl
  put_all-append c (x ∷ xs) ys = elim (Option-cases (put c x)) [
    | inl e ↦ rw e refl
    | inr (c', e) ↦ rw e (put_all-append c' xs ys)
  ]

  pub new-Filled : (n : ℕ) → (c : TsdCache A) × (new_tsd_cache (suc n) ≡ some c) × Filled n [] c
  unfolding new_tsd_cache
  new-Filled n = (_, refl, refl)

  -- A further put goes through.
  pub put-Filled :
      (n : ℕ) (ds : List A) (c : TsdCache A) (d : A)
      → Filled n ds c
      → (c' : TsdCache A) × (put c d ≡ some c') × Filled n (ds ++ d ∷ []) c'
  put-Filled n ds c d f =
      let (c₀, e₀, _) = new-Filled n in
      let held : put_all c₀ ds ≡ some c = rw e₀ at f in
      let (c', e, _, _, _) = put_all_new n (ds ++ d ∷ []) in
      let e' : put_all c₀ (ds ++ d ∷ []) ≡ some c' = rw e₀ at e in
      let split : put_all c₀ (ds ++ d ∷ []) ≡ (put c d >>= λ z. some z) =
        rw held at (put_all-append c₀ ds (d ∷ [])) in
      (c', sym (bind_some (put c d)) ∙ sym split ∙ e', e)
