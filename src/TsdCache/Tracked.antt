-- ===== src/TsdCache/Tracked.antt =====
-- The caches of several apps, each of them what a sequence of puts leaves of an empty one.
use app_autoscaler.Prelude.{
  ℕ, String, ◌≡◌, sym, ◌∙◌, subst, inl, inr, some, List, [], ◌∷◌, ◌++◌, str_eq, if◌then◌else◌,
  Bool-cases, eq_iff, some_inj,
}
use app_autoscaler.Prelude.Dict.{Dict, lookup, insert, lookup-insert, insert_same, insert_other}
use app_autoscaler.TsdCache.{Tsd, TsdCache, put}
use app_autoscaler.TsdCache.Filled.{Filled, put-Filled}

module _ {A : Type 0} ⦃tsd : Tsd A⦄ where
  pub record AllFilled (n : ℕ) (caches : Dict (TsdCache A)) : Type 0 where
    pub made :
        (app : String) (c : TsdCache A) → lookup app caches ≡ some c → (ds : List A) × Filled n ds c

  -- The cache of an app is what the points leave of an empty one.
  abbrev pub Tracks : ℕ → String → List A → Dict (TsdCache A) → Type 0
  Tracks n app ds caches = (c : TsdCache A) × (lookup app caches ≡ some c) × Filled n ds c

  pub insert-AllFilled :
      (n : ℕ) (id : String) (c : TsdCache A) (ds : List A) (caches : Dict (TsdCache A))
      → Filled n ds c
      → AllFilled n caches
      → AllFilled n (insert id c caches)
  insert-AllFilled n id c ds caches f all = record {
    made = λ app d l. elim (Bool-cases (str_eq id app)) [
      | inl same ↦ (
        ds,
        subst (Filled n ds) (some_inj (sym (rw same at (lookup-insert id app c caches)) ∙ l)) f,
      )
      | inr other ↦ all.made app d (sym (rw other at (lookup-insert id app c caches)) ∙ l)
    ];
  }

  -- A put into the cache of an app goes through, and the other caches are not changed.
  pub put-Tracks :
      (n : ℕ) (id : String) (d : A) (caches : Dict (TsdCache A)) (c : TsdCache A)
      → AllFilled n caches
      → lookup id caches ≡ some c
      → (c' : TsdCache A) × (put c d ≡ some c')
        × AllFilled n (insert id c' caches)
        × ((app : String) (ds : List A)
            → Tracks n app ds caches
            → Tracks n app (if str_eq id app then ds ++ d ∷ [] else ds) (insert id c' caches))
  put-Tracks n id d caches c₀ all p =
      let (ds₀, f₀) = all.made id c₀ p in
      let (c', e, f') = put-Filled n ds₀ c₀ d f₀ in
      (
        c',
        e,
        insert-AllFilled n id c' (ds₀ ++ d ∷ []) caches f' all,
        λ app ds (c, l, f). elim (Bool-cases (str_eq id app)) [
          | inl same ↦
              let l' = subst (λ z. lookup z caches ≡ some c₀) ((eq_iff id app).0 same) p in
              let f₁ : Filled n ds c₀ = subst (Filled n ds) (some_inj (sym l ∙ l')) f in
              let (c₁, e₁, f₂) = put-Filled n ds c₀ d f₁ in
              let here = insert_same id app c' caches same in
              (c', here, rw same (subst (Filled n (ds ++ d ∷ [])) (some_inj (sym e₁ ∙ e)) f₂))
          | inr other ↦ (c, insert_other id app c' caches other ∙ l, rw other f)
        ],
      )
