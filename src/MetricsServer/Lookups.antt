-- ===== src/MetricsServer/Lookups.antt =====
-- Which caches a refresh keeps and adds.
use app_autoscaler.Prelude.{
  ℕ, suc, String, ◌≡◌, refl, sym, ◌∙◌, subst, inl, inr, true, false, none, some, List, [], ◌∷◌,
  str_eq, if◌then◌else◌, arith, Bool-cases, Option-cases, eq_iff,
}
use app_autoscaler.Prelude.Dict.{Dict, lookup, insert, insert_same, insert_other}
use app_autoscaler.Models.{AppInstanceMetric}
use app_autoscaler.TsdCache.{TsdCache}
use app_autoscaler.TsdCache.Filled.{Filled, new-Filled}
use app_autoscaler.TsdCache.Tracked.{AllFilled, insert-AllFilled}
use app_autoscaler.InstanceMetrics.{instance_metric_tsd}
use app_autoscaler.MetricsServer.{is_in, keep_caches, add_caches}

abbrev pub Caches : Type 0
Caches = Dict (TsdCache AppInstanceMetric)

lookup-keep :
    (ids : List String) (app : String) (caches : Caches)
    → lookup app (keep_caches ids caches) ≡ (if is_in app ids then lookup app caches else none)
unfolding lookup
lookup-keep ids app [] = ground arith
lookup-keep ids app ((a, c) ∷ caches) = elim (Bool-cases (is_in a ids)) [
  | inl k ↦ elim (Bool-cases (str_eq a app)) [
    | inl same ↦
        let k' : is_in app ids ≡ true = subst (λ z. is_in z ids ≡ true) ((eq_iff a app).0 same) k in
        rw (k, lookup, same, k') refl
    | inr other ↦ rw (k, lookup, other) (lookup-keep ids app caches)
  ]
  | inr k ↦ elim (Bool-cases (str_eq a app)) [
    | inl same ↦
        let k' : is_in app ids ≡ false =
          subst (λ z. is_in z ids ≡ false) ((eq_iff a app).0 same) k in
        rw k (lookup-keep ids app caches ∙ rw k' refl)
    | inr other ↦ rw k (lookup-keep ids app caches ∙ rw other refl)
  ]
]

-- What the loop over the apps leaves.
pub record Adds (n : ℕ) (ids : List String) (caches caches' : Caches) : Type 0 where
  pub filled : AllFilled n caches'
  pub kept :
      (app : String) (c : TsdCache AppInstanceMetric)
      → lookup app caches ≡ some c
      → lookup app caches' ≡ some c
  pub added :
      (app : String)
      → is_in app ids ≡ true
      → lookup app caches ≡ none
      → (c : TsdCache AppInstanceMetric) × (lookup app caches' ≡ some c) × Filled n [] c
  pub others :
      (app : String) → is_in app ids ≡ false → lookup app caches ≡ none → lookup app caches' ≡ none

clash :
    {A : Type 0} (id app : String) (caches : Dict A) (c : A)
    → str_eq id app ≡ true
    → lookup id caches ≡ some c
    → lookup app caches ≡ none
    → ⊥
clash id app caches c same p l =
    let q = subst (λ z. lookup z caches ≡ some c) ((eq_iff id app).0 same) p in ground arith

module _ (n : ℕ) (id : String) (ids : List String) (caches caches' : Caches) where
  add_present :
      (c : TsdCache AppInstanceMetric)
      → lookup id caches ≡ some c
      → Adds n ids caches caches'
      → Adds n (id ∷ ids) caches caches'
  add_present c p a = record {
    filled = a.filled;
    kept = a.kept;
    added = λ app h l. elim (Bool-cases (str_eq id app)) [
      | inl same ↦ absurd (clash id app caches c same p l)
      | inr other ↦ a.added app (rw other at h) l
    ];
    others = λ app h l. elim (Bool-cases (str_eq id app)) [
      | inl same ↦ absurd (clash id app caches c same p l)
      | inr other ↦ a.others app (rw other at h) l
    ];
  }

  add_absent :
      (c : TsdCache AppInstanceMetric)
      → lookup id caches ≡ none
      → Filled n [] c
      → Adds n ids (insert id c caches) caches'
      → Adds n (id ∷ ids) caches caches'
  add_absent c p f a = record {
    filled = a.filled;
    kept = λ app d l. elim (Bool-cases (str_eq id app)) [
      | inl same ↦
          let q = subst (λ z. lookup z caches ≡ none) ((eq_iff id app).0 same) p in ground arith
      | inr other ↦ a.kept app d (insert_other id app c caches other ∙ l)
    ];
    added = λ app h l. elim (Bool-cases (str_eq id app)) [
      | inl same ↦ (c, a.kept app c (insert_same id app c caches same), f)
      | inr other ↦ a.added app (rw other at h) (insert_other id app c caches other ∙ l)
    ];
    others = λ app h l. elim (Bool-cases (str_eq id app)) [
      | inl same ↦ let t : true ≡ false = rw same at h in cc
      | inr other ↦ a.others app (rw other at h) (insert_other id app c caches other ∙ l)
    ];
  }

pub add_caches_lem :
    (n : ℕ) (ids : List String) (caches : Caches)
    → AllFilled n caches
    → (caches' : Caches) × (add_caches (suc n) ids caches ≡ some caches')
      × Adds n ids caches caches'
add_caches_lem n [] caches all = (
  caches,
  refl,
  record {
    filled = all;
    kept = λ app c l. l;
    added = λ app h l. ground arith;
    others = λ app h l. l;
  },
)
add_caches_lem n (id ∷ ids) caches all = elim (Option-cases (lookup id caches)) [
  | inr (c, p) ↦
      let (caches', e, a) = add_caches_lem n ids caches all in
      (caches', rw (add_caches, p) e, add_present n id ids caches caches' c p a)
  | inl p ↦
      let (c, made, f) = new-Filled {A = AppInstanceMetric} n in
      let (caches', e, a) =
        add_caches_lem n ids (insert id c caches) (insert-AllFilled n id c [] caches f all) in
      (caches', rw (add_caches, p, made) e, add_absent n id ids caches caches' c p f a)
]

pub keep-AllFilled :
    (n : ℕ) (ids : List String) (caches : Caches)
    → AllFilled n caches
    → AllFilled n (keep_caches ids caches)
keep-AllFilled n ids caches all = record {
  made = λ app c l. elim (Bool-cases (is_in app ids)) [
    | inl k ↦ all.made app c (sym (rw k at (lookup-keep ids app caches)) ∙ l)
    | inr k ↦ let q = sym (rw k at (lookup-keep ids app caches)) ∙ l in ground arith
  ];
}

pub keep_kept :
    (ids : List String) (app : String) (caches : Caches)
    → is_in app ids ≡ true
    → lookup app (keep_caches ids caches) ≡ lookup app caches
keep_kept ids app caches k = lookup-keep ids app caches ∙ rw k refl
