-- ===== src/Http/Params.antt =====
-- What the values of a query string mean, and that the parsing decides it.
use app_autoscaler.Prelude.{
  String, ◌≡◌, refl, sym, ◌∙◌, subst, ◌⊎◌, inl, inr, Bool, true, false, none, some, List, [], ◌∷◌,
  arith, Bool-cases, Option-cases,
}
use app_autoscaler.Prelude.Int.{ℤ}
use app_autoscaler.Strconv.{◌⧺◌, parse_int, eq_upper}
use app_autoscaler.EngineDb.{OrderType, asc, desc}
use app_autoscaler.Http.{Checked, good, bad, time_param, order_param, order_message}

-- A check gives a value with the meaning, or refuses, and then no value has it.
abbrev pub Decides {ℓ} : {A : Type ℓ} → (A → Type ℓ) → Checked A → Type ℓ
Decides {A = A} P c =
    ((a : A) × (c ≡ good a) × P a) ⊎ ((text : String) × (c ≡ bad text) × ((a : A) → P a → ⊥))

-- The time that the values of a parameter stand for.
unfoldable pub MeansTime : ℤ → List String → ℤ → Type 0
MeansTime default values t =
    ((values ≡ []) × (t ≡ default)) ⊎ ((s : String) × (values ≡ s ∷ []) × (parse_int 64 s ≡ some t))

-- The order that they stand for.
unfoldable pub MeansOrder : OrderType → List String → OrderType → Type 0
MeansOrder default values o =
    ((values ≡ []) × (o ≡ default))
    ⊎ ((s : String) × (values ≡ s ∷ [])
        × (((eq_upper s "DESC" ≡ true) × (o ≡ desc))
            ⊎ ((eq_upper s "DESC" ≡ false) × (eq_upper s "ASC" ≡ true) × (o ≡ asc))))

none≢some : {A : Type 0} {a : A} → none ≡ some a → ⊥
none≢some e = ground arith

pub one_of : {s t : String} → s ∷ [] ≡ t ∷ [] → s ≡ t
one_of e = cc

pub decide_time :
    (name : String) (default : ℤ) (values : List String)
    → Decides (MeansTime default values) (time_param name default values)
unfolding time_param MeansTime
decide_time name default [] = inl (default, refl, inl (refl, refl))
decide_time name default (s ∷ []) = elim (Option-cases (parse_int 64 s)) [
  | inr (t, e) ↦ inl (t, rw (time_param, e) refl, inr (s, refl, e))
  | inl e ↦ inr (
    "Error parsing " ⧺ name ⧺ " time",
    rw (time_param, e) refl,
    λ a m. elim m [
      | inl (k, l) ↦ ground arith
      | inr (u, k, l) ↦ none≢some (sym e ∙ subst (λ z. parse_int 64 z ≡ some a) (sym (one_of k)) l)
    ],
  )
]
decide_time name default (s ∷ t ∷ more) =
    inr (_, refl, λ a m. elim m [ inl (k, l) ↦ ground arith | inr (u, k, l) ↦ ground arith ])

pub is_not : {b : Bool} → b ≡ true → b ≡ false → ⊥
is_not h k = cc

pub decide_order :
    (quote : String) (default : OrderType) (values : List String)
    → Decides (MeansOrder default values) (order_param quote default values)
unfolding order_param MeansOrder
decide_order quote default [] = inl (default, refl, inl (refl, refl))
decide_order quote default (s ∷ []) = elim (Bool-cases (eq_upper s "DESC")) [
  | inl d ↦ inl (desc, rw (order_param, d) refl, inr (s, refl, inl (d, refl)))
  | inr d ↦ elim (Bool-cases (eq_upper s "ASC")) [
    | inl e ↦ inl (asc, rw (order_param, d, e) refl, inr (s, refl, inr (d, e, refl)))
    | inr e ↦ inr (
      order_message quote,
      rw (order_param, d, e) refl,
      λ a m. elim m [
        | inl (k, l) ↦ ground arith
        | inr (u, k, inl (h, l)) ↦
            is_not (subst (λ z. eq_upper z "DESC" ≡ true) (sym (one_of k)) h) d
        | inr (u, k, inr (g, h, l)) ↦
            is_not (subst (λ z. eq_upper z "ASC" ≡ true) (sym (one_of k)) h) e
      ],
    )
  ]
]
decide_order quote default (s ∷ t ∷ more) =
    inr (_, refl, λ a m. elim m [ inl (k, l) ↦ ground arith | inr (u, k, l) ↦ ground arith ])

-- What a query means is what the parsing takes.
pub time_param-MeansTime :
    (name : String) (default t : ℤ) (values : List String)
    → MeansTime default values t
    → time_param name default values ≡ good t
unfolding time_param MeansTime
time_param-MeansTime name default t values (inl (k, l)) = rw (k, l) refl
time_param-MeansTime name default t values (inr (s, k, l)) = rw k (rw (time_param, l) refl)

pub order_param-MeansOrder :
    (quote : String) (default o : OrderType) (values : List String)
    → MeansOrder default values o
    → order_param quote default values ≡ good o
unfolding order_param MeansOrder
order_param-MeansOrder quote default o values (inl (k, l)) = rw (k, l) refl
order_param-MeansOrder quote default o values (inr (s, k, inl (d, l))) =
    rw (k, l) (rw (order_param, d) refl)
order_param-MeansOrder quote default o values (inr (s, k, inr (d, e, l))) =
    rw (k, l) (rw (order_param, d, e) refl)
