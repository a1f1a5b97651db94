-- ===== src/ScalingServer/Histories.antt =====
-- What GetScalingHistories answers to any query string.
use app_autoscaler.Prelude.{
  String, ◌≡◌, refl, sym, subst, ◌↔◌, ◌⊎◌, inl, inr, Bool, true, false, not, ◌||◌, Option, List, [],
  ◌∷◌, Holds, arith, Bool-cases, if◌then◌else◌,
}
use app_autoscaler.Prelude.Int.{ℤ, pos, negsuc, ltb_ℤ}
use app_autoscaler.Strconv.{eq_lower}
use app_autoscaler.Models.{AppScalingHistory}
use app_autoscaler.EngineDb.{EngineDb, no_faults, OrderType, desc, is_ignored, in_range}
use app_autoscaler.EngineDb.Retrieve.{IsOrdered, retrieve_lem}
use app_autoscaler.Http.{Query, param, refused, write_json, or_refuse}
use app_autoscaler.Http.Params.{
  Decides, MeansTime, MeansOrder, decide_time, decide_order, one_of, is_not,
}
use app_autoscaler.ScalingServer.{include_param, histories_params, get_scaling_histories}

-- Whether the values of include ask for the ignored histories.
pub MeansInclude : List String → Bool → Type 0
MeansInclude values b =
    ((values ≡ []) × (b ≡ false))
    ⊎ ((s : String) × (values ≡ s ∷ []) × (eq_lower s "all" ≡ true) × (b ≡ true))

-- What a query string asks for.
pub record Asks (q : Query) (start end : ℤ) (order : OrderType) (include_all : Bool) : Type 0 where
  pub at_start : MeansTime (pos 0) (param "start" q) start
  pub at_end : MeansTime (negsuc 0) (param "end" q) end
  pub in_order : MeansOrder desc (param "order" q) order
  pub included : MeansInclude (param "include" q) include_all

decide_include : (values : List String) → Decides (MeansInclude values) (include_param values)
unfolding include_param MeansInclude
decide_include [] = inl (false, refl, inl (refl, refl))
decide_include (s ∷ []) = elim (Bool-cases (eq_lower s "all")) [
  | inl e ↦ inl (true, rw (include_param, e) refl, inr (s, refl, e, refl))
  | inr e ↦ inr (
    "Incorrect include parameter in query string, the value can only be 'all'",
    rw (include_param, e) refl,
    λ a m. elim m [
      | inl (k, l) ↦ ground arith
      | inr (u, k, h, l) ↦ is_not (subst (λ z. eq_lower z "all" ≡ true) (sym (one_of k)) h) e
    ],
  )
]
decide_include (s ∷ t ∷ more) =
    inr (_, refl, λ a m. elim m [ inl (k, l) ↦ ground arith | inr (u, k, h, l) ↦ ground arith ])

-- The parsing takes what the query asks for, or refuses, and then the query asks for nothing.
decide_params :
    (q : Query)
    → Decides (λ (p : ℤ × ℤ × OrderType × Bool). Asks q p.0 p.1 p.2 p.3) (histories_params q)
unfolding histories_params
decide_params q = elim (decide_time "start" (pos 0) (param "start" q)) [
  | inr (text, e, never) ↦ inr (text, rw (histories_params, e) refl, λ p a. never p.0 a.at_start)
  | inl (start, e₁, m₁) ↦ elim (decide_time "end" (negsuc 0) (param "end" q)) [
    | inr (text, e, never) ↦
        inr (text, rw (histories_params, e₁, e) refl, λ p a. never p.1 a.at_end)
    | inl (end, e₂, m₂) ↦ elim (decide_order "'" desc (param "order" q)) [
      | inr (text, e, never) ↦
          inr (text, rw (histories_params, e₁, e₂, e) refl, λ p a. never p.2 a.in_order)
      | inl (order, e₃, m₃) ↦ elim (decide_include (param "include" q)) [
        | inr (text, e, never) ↦
            inr (text, rw (histories_params, e₁, e₂, e₃, e) refl, λ p a. never p.3 a.included)
        | inl (b, e₄, m₄) ↦ inl (
          (start, end, order, b),
          rw (histories_params, e₁, e₂, e₃, e₄) refl,
          record { at_start = m₁; at_end = m₂; in_order = m₃; included = m₄ },
        )
      ]
    ]
  ]
]

-- Let no statement of the database fail. If the query string asks for a start, an end, an order and a
-- choice of the ignored histories, then GetScalingHistories answers with the encoding of the app's
-- histories from the start to the end (to now, if the end is negative), all of them or all that are
-- not ignored, in that order. Otherwise, so if a parameter is repeated or is not a number or a word that is
-- allowed, it answers 400.
pub get_scaling_histories_lem :
    (encode : List AppScalingHistory → Option String) (now : ℤ) (app : String) (q : Query)
    (db : EngineDb)
    → ((start end : ℤ) × (order : OrderType) × (all : Bool) × (rows : List AppScalingHistory) × Asks
          q start end order all
        × (get_scaling_histories encode no_faults now app q db
            ≡ write_json encode "Error getting scaling histories from database" rows)
        × IsOrdered order rows
        × ((h : AppScalingHistory)
            → Holds h rows ↔ (
                Holds h db.histories
                × (in_range app start (if ltb_ℤ end (pos 0) then now else end) h ≡ true)
                × ((all || not (is_ignored h)) ≡ true))))
      ⊎ ((text : String) × (get_scaling_histories encode no_faults now app q db
            ≡ refused 400 "Bad-Request" text)
          × ((start end : ℤ) (order : OrderType) (all : Bool) → Asks q start end order all → ⊥))
unfolding get_scaling_histories
get_scaling_histories_lem encode now app q db = elim (decide_params q) [
  | inr (text, e, never) ↦
      inr (text, rw (get_scaling_histories, e) refl, λ s l o b a. never (s, l, o, b) a)
  | inl (p, e, a) ↦
      let (rows, r, sorted, holds) = retrieve_lem now app p.0 p.1 p.2 p.3 db in
      inl (
        p.0,
        p.1,
        p.2,
        p.3,
        rows,
        a,
        rw (get_scaling_histories, e, or_refuse, r) refl,
        sorted,
        holds,
      )
]
