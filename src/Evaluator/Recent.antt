-- ===== src/Evaluator/Recent.antt =====
-- Which metrics the evaluation looks at.
use app_autoscaler.Prelude.{
  ◌≡◌, refl, sym, ◌∙◌, subst, true, false, ◌⊎◌, inl, inr, ◌↔◌, List, [], ◌∷◌, arith, Bool-cases,
  ◌++◌, Holds, Holds-append_one,
}
use app_autoscaler.Prelude.Int.{ℤ, ◌≤ℤ◌, ◌<ℤ◌, leb_ℤ, ltb_ℤ}
use app_autoscaler.Models.{AppMetric}
use app_autoscaler.Evaluator.{latest, recent_metrics}

abbrev pub NotBefore : AppMetric → List AppMetric → Type 0
NotBefore m [] = Unit {0}
NotBefore m (x ∷ xs) = (m.timestamp ≤ℤ x.timestamp) × NotBefore m xs

abbrev pub IsAscending : List AppMetric → Type 0
IsAscending [] = Unit {0}
IsAscending (x ∷ xs) = NotBefore x xs × IsAscending xs

NotBefore-Holds :
    (m x : AppMetric) (xs : List AppMetric)
    → NotBefore m xs
    → Holds x xs
    → m.timestamp ≤ℤ x.timestamp
NotBefore-Holds m x [] n h = absurd h
NotBefore-Holds m x (y ∷ ys) n (inl e) =
    subst (λ (z : AppMetric). m.timestamp ≤ℤ z.timestamp) (sym e) n.0
NotBefore-Holds m x (y ∷ ys) n (inr h) = NotBefore-Holds m x ys n.1 h

-- A `break` came at a metric that is too early.
latest_broke :
    (from : ℤ) (ms : List AppMetric)
    → (latest from ms).1 ≡ false
    → (x : AppMetric) × Holds x ms × (x.timestamp <ℤ from)
unfolding latest
latest_broke from [] e = absurd (ground arith)
latest_broke from (m ∷ ms) e = elim (Bool-cases (latest from ms).1) [
  | inr f ↦ let (x, h, lt) = latest_broke from ms f in (x, inr h, lt)
  | inl f ↦ elim (Bool-cases (leb_ℤ from m.timestamp)) [
    | inr g ↦ (m, inl refl, ground arith)
    | inl g ↦ absurd (clash (sym (rw (latest, f, g) refl) ∙ e))
  ]
]
  where
    clash : true ≡ false → ⊥
    clash e = ground arith

latest-Holds :
    (from : ℤ) (ms : List AppMetric) (x : AppMetric)
    → IsAscending ms
    → Holds x (latest from ms).0 ↔ (Holds x ms × (from ≤ℤ x.timestamp))
unfolding latest
latest-Holds from [] x s = (λ h. absurd h, λ h. absurd h.0)
latest-Holds from (m ∷ ms) x s =
    let (there, back) = latest-Holds from ms x s.1 in
    elim (Bool-cases (latest from ms).1) [
      | inr f ↦
          let (y, h, lt) = latest_broke from ms f in
          let early : m.timestamp <ℤ from = omega (arith, NotBefore-Holds m y ms s.0 h) in
          rw (latest, f)
            (
              λ h. let (k, le) = there h in (inr k, le),
              λ k. elim k.0 [ inl e ↦ absurd (too_early early e k.1) | inr h ↦ back (h, k.1) ],
            )
      | inl f ↦ elim (Bool-cases (leb_ℤ from m.timestamp)) [
        | inr g ↦
            let early : m.timestamp <ℤ from = ground arith in
            rw (latest, f, g)
              (
                λ h. let (k, le) = there h in (inr k, le),
                λ k. elim k.0 [ inl e ↦ absurd (too_early early e k.1) | inr h ↦ back (h, k.1) ],
              )
        | inl g ↦
            let late : from ≤ℤ m.timestamp = ground arith in
            let (out, into) = Holds-append_one x m (latest from ms).0 in
            rw (latest, f, g)
              (
                λ h. elim (out h) [
                  | inl k ↦ let (held, le) = there k in (inr held, le)
                  | inr e ↦ (inl e, subst (λ (z : AppMetric). from ≤ℤ z.timestamp) (sym e) late)
                ],
                λ k. elim k.0 [ inl e ↦ into (inr e) | inr h ↦ into (inl (back (h, k.1))) ],
              )
      ]
    ]
  where
    too_early : m.timestamp <ℤ from → x ≡ m → from ≤ℤ x.timestamp → ⊥
    too_early early e le =
        let le' : from ≤ℤ m.timestamp = subst (λ (z : AppMetric). from ≤ℤ z.timestamp) e le in
        omega arith

-- Nothing lies before the first.
NotBefore-late :
    (from : ℤ) (first : AppMetric) (ms : List AppMetric)
    → from ≤ℤ first.timestamp
    → NotBefore first ms
    → (x : AppMetric) → Holds x (first ∷ ms)
    → from ≤ℤ x.timestamp
NotBefore-late from first ms late n x (inl e) =
    subst (λ (z : AppMetric). from ≤ℤ z.timestamp) (sym e) late
NotBefore-late from first ms late n x (inr h) =
    let k = NotBefore-Holds first x ms n h in omega arith

-- Of metrics in ascending order, the evaluation looks at exactly those since the breach's start if one
-- lies before it, and at none if all lie at it or later, so too if there are no metrics.
pub recent_metrics_lem :
    (from : ℤ) (ms : List AppMetric)
    → IsAscending ms
    → ((y : AppMetric) × Holds y ms
        × (y.timestamp <ℤ from)
        × ((x : AppMetric)
            → Holds x (recent_metrics from ms) ↔ (Holds x ms × (from ≤ℤ x.timestamp))))
      ⊎ (((x : AppMetric) → Holds x ms → from ≤ℤ x.timestamp) × (recent_metrics from ms ≡ []))
unfolding recent_metrics
recent_metrics_lem from [] s = inr (λ x h. absurd h, refl)
recent_metrics_lem from (first ∷ ms) s = elim (Bool-cases (ltb_ℤ first.timestamp from)) [
  | inl e ↦ inl (
    first,
    inl refl,
    ground arith,
    λ x. rw (recent_metrics, e) (latest-Holds from (first ∷ ms) x s),
  )
  | inr e ↦ inr (NotBefore-late from first ms (ground arith) s.0, rw (recent_metrics, e) refl)
]

-- The first of a list is as late as any.
abbrev Leads : List AppMetric → Type 0
Leads [] = Unit {0}
Leads (x ∷ xs) = (y : AppMetric) → Holds y (x ∷ xs) → y.timestamp ≤ℤ x.timestamp

Leads-append_one :
    (m : AppMetric) (xs : List AppMetric)
    → Leads xs
    → ((y : AppMetric) → Holds y xs → m.timestamp ≤ℤ y.timestamp)
    → Leads (xs ++ m ∷ [])
Leads-append_one m [] l n = λ y. elim [
  | inl e ↦ subst (λ (z : AppMetric). z.timestamp ≤ℤ m.timestamp) (sym e) (omega arith)
  | inr h ↦ absurd h
]
Leads-append_one m (x ∷ xs) l n = λ y h. elim ((Holds-append_one y m (x ∷ xs)).0 h) [
  | inl k ↦ l y k
  | inr e ↦ subst (λ (z : AppMetric). z.timestamp ≤ℤ x.timestamp) (sym e) (n x (inl refl))
]

latest-Leads : (from : ℤ) (ms : List AppMetric) → IsAscending ms → Leads (latest from ms).0
unfolding latest
latest-Leads from [] s = tt
latest-Leads from (m ∷ ms) s =
    let below = latest-Leads from ms s.1 in
    elim (Bool-cases (latest from ms).1) [
      | inr f ↦ rw (latest, f) below
      | inl f ↦ elim (Bool-cases (leb_ℤ from m.timestamp)) [
        | inr g ↦ rw (latest, f, g) below
        | inl g ↦
            rw (latest, f, g)
              (Leads-append_one m (latest from ms).0 below
                (λ y h. NotBefore-Holds m y ms s.0 ((latest-Holds from ms y s.1).0 h).0))
      ]
    ]

-- The first of the metrics that the evaluation looks at is one of those since the breach's start, and as late as
-- any that was retrieved.
pub recent_first :
    (from : ℤ) (ms : List AppMetric) (newest : AppMetric) (more : List AppMetric)
    → IsAscending ms
    → recent_metrics from ms ≡ newest ∷ more
    → Holds newest ms
      × (from ≤ℤ newest.timestamp)
      × ((x : AppMetric) → Holds x ms → x.timestamp ≤ℤ newest.timestamp)
unfolding recent_metrics
recent_first from [] newest more s e = absurd (ground arith)
recent_first from (m ∷ ms) newest more s e = elim (Bool-cases (ltb_ℤ m.timestamp from)) [
  | inr f ↦ absurd (no_metrics (rw (recent_metrics, f) at e))
  | inl f ↦
      let e' : (latest from (m ∷ ms)).0 ≡ newest ∷ more = rw (recent_metrics, f) at e in
      let exact = latest-Holds from (m ∷ ms) in
      let leads : Leads (newest ∷ more) = subst Leads e' (latest-Leads from (m ∷ ms) s) in
      let (held, late) = (exact newest s).0 (subst (Holds newest) (sym e') (inl refl)) in
      (
        held,
        late,
        λ x h. elim (Bool-cases (leb_ℤ from x.timestamp)) [
          | inl g ↦ leads x (subst (Holds x) e' ((exact x s).1 (h, ground arith)))
          | inr g ↦ ground arith
        ],
      )
]
  where
    no_metrics : [] ≡ newest ∷ more → ⊥
    no_metrics e = ground arith
