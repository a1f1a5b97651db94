-- ===== src/Evaluator/Breach.antt =====
-- What a breach is.
use app_autoscaler.Prelude.{
  String, ◌≡◌, refl, ap, sym, ◌∙◌, subst, true, false, inl, inr, ◌↔◌, none, some, List, [], ◌∷◌,
  str_eq, if◌then◌else◌, arith, Bool-cases, Option-cases, Holds, some_inj, eq_iff,
}
use app_autoscaler.Prelude.Int.{ℤ, ◌≤ℤ◌, ◌<ℤ◌}
use app_autoscaler.Strconv.{parse_int}
use app_autoscaler.Models.{AppMetric}
use app_autoscaler.Evaluator.{value_breaches, metric_breaches, is_breached}

-- The four comparisons of a policy, for a value against a threshold.
abbrev pub Compares : String → ℤ → ℤ → Type 0
Compares operator v t =
    if str_eq operator ">"
    then t <ℤ v
    else if str_eq operator ">="
    then t ≤ℤ v
    else if str_eq operator "<"
    then v <ℤ t
    else if str_eq operator "<="
    then v ≤ℤ t
    else Unit {0}

value_breaches_iff :
    (operator : String) (t v : ℤ) → (value_breaches operator t v ≡ true) ↔ Compares operator v t
unfolding value_breaches
value_breaches_iff operator t v = ground arith

-- A metric whose value is a number that compares so with the threshold.
pub record Breaches (operator : String) (threshold : ℤ) (m : AppMetric) : Type 0 where
  pub value : ℤ
  pub reads : parse_int 64 m.value ≡ some value
  pub compares : Compares operator value threshold

parse_empty : parse_int 64 "" ≡ none
unfolding parse_int
parse_empty = refl

metric_breaches_iff :
    (operator : String) (t : ℤ) (m : AppMetric)
    → (metric_breaches operator t m ≡ true) ↔ Breaches operator t m
unfolding metric_breaches
metric_breaches_iff operator t m = elim (Bool-cases (str_eq m.value "")) [
  | inl e ↦
      rw (metric_breaches, e)
        (λ h. absurd (clash h), λ b. absurd (none≢some b.value (sym (empty_text e) ∙ b.reads)))
  | inr e ↦ elim (Option-cases (parse_int 64 m.value)) [
    | inl n ↦
        rw (metric_breaches, e, n)
          (λ h. absurd (clash h), λ b. absurd (none≢some b.value (sym n ∙ b.reads)))
    | inr (v, n) ↦
        let (there, back) = value_breaches_iff operator t v in
        (
          λ h. record {
            value = v;
            reads = n;
            compares = there (sym (rw (metric_breaches, e, n) refl) ∙ h);
          },
          λ b.
              rw (metric_breaches, e, n)
                (back (subst (λ z. Compares operator z t) (some_inj (sym b.reads ∙ n)) b.compares)),
        )
  ]
]
  where
    clash : false ≡ true → ⊥
    clash h = ground arith

    none≢some : (v : ℤ) → none ≡ some v → ⊥
    none≢some v h = ground arith

    empty_text : str_eq m.value "" ≡ true → parse_int 64 m.value ≡ none
    empty_text e = ap (parse_int 64) ((eq_iff m.value "").0 e) ∙ parse_empty

-- The loop over the metrics ends in a breach exactly if the value of every metric is a number that
-- compares with the threshold as the operator says.
pub is_breached_iff :
    (operator : String) (t : ℤ) (ms : List AppMetric)
    → (is_breached operator t ms ≡ true) ↔ ((m : AppMetric) → Holds m ms → Breaches operator t m)
unfolding is_breached
is_breached_iff operator t [] = (λ h m k. absurd k, λ h. refl)
is_breached_iff operator t (m ∷ ms) =
    let (there, back) = is_breached_iff operator t ms in
    let (this, this') = metric_breaches_iff operator t m in
    elim (Bool-cases (metric_breaches operator t m)) [
      | inl e ↦
          rw (is_breached, e)
            (
              λ h x k. elim k [
                | inl same ↦ subst (Breaches operator t) (sym same) (this e)
                | inr k ↦ there h x k
              ],
              λ h. back (λ x k. h x (inr k)),
            )
      | inr e ↦
          rw (is_breached, e)
            (λ h. absurd (clash h), λ h. absurd (clash (sym e ∙ this' (h m (inl refl)))))
    ]
  where
    clash : false ≡ true → ⊥
    clash h = ground arith
