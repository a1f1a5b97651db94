-- ===== src/Envelopes/Ticks.antt =====
-- The metrics of a tick.
use app_autoscaler.Prelude.{
  ℕ, suc, ◌*◌, ◌%◌, ◌<◌, ◌^◌, String, ◌≡◌, refl, sym, ap, ◌∙◌, subst, ◌↔◌, ◌⊎◌, inl, inr, false,
  some, List, [], ◌∷◌, ◌++◌, ◌==◌, arith, Bool-cases, List-cases, Holds, Holds-append, ==_iff,
}
use app_autoscaler.Prelude.Int.{ℤ, pos, ◌*ℤ◌, wrap64, wrap64_id, eq_ℤ}
use app_autoscaler.Float.{Float64}
use app_autoscaler.Hash.{fnv_hash}
use app_autoscaler.Models.{AppInstanceMetric}
use app_autoscaler.Http.Params.{is_not}
use app_autoscaler.Envelopes.{
  Counts, count_of, signed_quotient, quotient, EnvelopeProcessor, throughput, response_time,
  no_requests, instance_metrics, speaks_for, app_metrics, all_metrics,
}
use app_autoscaler.Envelopes.Counting.{counts_at, count_of-Holds, Holds-count_of}
use app_autoscaler.Envelopes.Tallies.{Tallied}

-- The time in milliseconds that `n` requests took on average, if they took `total` nanoseconds.
pub mean_ms : ℤ → ℕ → ℤ
mean_ms total n = wrap64 (signed_quotient total (pos (n * 1000000)))

by_thousand : (n : ℕ) → pos n *ℤ pos 1000 ≡ pos (n * 1000)
unfolding ◌*ℤ◌
by_thousand n = ground arith

-- The divisor is exact for fewer than 2 ^ 43 requests, and then the division does not panic.
mean_lem :
    (total : ℤ) (n : ℕ)
    → 0 < n
    → n < 2 ^ 43
    → quotient total (wrap64 (wrap64 (pos n *ℤ pos 1000) *ℤ pos 1000)) ≡ some (mean_ms total n)
unfolding quotient mean_ms
mean_lem total n lo hi =
    let one : wrap64 (pos n *ℤ pos 1000) ≡ pos (n * 1000) =
      ap wrap64 (by_thousand n) ∙ wrap64_id (pos (n * 1000)) (omega arith, omega arith) in
    let two : wrap64 (pos (n * 1000) *ℤ pos 1000) ≡ pos (n * 1000000) =
      ap wrap64 (by_thousand (n * 1000) ∙ ap pos (omega arith))
      ∙ wrap64_id (pos (n * 1000000)) (omega arith, omega arith) in
    let e : wrap64 (wrap64 (pos n *ℤ pos 1000) *ℤ pos 1000) ≡ pos (n * 1000000) =
      ap (λ z. wrap64 (z *ℤ pos 1000)) one ∙ two in
    let d : eq_ℤ (pos (n * 1000000)) (pos 0) ≡ false = ground arith in rw (e, d) refl

module _ (fl : Float64) (seconds : fl.F) (k index : ℕ) (now : ℤ) (count : String → ℕ → ℕ)
    (total : String → ℕ → ℤ) where
  abbrev tp : String → ℕ → AppInstanceMetric
  tp app i = throughput fl seconds (suc k) index now app i (pos (count app i))

  abbrev rt : String → ℕ → AppInstanceMetric
  rt app i = response_time fl seconds (suc k) index now app i (mean_ms (total app i) (count app i))

  -- The two metrics of an instance.
  pub IsOf : String → ℕ → AppInstanceMetric → Type 0
  IsOf app i m =
      (m ≡ throughput fl seconds (suc k) index now app i (pos (count app i)))
      ⊎ (m ≡ response_time fl seconds (suc k) index now app i (mean_ms (total app i) (count app i)))

  -- The metrics of an app: those of each instance with requests, or, if there is none, the one that
  -- says so, from the one processor that speaks for the app.
  pub IsDue : String → AppInstanceMetric → Type 0
  IsDue app m =
      ((i : ℕ) × (0 < count app i) × IsOf app i m)
      ⊎ (((i : ℕ) → count app i ≡ 0)
          × ((fnv_hash app % suc k) ≡ index)
          × (m ≡ no_requests fl seconds (suc k) index now app))

  here_of :
      (app : String) (i : ℕ) (m : AppInstanceMetric) (ms : List AppInstanceMetric)
      → IsOf app i m
      → Holds m (tp app i ∷ rt app i ∷ ms)
  unfolding IsOf
  here_of app i m ms (inl t) = inl t
  here_of app i m ms (inr r) = inr (inl r)

  module _ (small : (app : String) (i : ℕ) → count app i < 2 ^ 43) where
    -- The loop over the instances of an app.
    instances_lem :
        (app : String) (sums counts : Counts)
        → ((i : ℕ) → count_of i sums ≡ total app i)
        → ((i : ℕ) (n : ℤ) → Holds (i, n) counts → (n ≡ pos (count app i)) × (0 < count app i))
        → (ms : List AppInstanceMetric) × (instance_metrics fl seconds
              (suc k)
              index
              now
              app
              sums
              counts
            ≡ some ms)
          × ((m : AppInstanceMetric)
              → Holds m ms ↔ ((i : ℕ) × (n : ℤ) × Holds (i, n) counts × IsOf app i m))
    unfolding instance_metrics IsOf
    instances_lem app sums [] s c = ([], refl, λ m. (λ h. absurd h, λ (i, n, h, is). absurd h))
    instances_lem app sums ((i, n) ∷ counts) s c =
        let (ms, e, iff) = instances_lem app sums counts s (λ j v h. c j v (inr h)) in
        let (same, some_requests) = c i n (inl refl) in
        let q = mean_lem (total app i) (count app i) some_requests (small app i) in
        (
          tp app i ∷ rt app i ∷ ms,
          rw (instance_metrics, same, s i, q, e) refl,
          λ m. (
            elim [
              | inl t ↦ (i, n, inl refl, inl t)
              | inr (inl t) ↦ (i, n, inl refl, inr t)
              | inr (inr h) ↦ let (j, v, g, is) = (iff m).0 h in (j, v, inr g, is)
            ],
            λ (j, v, h, is). elim h [
              | inl here ↦ here_of app i m ms (subst (λ z. IsOf app z m) (ap (λ z. z.0) here) is)
              | inr there ↦ inr (inr ((iff m).1 (j, v, there, is)))
            ],
          ),
        )

    module _ (ep : EnvelopeProcessor) (t : Tallied count total ep) where
      entry :
          (app : String) (i : ℕ) (n : ℤ)
          → Holds (i, n) (counts_at app ep.num_requests)
          → (n ≡ pos (count app i)) × (0 < count app i)
      entry app i n h = (
        sym (count_of-Holds i n (counts_at app ep.num_requests) (t.keyed app) h) ∙ t.counted app i,
        t.positive app i n h,
      )

      back_to_entry :
          (app : String) (i : ℕ)
          → 0 < count app i
          → Holds (i, pos (count app i)) (counts_at app ep.num_requests)
      back_to_entry app i h =
          Holds-count_of i (pos (count app i)) (counts_at app ep.num_requests) (t.counted app i)
            (λ e. ground arith)

      no_entry : (app : String) → counts_at app ep.num_requests ≡ [] → (i : ℕ) → count app i ≡ 0
      unfolding count_of
      no_entry app e i =
          let q : pos 0 ≡ pos (count app i) = ap (count_of i) (sym e) ∙ t.counted app i in
          ground arith

      -- One app.
      app_lem :
          (app : String)
          → (ms : List AppInstanceMetric) × (app_metrics fl seconds (suc k) index now ep app
              ≡ some ms)
            × ((m : AppInstanceMetric) → Holds m ms ↔ IsDue app m)
      unfolding app_metrics IsDue speaks_for
      app_lem app = elim (List-cases (counts_at app ep.num_requests)) [
        | inl none_yet ↦ elim (Bool-cases ((fnv_hash app % suc k) == index)) [
          | inl mine ↦ (
            no_requests fl seconds (suc k) index now app ∷ [],
            rw (app_metrics, none_yet, speaks_for, mine) refl,
            λ m. (
              elim [
                | inl e ↦
                    inr (no_entry app none_yet, (==_iff (fnv_hash app % suc k) index).0 mine, e)
                | inr h ↦ absurd h
              ],
              elim [
                | inl (j, some_requests, is) ↦
                    let z = no_entry app none_yet j in absurd (omega arith)
                | inr (zeros, own, e) ↦ inl e
              ],
            ),
          )
          | inr foreign ↦ (
            [],
            rw (app_metrics, none_yet, speaks_for, foreign) refl,
            λ m. (
              λ h. absurd h,
              elim [
                | inl (j, some_requests, is) ↦
                    let z = no_entry app none_yet j in absurd (omega arith)
                | inr (zeros, own, e) ↦
                    absurd (is_not ((==_iff (fnv_hash app % suc k) index).1 own) foreign)
              ],
            ),
          )
        ]
        | inr ((i, n), more, e) ↦
            let (ms, run, iff) =
              instances_lem app (counts_at app ep.sum_response_times) ((i, n) ∷ more) (t.summed app)
                (λ j v h. entry app j v (subst (Holds (j, v)) (sym e) h)) in
            (
              ms,
              rw (app_metrics, e) run,
              λ m. (
                λ h.
                    let (j, v, g, is) = (iff m).0 h in
                    inl (j, (entry app j v (subst (Holds (j, v)) (sym e) g)).1, is),
                elim [
                  | inl (j, some_requests, is) ↦ (iff m).1 (
                    j,
                    pos (count app j),
                    subst (Holds (j, pos (count app j))) e (back_to_entry app j some_requests),
                    is,
                  )
                  | inr (zeros, mine, is) ↦
                      let here = (entry app i n (subst (Holds (i, n)) (sym e) (inl refl))).1 in
                      let zero_here = zeros i in absurd (omega arith)
                ],
              ),
            )
      ]

      pub all_lem :
          (apps : List String)
          → (ms : List AppInstanceMetric) × (all_metrics fl seconds (suc k) index now ep apps
              ≡ some ms)
            × ((m : AppInstanceMetric)
                → Holds m ms ↔ ((app : String) × Holds app apps × IsDue app m))
      all_lem [] = ([], refl, λ m. (λ h. absurd h, λ (app, h, d). absurd h))
      all_lem (app ∷ apps) =
          let (ms, e, iff) = app_lem app in
          let (rest, f, rest_iff) = all_lem apps in
          (
            ms ++ rest,
            rw (e, f) refl,
            λ m. (
              λ h. elim ((Holds-append m ms rest).0 h) [
                | inl g ↦ (app, inl refl, (iff m).0 g)
                | inr g ↦ let (a, there, d) = (rest_iff m).0 g in (a, inr there, d)
              ],
              λ (a, h, d). (Holds-append m ms rest).1 (elim h [
                | inl here ↦ inl ((iff m).1 (subst (λ z. IsDue z m) here d))
                | inr there ↦ inr ((rest_iff m).1 (a, there, d))
              ]),
            ),
          )
