-- ===== src/Envelopes/Sends.antt =====
-- What a tick sends after any envelopes.
use app_autoscaler.Prelude.{
  ℕ, suc, ◌<◌, ◌^◌, String, ◌≡◌, refl, ap, ◌↔◌, some, List, [], ◌∷◌, arith, Holds, length,
}
use app_autoscaler.Prelude.Int.{ℤ, pos}
use app_autoscaler.Prelude.Dict.{lookup}
use app_autoscaler.Float.{Float64}
use app_autoscaler.Models.{AppInstanceMetric}
use app_autoscaler.Envelopes.{
  Envelope, count_of, EnvelopeProcessor, compute_and_save_metrics, process_all,
}
use app_autoscaler.Envelopes.Tallies.{Tallied, requests, total_time, requests_le}
use app_autoscaler.Envelopes.Received.{envelopes, process_all-Tallied}
use app_autoscaler.Envelopes.Ticks.{IsDue, all_lem}

-- The state of a processor at its start and after a tick.
abbrev pub no_counts : EnvelopeProcessor
no_counts = record { num_requests = []; sum_response_times = [] }

no_counts-Tallied : Tallied (λ app i. 0) (λ app i. pos 0) no_counts
unfolding lookup count_of
no_counts-Tallied = record {
  keyed = λ app. tt;
  counted = λ app i. refl;
  summed = λ app i. refl;
  positive = λ app i n h. absurd h;
}

module _ (fl : Float64) (seconds : fl.F) (k index : ℕ) (now : ℤ)
    (es : List (ℤ × Envelope fl.F)) where
  -- The requests to an instance of an app among the envelopes, and their times.
  abbrev pub count : String → ℕ → ℕ
  count app i = requests app i (envelopes es) 0

  abbrev pub time : String → ℕ → ℤ
  time app i = total_time app i (envelopes es) (pos 0)

  length-envelopes : (l : List (ℤ × Envelope fl.F)) → length (envelopes l) ≡ length l
  length-envelopes [] = refl
  length-envelopes ((t, e) ∷ l) = ap suc (length-envelopes l)

  -- Let there be fewer than 2 ^ 43 envelopes since the last tick, and at least one processor. Then the tick
  -- does not divide by 0, and starts the counts anew. It sends, for the apps given and no other: for
  -- every instance that had a request, the throughput of exactly the requests to it, and the mean of
  -- their times, whose sum wraps around like int64; and for every app without a request, a throughput
  -- of 0, if the app falls to this processor.
  pub compute_and_save_metrics_lem :
      (apps : List String)
      → length es < 2 ^ 43
      → (ms : List AppInstanceMetric) × (compute_and_save_metrics fl seconds
            (suc k)
            index
            now
            apps
            (process_all fl es no_counts).0
          ≡ some (no_counts, ms))
        × ((m : AppInstanceMetric)
            → Holds m ms
              ↔ ((app : String) × Holds app apps × IsDue fl seconds k index now count time app m))
  unfolding compute_and_save_metrics
  compute_and_save_metrics_lem apps few =
      let t =
        process_all-Tallied fl (λ app i. 0) (λ app i. pos 0) es no_counts (λ app i. omega arith)
          no_counts-Tallied in
      let (ms, e, iff) =
        all_lem fl seconds k index now count time
          (λ app i. omega (arith, requests_le app i (envelopes es) 0, length-envelopes es))
          (process_all fl es no_counts).0 t apps in
      (ms, rw (compute_and_save_metrics, e) refl, iff)
