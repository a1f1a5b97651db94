-- ===== src/Envelopes/Examples.antt =====
-- Two requests to an instance, and a gauge.
use app_autoscaler.Prelude.{String, ◌≡◌, refl, ◌↔◌, some, List, [], ◌∷◌, Holds, arith}
use app_autoscaler.Prelude.Int.{ℤ, pos, wrap64, ◌+ℤ◌, ◌-ℤ◌, ◌*ℤ◌}
use app_autoscaler.Prelude.Dict.{lookup, insert}
use app_autoscaler.Strconv.{parse_int_value, format_int, bytes}
use app_autoscaler.Float.Thousandths.{thousandths}
use app_autoscaler.Hash.{fnv_hash}
use app_autoscaler.Models.{AppInstanceMetric}
use app_autoscaler.Envelopes.{
  Envelope, Message, gauge, timer, EnvelopeProcessor, metric_of, process_all,
  compute_and_save_metrics, add_count, count_of, quotient, instance_metrics, speaks_for,
  process_custom_metrics,
}
use app_autoscaler.Envelopes.Ticks.{IsDue}
use app_autoscaler.Envelopes.Sends.{no_counts, count, time, compute_and_save_metrics_lem}

abbrev from_app : Message ℤ → Envelope ℤ
from_app m = record {
  source_id = "a";
  instance_id = "1";
  timestamp = pos 5;
  origin = "";
  message = m;
}

abbrev received : List (ℤ × Envelope ℤ)
received =
    (pos 1, from_app (timer "http" (pos 0) (pos 4000000)))
    ∷ (pos 2, from_app (timer "http" (pos 0) (pos 9000000)))
    ∷ (pos 3, from_app (gauge (("queue", record { unit = "jobs"; value = pos 2600 }) ∷ [])))
    ∷ []

-- The interval is 2 s, and app "b" has no request.
abbrev after : List (ℤ × Envelope ℤ) → EnvelopeProcessor
after es = (process_all thousandths es no_counts).0

ticks :
    ((process_all thousandths received no_counts).1
      ≡ metric_of "a" 1 (pos 3) "queue" "jobs" "3" (pos 5) ∷ [])
    × (compute_and_save_metrics thousandths (pos 2000) 1 0 (pos 9) ("a" ∷ "b" ∷ []) (after received)
        ≡ some (
          no_counts,
          metric_of "a" 1 (pos 9) "throughput" "rps" "1" (pos 9)
              ∷ metric_of "a" 1 (pos 9) "responsetime" "ms" "6" (pos 9)
              ∷ metric_of "b" 0 (pos 9) "throughput" "rps" "0" (pos 9)
              ∷ [],
        ))
unfolding process_all lookup insert parse_int_value add_count compute_and_save_metrics count_of
    quotient wrap64 ◌+ℤ◌ ◌-ℤ◌ ◌*ℤ◌ format_int fnv_hash bytes process_custom_metrics instance_metrics
    speaks_for
ticks = (refl, refl)

compute_and_save_metrics_lem_example :
    (ms : List AppInstanceMetric) × (compute_and_save_metrics thousandths
        (pos 2000)
        1
        0
        (pos 9)
        ("a" ∷ "b" ∷ [])
        (after received)
      ≡ some (no_counts, ms))
    × ((m : AppInstanceMetric)
        → Holds m ms ↔ (
            (app : String) × Holds app ("a" ∷ "b" ∷ [])
            × IsDue thousandths
                (pos 2000)
                0
                0
                (pos 9)
                (count thousandths (pos 2000) 0 0 (pos 9) received)
                (time thousandths (pos 2000) 0 0 (pos 9) received)
                app
                m))
compute_and_save_metrics_lem_example =
    compute_and_save_metrics_lem thousandths (pos 2000) 0 0 (pos 9) received ("a" ∷ "b" ∷ [])
      (omega arith)
