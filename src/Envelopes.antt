-- ===== src/Envelopes.antt =====
-- metricsserver/collector/envelope_processor.go: the envelopes of the loggregator become metrics of instances. A
-- gauge does at once; the HTTP requests of a timer are counted until the next tick, which makes them a
-- throughput and a response time. The loop of processEvents is a step for each thing that it receives, and
-- the metrics that it sends on the channel are its result. Within a step the clock stands still.
pub mod Counting
pub mod Tallies
pub mod Received
pub mod Ticks
pub mod Sends
mod Examples
use app_autoscaler.Prelude.{
  ℕ, zero, suc, ◌+◌, ◌*◌, ◌/◌, ◌-◌, ◌%◌, ◌^◌, String, Bool, true, false, Option, none, some, List,
  [], ◌∷◌, ◌++◌, str_eq, ◌==◌, if◌then◌else◌,
}
use app_autoscaler.Prelude.Int.{ℤ, pos, negsuc, sub_ℕ, ◌+ℤ◌, ◌-ℤ◌, ◌*ℤ◌, eq_ℤ, wrap64}
use app_autoscaler.Prelude.Dict.{Dict, lookup, insert}
use app_autoscaler.Strconv.{format_int, parse_int_value}
use app_autoscaler.Float.{Float64}
use app_autoscaler.Hash.{fnv_hash}
use app_autoscaler.Models.{AppInstanceMetric}
use app_autoscaler.TsdCache.{◌>>=◌}

-- What the program reads of a loggregator_v2.Envelope, over the type of its floats.
pub record GaugeValue (F : Type 0) : Type 0 where
  pub unit : String
  pub value : F

pub data Message (F : Type 0) : Type 0 where
  gauge : Dict (GaugeValue F) → Message F
  timer : String → ℤ → ℤ → Message F  -- the name, the start and the stop
  other : Message F

pub record Envelope (F : Type 0) : Type 0 where
  pub source_id : String
  pub instance_id : String
  pub timestamp : ℤ
  pub origin : String  -- the text of the deprecated tag, or ""
  pub message : Message F

-- map[uint32]int64
abbrev pub Counts : Type 0
Counts = List (ℕ × ℤ)

-- m[i] += v
unfoldable pub add_count : ℕ → ℤ → Counts → Counts
add_count i v [] = (i, wrap64 (pos 0 +ℤ v)) ∷ []
add_count i v ((j, n) ∷ counts) =
    let rest = add_count i v counts in
    if j == i then (j, wrap64 (n +ℤ v)) ∷ counts else (j, n) ∷ rest

-- m[i]
unfoldable pub count_of : ℕ → Counts → ℤ
count_of i [] = pos 0
count_of i ((j, n) ∷ counts) = let rest = count_of i counts in if j == i then n else rest

abbrev pub counts_or_none : Option Counts → Counts
counts_or_none none = []
counts_or_none (some counts) = counts

pub record EnvelopeProcessor : Type 0 where
  pub num_requests : Dict Counts
  pub sum_response_times : Dict Counts

-- ep.m[appID][i] += v, where the inner map is made if it is missing
abbrev pub add_to : String → ℕ → ℤ → Dict Counts → Dict Counts
add_to app i v maps = insert app (add_count i v (counts_or_none (lookup app maps))) maps

-- processHttpStartStop
unfoldable pub process_http_start_stop : String → ℕ → ℤ → ℤ → EnvelopeProcessor → EnvelopeProcessor
process_http_start_stop app i start stop ep = record {
  num_requests = add_to app i (pos 1) ep.num_requests;
  sum_response_times = add_to app i (wrap64 (stop -ℤ start)) ep.sum_response_times;
}

-- uint32(z)
abbrev pub uint32 : ℤ → ℕ
uint32 (pos n) = n % 2 ^ 32
uint32 (negsuc n) = (2 ^ 32 - suc n % 2 ^ 32) % 2 ^ 32

abbrev pub instance_index : {F : Type 0} → Envelope F → ℕ
instance_index e = uint32 (parse_int_value 32 e.instance_id)

-- Go's division of int64; `none` is the panic of a division by 0.
abbrev pub signed_quotient : ℤ → ℤ → ℤ
signed_quotient (pos a) (pos b) = pos (a / b)
signed_quotient (pos a) (negsuc b) = sub_ℕ 0 (a / suc b)
signed_quotient (negsuc a) (pos b) = sub_ℕ 0 (suc a / b)
signed_quotient (negsuc a) (negsuc b) = pos (suc a / suc b)

unfoldable pub quotient : ℤ → ℤ → Option ℤ
quotient a b = if eq_ℤ b (pos 0) then none else some (wrap64 (signed_quotient a b))

abbrev pub metric_of : String → ℕ → ℤ → String → String → String → ℤ → AppInstanceMetric
metric_of app i now name unit value timestamp = record {
  app_id = app;
  instance_index = i;
  collected_at = now;
  name = name;
  unit = unit;
  value = value;
  timestamp = timestamp;
}

-- The value is sent if it is there.
abbrev pub if_present {ℓ} :
    {A : Type ℓ} → Option A → (A → List AppInstanceMetric) → List AppInstanceMetric
if_present none f = []
if_present (some a) f = f a

module _ (fl : Float64) where
  -- int(x + 0.5), printed
  abbrev pub rounded : fl.F → String
  rounded x = format_int (fl.to_int (fl.add x fl.half))

  -- processContainerMetrics
  unfoldable pub process_container_metrics :
      ℤ → String → ℕ → ℤ → Dict (GaugeValue fl.F) → List AppInstanceMetric
  process_container_metrics now app i t g =
      if_present (lookup "memory" g) (λ memory.
        metric_of app i now "memoryused" "MB"
          (rounded (fl.div memory.value (fl.of_int (pos 1048576)))) t
        ∷ if_present (lookup "memory_quota" g) (λ quota.
          if fl.eq quota.value fl.zero
          then []
          else metric_of app i now "memoryutil" "%"
              (rounded (fl.mul (fl.div memory.value quota.value) fl.hundred)) t
            ∷ []))
      ++ if_present (lookup "cpu" g)
          (λ cpu. metric_of app i now "cpu" "%" (rounded cpu.value) t ∷ [])

  -- processCustomMetrics
  unfoldable pub process_custom_metrics :
      ℤ → String → ℕ → ℤ → Dict (GaugeValue fl.F) → List AppInstanceMetric
  process_custom_metrics now app i t [] = []
  process_custom_metrics now app i t ((n, v) ∷ g) =
      metric_of app i now n v.unit (rounded v.value) t ∷ process_custom_metrics now app i t g

  -- processEnvelope
  unfoldable pub process_envelope :
      ℤ → Envelope fl.F → EnvelopeProcessor → EnvelopeProcessor × List AppInstanceMetric
  unfolding process_http_start_stop
  process_envelope now e ep = elim e.message [
    | gauge g ↦ (
      ep,
      elim (lookup "memory_quota" g) [
        | some quota ↦ process_container_metrics now e.source_id (instance_index e) e.timestamp g
        | none ↦ process_custom_metrics now e.source_id (instance_index e) e.timestamp g
      ],
    )
    | timer name start stop ↦
        (process_http_start_stop e.source_id (instance_index e) start stop ep, [])
    | other ↦ (ep, [])
  ]

  -- The envelopes that the loop receives, each with the clock's time; the metrics go out in that order.
  unfoldable pub process_all :
      List (ℤ × Envelope fl.F) → EnvelopeProcessor → EnvelopeProcessor × List AppInstanceMetric
  unfolding process_envelope
  process_all [] ep = (ep, [])
  process_all ((now, e) ∷ es) ep =
      let (ep₁, sent) = process_envelope now e ep in
      let (ep', more) = process_all es ep₁ in (ep', sent ++ more)

  module _ (seconds : fl.F) (num_processors processor_index : ℕ) (now : ℤ) where
    -- int(float64(numReq)/ep.collectInterval.Seconds() + 0.5)
    abbrev pub throughput : String → ℕ → ℤ → AppInstanceMetric
    throughput app i n =
        metric_of app i now "throughput" "rps" (rounded (fl.div (fl.of_int n) seconds)) now

    abbrev pub response_time : String → ℕ → ℤ → AppInstanceMetric
    response_time app i t = metric_of app i now "responsetime" "ms" (format_int t) now

    abbrev pub no_requests : String → AppInstanceMetric
    no_requests app = metric_of app 0 now "throughput" "rps" "0" now

    -- for instanceIdx, numReq := range im
    unfoldable pub instance_metrics : String → Counts → Counts → Option (List AppInstanceMetric)
    instance_metrics app sums [] = some []
    instance_metrics app sums ((i, n) ∷ counts) =
        quotient (count_of i sums) (wrap64 (wrap64 (n *ℤ pos 1000) *ℤ pos 1000)) >>= λ t.
        instance_metrics app sums counts >>= λ rest.
        some (throughput app i n ∷ response_time app i t ∷ rest)

    -- Whether this processor speaks for an app without requests; `none` is the panic for 0 processors.
    unfoldable pub speaks_for : ℕ → String → Option Bool
    speaks_for zero app = none
    speaks_for (suc n) app = some ((fnv_hash app % suc n) == processor_index)

    -- The body of the loop over the apps.
    unfoldable pub app_metrics : EnvelopeProcessor → String → Option (List AppInstanceMetric)
    unfolding instance_metrics speaks_for
    app_metrics ep app = elim (counts_or_none (lookup app ep.num_requests)) [
      | [] ↦
          speaks_for num_processors app >>= λ mine. some (if mine then no_requests app ∷ [] else [])
      | count ∷ counts ↦
          instance_metrics app (counts_or_none (lookup app ep.sum_response_times)) (count ∷ counts)
    ]

    abbrev pub all_metrics : EnvelopeProcessor → List String → Option (List AppInstanceMetric)
    all_metrics ep [] = some []
    all_metrics ep (app ∷ apps) =
        app_metrics ep app >>= λ ms. all_metrics ep apps >>= λ rest. some (ms ++ rest)

    -- computeAndSaveMetrics
    unfoldable pub compute_and_save_metrics :
        List String → EnvelopeProcessor → Option (EnvelopeProcessor × List AppInstanceMetric)
    unfolding app_metrics
    compute_and_save_metrics apps ep = all_metrics ep apps >>= λ ms.
        some (record { num_requests = []; sum_response_times = [] }, ms)
