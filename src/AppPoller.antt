-- ===== src/AppPoller.antt =====
-- metricscollector/collector/apppoller.go and metricscollector/noaa/app_events.go: the metrics of the containers of
-- an app, which a poll asks for and puts into the app's cache. What the traffic controller answers
-- to each attempt is given. The metrics that are sent on to be saved are a log. `none` is a panic in the cache.
pub mod Polled
mod Examples
use app_autoscaler.Prelude.{
  ℕ, zero, suc, ◌+◌, String, Bool, true, false, Option, none, some, List, [], ◌∷◌, ◌++◌, ◌==◌,
  str_eq, if◌then◌else◌,
}
use app_autoscaler.Prelude.Int.{ℤ, pos, ◌+ℤ◌, wrap64}
use app_autoscaler.Float.{Float64}
use app_autoscaler.Models.{Result, ok, err, AppInstanceMetric, LabelMap}
use app_autoscaler.TsdCache.{TsdCache, ◌>>=◌, put, query}
use app_autoscaler.InstanceMetrics.{instance_metric_tsd}
use app_autoscaler.Envelopes.{uint32, rounded, metric_of}

-- What the program reads of an events.Envelope, over the type of its floats.
pub record ContainerMetric (F : Type 0) : Type 0 where
  pub application_id : String
  pub instance_index : ℤ
  pub cpu_percentage : F
  pub memory_bytes : ℕ
  pub memory_bytes_quota : ℕ

pub record ContainerEnvelope (F : Type 0) : Type 0 where
  pub timestamp : ℤ
  pub container_metric : Option (ContainerMetric F)

pub record AppPoller : Type 0 where
  pub app_id : String
  pub cache : TsdCache AppInstanceMetric
  pub is_metrics_persistency_supported : Bool
  pub sent : List AppInstanceMetric

-- The loop of at most `suc n` attempts, which stops at the first that succeeds.
unfoldable pub retry : {A : Type 0} → ℕ → ℕ → (ℕ → Result A) → Result A
retry zero attempt ask = ask attempt
retry (suc n) attempt ask =
    let again = retry n (suc attempt) ask in elim (ask attempt) [ ok a ↦ ok a | err e ↦ again ]

module _ (fl : Float64) where
  -- The value of memoryutil.
  abbrev pub percentage : ℕ → ℕ → String
  percentage used quota =
      rounded fl (fl.mul (fl.div (fl.of_int (pos used)) (fl.of_int (pos quota))) fl.hundred)

  abbrev pub of_container : ℤ → String → ℤ → ContainerMetric fl.F → List AppInstanceMetric
  of_container now app t cm =
      let i = uint32 cm.instance_index in
      let used =
        metric_of app i now "memoryused" "MB"
          (rounded fl (fl.div (fl.of_int (pos cm.memory_bytes)) (fl.of_int (pos 1048576)))) t in
      let cpu = metric_of app i now "cpu" "%" (rounded fl cm.cpu_percentage) t in
      if cm.memory_bytes_quota == 0
      then used ∷ cpu ∷ []
      else used
        ∷ metric_of app i now "memoryutil" "%" (percentage cm.memory_bytes cm.memory_bytes_quota) t
        ∷ cpu
        ∷ []

  -- GetMetricsFromContainerEnvelope
  unfoldable pub get_metrics_from_container_envelope :
      ℤ → String → ContainerEnvelope fl.F → List AppInstanceMetric
  get_metrics_from_container_envelope now app e = elim e.container_metric [
    | none ↦ []
    | some cm ↦ if str_eq cm.application_id app then of_container now app e.timestamp cm else []
  ]

  -- GetMetricsFromContainerEnvelopes
  unfoldable pub get_metrics_from_container_envelopes :
      ℤ → String → List (ContainerEnvelope fl.F) → List AppInstanceMetric
  unfolding get_metrics_from_container_envelope
  get_metrics_from_container_envelopes now app [] = []
  get_metrics_from_container_envelopes now app (e ∷ es) =
      get_metrics_from_container_envelope now app e
      ++ get_metrics_from_container_envelopes now app es

-- The loop over the metrics.
unfoldable pub take_metrics : List AppInstanceMetric → AppPoller → Option AppPoller
take_metrics [] p = some p
take_metrics (m ∷ ms) p = put p.cache m >>= λ c. take_metrics ms (record p {
  cache = c;
  sent = if p.is_metrics_persistency_supported then p.sent ++ m ∷ [] else p.sent;
})

-- pollMetric
unfoldable pub poll_metric :
    (fl : Float64) → ℤ → (ℕ → Result (List (ContainerEnvelope fl.F))) → AppPoller → Option AppPoller
unfolding retry take_metrics get_metrics_from_container_envelopes
poll_metric fl now ask p = elim (retry 2 0 ask) [
  | err e ↦ some p
  | ok es ↦ take_metrics (get_metrics_from_container_envelopes fl now p.app_id es) p
]

-- Query
unfoldable pub poller_answer : ℤ → ℤ → LabelMap → AppPoller → Option (List AppInstanceMetric × Bool)
poller_answer start end labels p = query p.cache start (wrap64 (end +ℤ pos 1)) labels
