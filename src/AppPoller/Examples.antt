-- ===== src/AppPoller/Examples.antt =====
-- Two polls, of which the first needs a second attempt.
use app_autoscaler.Prelude.{
  Option, none, ℕ, zero, suc, String, ◌≡◌, refl, Bool, true, some, List, [], ◌∷◌, ◌++◌, arith,
  if◌then◌else◌,
}
use app_autoscaler.Prelude.Int.{ℤ, pos, ◌+ℤ◌, ◌*ℤ◌, InInt64}
use app_autoscaler.Strconv.{format_int}
use app_autoscaler.Float.Thousandths.{thousandths}
use app_autoscaler.Models.{Result, ok, err, bad_conn, AppInstanceMetric}
use app_autoscaler.TsdCache.{
  TsdCache, ◌>>=◌, new_tsd_cache, put, store, binary_search, search, low, high,
}
use app_autoscaler.TsdCache.Filled.{new-Filled}
use app_autoscaler.TsdCache.Sound.{Answers}
use app_autoscaler.InstanceMetrics.{instance_metric_tsd}
use app_autoscaler.AppPoller.{
  ContainerEnvelope, AppPoller, retry, take_metrics, poll_metric,
  get_metrics_from_container_envelope, get_metrics_from_container_envelopes, poller_answer,
}
use app_autoscaler.AppPoller.Polled.{Poll, ArePolled, poll_all, poll_all_lem}

abbrev empty_cache : TsdCache AppInstanceMetric
empty_cache = (new-Filled 9).0

abbrev poller : AppPoller
poller = record {
  app_id = "a";
  cache = empty_cache;
  is_metrics_persistency_supported = true;
  sent = [];
}

abbrev envelope : ℕ → ContainerEnvelope ℤ
envelope t = record {
  timestamp = pos t;
  container_metric = some (record {
    application_id = "a";
    instance_index = pos 0;
    cpu_percentage = pos 7000;
    memory_bytes = 3145728;
    memory_bytes_quota = 0;
  });
}

abbrev answers : ℕ → Result (List (ContainerEnvelope ℤ))
answers zero = err bad_conn
answers (suc k) = ok (envelope 20 ∷ [])

abbrev polls : List (Poll thousandths)
polls = (pos 30, answers) ∷ (pos 50, λ k. ok (envelope 40 ∷ [])) ∷ (pos 70, λ k. err bad_conn) ∷ []

abbrev measured : ℤ → ℕ → String → String → String → AppInstanceMetric
measured now t name unit value = record {
  app_id = "a";
  instance_index = 0;
  collected_at = now;
  name = name;
  unit = unit;
  value = value;
  timestamp = pos t;
}

abbrev metrics : List AppInstanceMetric
metrics =
    measured (pos 30) 20 "memoryused" "MB" "3"
    ∷ measured (pos 30) 20 "cpu" "%" "7"
    ∷ measured (pos 50) 40 "memoryused" "MB" "3"
    ∷ measured (pos 50) 40 "cpu" "%" "7"
    ∷ []

abbrev sent_or_none : Option AppPoller → List AppInstanceMetric
sent_or_none none = []
sent_or_none (some p) = p.sent

polls_run :
    sent_or_none
      (new_tsd_cache 10 >>= λ c. poll_all thousandths polls (record poller { cache = c }))
    ≡ metrics
unfolding poll_metric retry take_metrics get_metrics_from_container_envelopes new_tsd_cache put
    get_metrics_from_container_envelope format_int ◌*ℤ◌ ◌+ℤ◌ store binary_search search low high
    instance_metric_tsd
polls_run = refl

small : InInt64 (pos 60 +ℤ pos 1)
unfolding ◌+ℤ◌
small = (omega arith, omega arith)

poll_all_lem_example :
    (p' : AppPoller) × (ms : List AppInstanceMetric) × (poll_all thousandths polls poller ≡ some p')
    × ArePolled thousandths poller.app_id polls ms
    × (p'.sent
        ≡ (if poller.is_metrics_persistency_supported then poller.sent ++ ms else poller.sent))
    × ((found : List AppInstanceMetric) × (hit : Bool) × (poller_answer
            (pos 10)
            (pos 60)
            (("name", "cpu") ∷ [])
            p'
          ≡ some (found, hit))
        × (hit ≡ true → Answers (pos 10) (pos 60 +ℤ pos 1) (("name", "cpu") ∷ []) ms found))
poll_all_lem_example =
    poll_all_lem thousandths 9 polls poller (pos 10) (pos 60) (("name", "cpu") ∷ [])
      (new-Filled 9).2 small
