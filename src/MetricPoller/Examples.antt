-- ===== src/MetricPoller/Examples.antt =====
-- A poller, and a cluster of two nodes.
use app_autoscaler.Prelude.{
  ℕ, String, ◌≡◌, ◌≢◌, refl, ◌⊎◌, Option, some, List, [], ◌∷◌, get_elem?, arith,
}
use app_autoscaler.Prelude.Int.{pos, InInt64, wrap64, ◌+ℤ◌, ◌-ℤ◌, ◌*ℤ◌}
use app_autoscaler.Strconv.{parse_int, format_int}
use app_autoscaler.Models.{ok, AppInstanceMetric, AppMetric}
use app_autoscaler.Http.{Query, redirected}
use app_autoscaler.MetricHandler.{MetricQuery}
use app_autoscaler.MetricHandler.Redirects.{owner}
use app_autoscaler.Float.Thousandths.{thousandths}
use app_autoscaler.MetricPoller.{poller_query, aggregate, retrieve_metric, Reply, replied}
use app_autoscaler.MetricPoller.Asks.{at_node, wanted, poller_query_answered}

abbrev valued : String → AppInstanceMetric
valued v = record {
  app_id = "a";
  instance_index = 0;
  collected_at = pos 1;
  name = "cpu";
  unit = "%";
  value = v;
  timestamp = pos 1;
}

abbrev result : String → String → AppMetric
result v u = record { app_id = "a"; metric_type = "cpu"; value = v; unit = u; timestamp = pos 9 }

-- Values that do not parse are left out; a negative average is rounded up.
averages :
    (aggregate thousandths (pos 9) "a" "cpu" (valued "3" ∷ valued "x" ∷ valued "4" ∷ [])
      ≡ result "4" "%")
    × (aggregate thousandths (pos 9) "a" "cpu" (valued "-3" ∷ []) ≡ result "-2" "%")
    × (aggregate thousandths (pos 9) "a" "cpu" (valued "x" ∷ []) ≡ result "" "")
unfolding aggregate parse_int format_int wrap64 ◌+ℤ◌ ◌*ℤ◌
averages = (refl, refl, refl)

abbrev get : String → String → Query → Reply
get app metric_type q = replied 200 (some (valued "7" ∷ []))

retrieves :
    retrieve_metric thousandths get
      (pos 100)
      (pos 9)
      (record { app_id = "a"; metric_type = "cpu"; stat_window = pos 60 })
    ≡ some (result "7" "%")
unfolding retrieve_metric aggregate parse_int format_int wrap64 ◌+ℤ◌ ◌-ℤ◌ ◌*ℤ◌
retrieves = refl

abbrev marks : List AppInstanceMetric → Option String
marks [] = some "none"
marks (m ∷ ms) = some m.value

abbrev cluster : ℕ → MetricQuery
cluster i app index name start end order = ok (valued (format_int end) ∷ [])

abbrev adds : List String
adds = "one" ∷ "two" ∷ []

int64s : InInt64 (pos 40) × InInt64 (pos 100)
int64s = ((omega arith, omega arith), (omega arith, omega arith))

poller_query_answered_example :
    ((owner adds "a" ≡ 1)
      × (at_node
            (pos 40)
            (pos 100)
            int64s.0
            int64s.1
            marks
            cluster
            adds
            "a"
            "cpu"
            1
            (poller_query (pos 40) (pos 100))
          ≡ wanted (pos 40) (pos 100) int64s.0 int64s.1 marks cluster adds "a" "cpu"))
    ⊎ ((owner adds "a" ≢ 1)
        × (host : String) × (q : Query) × (get_elem? adds (owner adds "a") ≡ some host)
        × (at_node
              (pos 40)
              (pos 100)
              int64s.0
              int64s.1
              marks
              cluster
              adds
              "a"
              "cpu"
              1
              (poller_query (pos 40) (pos 100))
            ≡ redirected host q)
        × (at_node
              (pos 40)
              (pos 100)
              int64s.0
              int64s.1
              marks
              cluster
              adds
              "a"
              "cpu"
              (owner adds "a")
              q
            ≡ wanted (pos 40) (pos 100) int64s.0 int64s.1 marks cluster adds "a" "cpu"))
poller_query_answered_example =
    poller_query_answered (pos 40) (pos 100) int64s.0 int64s.1 marks cluster adds "a" "cpu" 1
      (omega arith)
