-- ===== src/Forwarder/Examples.antt =====
-- Concrete requests to publish metrics.
use app_autoscaler.Prelude.{
  ◌≡◌, refl, String, true, inl, Option, none, some, List, [], ◌∷◌, Holds, str_eq,
}
use app_autoscaler.Prelude.Int.{pos}
use app_autoscaler.Prelude.Dict.{Dict, lookup, insert}
use app_autoscaler.Models.{Error, ok, ScalingPolicy, ScalingRule, AppPolicy}
use app_autoscaler.Forwarder.{
  Metric, Body, null, decoded, Request, Backend, Caches, crash, contains, validate_credentials,
  check_names, allowed_types, get_metrics, publish_body, publish_fresh, publish_metrics,
  refresh_allowed_metric_cache,
}
use app_autoscaler.Forwarder.Publish.{Authorised, Admitted, publish_sound}
use app_autoscaler.Forwarder.Shared.{refresh_shares}

abbrev rule : String → ScalingRule
rule name = record {
  metric_type = name;
  breach_duration_seconds = pos 60;
  threshold = pos 80;
  operator = ">";
  cool_down_seconds = pos 30;
  adjustment = "+1";
}

abbrev policy : String → ScalingPolicy
policy name = record { instance_min = pos 1; instance_max = pos 5; scaling_rules = rule name ∷ [] }

abbrev backend : Backend
backend = record {
  compare = λ hash text. str_eq hash text;
  credentials = λ app. ok (record { username = "user"; password = "word" });
  policy = λ app. ok (some (policy "queue"));
}

abbrev queue : Metric
queue = record { name = "queue"; unit = "" }

abbrev request : Body → Request
request body = record { basic_auth = some ("user", "word"); app_id = "a"; body = body }

abbrev no_caches : Caches
no_caches = record { credential_cache = []; allowed_metric_cache = [] }

abbrev sent : Request
sent = request (decoded (record { instance_index = 0; custom_metrics = some queue ∷ [] }))

emitted_one :
    (publish_metrics backend sent no_caches).emitted
    ≡ record { app_guid = "a"; index = 0; metric = queue } ∷ []
unfolding publish_metrics publish_fresh publish_body allowed_types check_names get_metrics
    validate_credentials lookup insert
emitted_one = refl

-- A body `null` ends in a panic.
null_runs : (publish_metrics backend (request null) no_caches).response ≡ crash
unfolding publish_metrics publish_fresh publish_body allowed_types validate_credentials lookup
    insert
null_runs = refl

-- So does an element `null` of the metrics.
null_element_runs :
    (publish_metrics backend
      (request (decoded (record { instance_index = 0; custom_metrics = some queue ∷ none ∷ [] })))
      no_caches).response
    ≡ crash
unfolding publish_metrics publish_fresh publish_body allowed_types check_names validate_credentials
    lookup insert
null_element_runs = refl

emits_it :
    Holds
      (record { app_guid = "a"; index = 0; metric = queue })
      (publish_metrics backend sent no_caches).emitted
emits_it = rw emitted_one (inl refl)

publish_sound_example :
    Authorised backend sent no_caches
    × Admitted backend "a" sent.body no_caches
        (record { app_guid = "a"; index = 0; metric = queue })
publish_sound_example =
    publish_sound backend sent no_caches (record { app_guid = "a"; index = 0; metric = queue })
      emits_it

abbrev policies : Dict AppPolicy
policies =
    ("a", record { app_id = "a"; scaling_policy = policy "queue" })
    ∷ ("b", record { app_id = "b"; scaling_policy = policy "jobs" })
    ∷ []

abbrev cached : Caches
cached = record {
  credential_cache = [];
  allowed_metric_cache = ("a", "queue" ∷ []) ∷ ("b", "jobs" ∷ []) ∷ [];
}

found_both :
    (lookup "a" cached.allowed_metric_cache ≡ some ("queue" ∷ []))
    × (lookup "b" cached.allowed_metric_cache ≡ some ("jobs" ∷ []))
    × (lookup "a" policies ≡ some (record { app_id = "a"; scaling_policy = policy "queue" }))
    × (lookup "b" policies ≡ some (record { app_id = "b"; scaling_policy = policy "jobs" }))
unfolding lookup
found_both = (refl, refl, refl, refl)

abbrev calm : String → Option Error
calm app = none

refresh_shares_example :
    (types : List String) × (lookup "a"
        (refresh_allowed_metric_cache policies calm cached).0.allowed_metric_cache
      ≡ some types)
    × (contains "queue" types ≡ true)
    × (contains "jobs" types ≡ true)
refresh_shares_example =
    refresh_shares policies calm cached "a" "b" ("queue" ∷ []) ("jobs" ∷ [])
      (record { app_id = "a"; scaling_policy = policy "queue" })
      (record { app_id = "b"; scaling_policy = policy "jobs" }) (rule "queue") (rule "jobs")
      (λ a. refl) found_both.0 found_both.2 (inl refl) found_both.1 found_both.3 (inl refl)
