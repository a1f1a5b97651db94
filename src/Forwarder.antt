-- ===== src/Forwarder.antt =====
-- metricsforwarder/server/custom_metrics_handlers.go and metricsforwarder/manager/policyManager.go: custom
-- metrics are taken from an app that shows its credentials, if its policy names them. The caches of
-- the go-cache package are maps of the entries that have not expired; bcrypt's comparison, the policy
-- database and the request are given. A set of metric types is a list.
pub mod Publish
pub mod Shared
mod Examples
use app_autoscaler.Prelude.{
  ℕ, String, Bool, true, false, not, ◌&&◌, Option, none, some, List, [], ◌∷◌, ◌++◌, str_eq,
  if◌then◌else◌,
}
use app_autoscaler.Prelude.Dict.{Dict, lookup, insert}
use app_autoscaler.Strconv.{◌⧺◌}
use app_autoscaler.Models.{
  Error, Result, ok, err, message, error_text, ScalingPolicy, ScalingRule, AppPolicy,
  CustomMetricCredentials,
}

-- models.Metric, without the fields that are passed on unread.
pub record Metric : Type 0 where
  pub name : String
  pub unit : String

-- The metrics are pointers: an element `null` of the body is a nil pointer, `none` here.
pub record MetricsConsumer : Type 0 where
  pub instance_index : ℕ
  pub custom_metrics : List (Option Metric)

-- models.CustomMetric
pub record CustomMetric : Type 0 where
  pub app_guid : String
  pub index : ℕ
  pub metric : Metric

-- What the request's body decodes to; `null` decodes to a nil pointer.
pub data Body : Type 0 where
  unreadable malformed null : Body
  decoded : MetricsConsumer → Body

pub record Request : Type 0 where
  pub basic_auth : Option (String × String)
  pub app_id : String
  pub body : Body

pub record Backend : Type 0 where
  pub compare : String → String → Bool  -- CompareHashAndPassword(hash, text) == nil
  pub credentials : String → Result CustomMetricCredentials
  pub policy : String → Result (Option ScalingPolicy)

pub record Caches : Type 0 where
  pub credential_cache : Dict CustomMetricCredentials
  pub allowed_metric_cache : Dict (List String)

-- The response, or a panic.
pub data Response : Type 0 where
  status : ℕ → String → Response
  crash : Response

pub record Published : Type 0 where
  pub caches : Caches
  pub response : Response
  pub emitted : List CustomMetric

abbrev pub contains : String → List String → Bool
contains s [] = false
contains s (x ∷ xs) = if str_eq x s then true else contains s xs

abbrev pub standard_metrics : List String
standard_metrics = "memoryused" ∷ "memoryutil" ∷ "throughput" ∷ "responsetime" ∷ "cpu" ∷ []

abbrev pub add_rule_types : List ScalingRule → List String → List String
add_rule_types [] types = types
add_rule_types (r ∷ rs) types = add_rule_types rs (r.metric_type ∷ types)

-- validateCredentials
unfoldable pub validate_credentials : Backend → String → String → CustomMetricCredentials → Bool
validate_credentials b username password c =
    b.compare c.username username && b.compare c.password password

-- What the loop over the metrics ends in.
pub data Checked : Type 0 where
  accepted panicked : Checked
  rejected : Error → Checked

-- The loop over the metrics of validateCustomMetricTypes; it panics at a nil pointer.
unfoldable pub check_names : List String → List (Option Metric) → Checked
check_names allowed [] = accepted
check_names allowed (none ∷ ms) = panicked
check_names allowed (some m ∷ ms) =
    let rest = check_names allowed ms in
    if contains m.name standard_metrics
    then rejected (message ("Custom Metric: " ⧺ m.name ⧺ " matches with standard metrics name"))
    else if contains m.name allowed
    then rest
    else rejected
        (message ("Custom Metric: " ⧺ m.name ⧺ " does not match with metrics defined in policy"))

-- The allowed types of validateCustomMetricTypes, from the cache or the database.
unfoldable pub allowed_types : Backend → String → Caches → Caches × Result (List String)
allowed_types b app c = elim (lookup app c.allowed_metric_cache) [
  | some types ↦ (c, ok types)
  | none ↦ elim (b.policy app) [
    | err e ↦ (c, err (message "not able to get policy details"))
    | ok none ↦ (c, err (message "no policy defined"))
    | ok (some p) ↦
        let types = add_rule_types p.scaling_rules [] in
        (record c { allowed_metric_cache = insert app types c.allowed_metric_cache }, ok types)
  ]
]

-- getMetrics, or a panic at a nil pointer.
unfoldable pub get_metrics : String → ℕ → List (Option Metric) → Option (List CustomMetric)
get_metrics app i [] = some []
get_metrics app i (none ∷ ms) = none
get_metrics app i (some m ∷ ms) =
    let rest = get_metrics app i ms in
    elim rest [
      | none ↦ none
      | some metrics ↦ some (record { app_guid = app; index = i; metric = m } ∷ metrics)
    ]

abbrev pub refuse : Caches → ℕ → String → Published
refuse c n text = record { caches = c; response = status n text; emitted = [] }

abbrev pub forward : Caches → List CustomMetric → Published
forward c [] = refuse c 400 "Error parsing request body"
forward c (m ∷ ms) = record { caches = c; response = status 200 ""; emitted = m ∷ ms }

-- PublishMetrics, behind the check of the credentials.
unfoldable pub publish_body : Backend → String → Body → Caches → Published
unfolding allowed_types check_names get_metrics
publish_body b app unreadable c = refuse c 500 "Error reading custom metrics request body"
publish_body b app malformed c = refuse c 400 "Error unmarshaling custom metrics request body"
publish_body b app null c =
    let (c', r) = allowed_types b app c in
    elim r [
      | err e ↦ refuse c' 400 (error_text e)
      | ok types ↦ record { caches = c'; response = crash; emitted = [] }
    ]
publish_body b app (decoded m) c =
    let (c', r) = allowed_types b app c in
    elim r [
      | err e ↦ refuse c' 400 (error_text e)
      | ok types ↦ elim (check_names types m.custom_metrics) [
        | rejected e ↦ refuse c' 400 (error_text e)
        | panicked ↦ record { caches = c'; response = crash; emitted = [] }
        | accepted ↦ elim (get_metrics app m.instance_index m.custom_metrics) [
          | none ↦ record { caches = c'; response = crash; emitted = [] }
          | some metrics ↦ forward c' metrics
        ]
      ]
    ]

-- The credentials from the database, which replace those of the cache.
unfoldable pub publish_fresh : Backend → Request → String → String → Caches → Published
unfolding validate_credentials publish_body
publish_fresh b r username password c = elim (b.credentials r.app_id) [
  | err e ↦ refuse c 500 "Error getting binding crededntials from policyDB"
  | ok creds ↦
      let c' = record c { credential_cache = insert r.app_id creds c.credential_cache } in
      if validate_credentials b username password creds
      then publish_body b r.app_id r.body c'
      else refuse c' 401 "Incorrect credentials. Basic authorization credential does not match"
]

-- PublishMetrics
unfoldable pub publish_metrics : Backend → Request → Caches → Published
unfolding publish_fresh
publish_metrics b r c = elim r.basic_auth [
  | none ↦ refuse c 401 "Incorrect credentials. Basic authorization is not used properly"
  | some (username, password) ↦ elim (lookup r.app_id c.credential_cache) [
    | none ↦ publish_fresh b r username password c
    | some creds ↦
        if validate_credentials b username password creds
        then publish_body b r.app_id r.body c
        else publish_fresh b r username password c
  ]
]

-- The loop of RefreshAllowedMetricCache over the cached apps: the set that all of them share, the apps
-- whose entry is replaced by it, and the error of `Replace`, for an entry that has expired meanwhile.
unfoldable pub replace_types :
    Dict AppPolicy
    → (String → Option Error)
    → Dict (List String)
    → List String
    → List String × List String × Option Error
replace_types policies fails [] types = (types, [], none)
replace_types policies fails ((app, old) ∷ entries) types =
    let skipped = replace_types policies fails entries types in
    elim (lookup app policies) [
      | none ↦ skipped
      | some p ↦
          let types' = add_rule_types p.scaling_policy.scaling_rules types in
          elim (fails app) [
            | some e ↦ (types', [], some e)
            | none ↦
                let (last, replaced, e) = replace_types policies fails entries types' in
                (last, app ∷ replaced, e)
          ]
    ]

-- The entries of the apps point to the one set, which the loop goes on to change.
abbrev pub share_types : List String → List String → Dict (List String) → Dict (List String)
share_types replaced types [] = []
share_types replaced types ((app, old) ∷ entries) =
    (app, if contains app replaced then types else old) ∷ share_types replaced types entries

-- RefreshAllowedMetricCache
unfoldable pub refresh_allowed_metric_cache :
    Dict AppPolicy → (String → Option Error) → Caches → Caches × Option Error
unfolding replace_types
refresh_allowed_metric_cache policies fails c =
    let (types, replaced, e) = replace_types policies fails c.allowed_metric_cache [] in
    (record c { allowed_metric_cache = share_types replaced types c.allowed_metric_cache }, e)
