-- ===== src/Models.antt =====
-- models/app.go, models/policy.go, models/metrics.go, models/lock.go, models/errors.go and
-- models/custom_metrics.go. Go's int and int64 are ℤ; a result that can wrap is put under `wrap64`.
-- The `Schedules` of a policy are left out: no Go code reads them.
pub mod Labels
use app_autoscaler.Prelude.{
  ℕ, ◌^◌, String, Bool, true, false, List, [], ◌∷◌, Option, none, some, str_eq, ◌==◌, ltb,
  if◌then◌else◌,
}
use app_autoscaler.Prelude.Int.{ℤ, pos, ◌*ℤ◌, leb_ℤ, wrap64}
use app_autoscaler.Strconv.{format_int, ◌⧺◌}

-- A Go error that the program looks into, a number that does not parse, or any other, with its text.
pub data Error : Type 0 where
  active_schedule_not_found : Error
  app_not_found : String → Error
  bad_conn : Error
  invalid_number : String → Error
  message : String → Error

-- err.Error()
unfoldable pub error_text : Error → String
error_text active_schedule_not_found = "active schedule not found"
error_text (app_not_found s) = s
error_text bad_conn = "driver: bad connection"
error_text (invalid_number s) = "strconv: parsing " ⧺ s
error_text (message s) = s

-- What a call returns: a value or an error.
pub data Result {ℓ} (A : Type ℓ) : Type ℓ where
  ok : A → Result A
  err : Error → Result A

pub record AppEntity : Type 0 where
  pub instances : ℤ
  pub state : Option String

pub data ScalingType : Type 0 where
  dynamic schedule : ScalingType

pub data ScalingStatus : Type 0 where
  succeeded failed ignored : ScalingStatus

pub record AppScalingHistory : Type 0 where
  pub app_id : String
  pub timestamp : ℤ
  pub scaling_type : ScalingType
  pub status : ScalingStatus
  pub old_instances : ℤ
  pub new_instances : ℤ
  pub reason : String
  pub message : String
  pub error : String

pub record AppScalingResult : Type 0 where
  pub app_id : String
  pub status : ScalingStatus
  pub adjustment : ℤ
  pub cooldown_expired_at : ℤ

pub record AppMonitor : Type 0 where
  pub app_id : String
  pub metric_type : String
  pub stat_window : ℤ

pub record ScalingRule : Type 0 where
  pub metric_type : String
  pub breach_duration_seconds : ℤ
  pub threshold : ℤ
  pub operator : String
  pub cool_down_seconds : ℤ
  pub adjustment : String

pub record ScalingPolicy : Type 0 where
  pub instance_min : ℤ
  pub instance_max : ℤ
  pub scaling_rules : List ScalingRule

pub record PolicyJson : Type 0 where
  pub app_id : String
  pub policy_str : String

pub record AppPolicy : Type 0 where
  pub app_id : String
  pub scaling_policy : ScalingPolicy

pub record Trigger : Type 0 where
  pub app_id : String
  pub metric_type : String
  pub metric_unit : String
  pub breach_duration_seconds : ℤ
  pub threshold : ℤ
  pub operator : String
  pub cool_down_seconds : ℤ
  pub adjustment : String

pub record ActiveSchedule : Type 0 where
  pub schedule_id : String
  pub instance_min : ℤ
  pub instance_max : ℤ
  pub instance_min_initial : ℤ

pub record Lock : Type 0 where
  pub owner : String
  pub last_modified_timestamp : ℤ
  pub ttl : ℤ

pub record CustomMetricCredentials : Type 0 where
  pub username : String
  pub password : String

-- time.Duration(secs) * time.Second
abbrev pub seconds : ℤ → ℤ
seconds s = wrap64 (s *ℤ pos 1000000000)

-- Trigger.BreachDuration
unfoldable pub breach_duration : Trigger → ℤ
breach_duration t = seconds t.breach_duration_seconds

-- Trigger.CoolDown
unfoldable pub cool_down : Trigger → ℤ → ℤ
cool_down t default_secs =
    if leb_ℤ t.cool_down_seconds (pos 0) then seconds default_secs else seconds t.cool_down_seconds

-- PolicyJson.Equals on two pointers that are not nil
pub PolicyJson_equals : PolicyJson → PolicyJson → Bool
PolicyJson_equals p q = if str_eq p.app_id q.app_id then str_eq p.policy_str q.policy_str else false

pub record AppInstanceMetric : Type 0 where
  pub app_id : String
  pub instance_index : ℕ  -- uint32
  pub collected_at : ℤ
  pub name : String
  pub unit : String
  pub value : String
  pub timestamp : ℤ

pub record AppMetric : Type 0 where
  pub app_id : String
  pub metric_type : String
  pub value : String
  pub unit : String
  pub timestamp : ℤ

-- A map of labels, which is only ranged over.
abbrev pub LabelMap : Type 0
LabelMap = List (String × String)

instance_metric_label : AppInstanceMetric → String → String → Bool
instance_metric_label m k v =
    if str_eq k "app_id"
    then str_eq v m.app_id
    else if str_eq k "instance_index"
    then str_eq v (format_int (pos m.instance_index))
    else if str_eq k "name"
    then str_eq v m.name
    else false

-- AppInstanceMetric.HasLabels
unfoldable pub instance_metric_has_labels : AppInstanceMetric → LabelMap → Bool
unfolding instance_metric_label
instance_metric_has_labels m [] = true
instance_metric_has_labels m ((k, v) ∷ labels) =
    let rest = instance_metric_has_labels m labels in
    if instance_metric_label m k v then rest else false

app_metric_label : AppMetric → String → String → Bool
app_metric_label m k v =
    if str_eq k "app_id"
    then str_eq v m.app_id
    else if str_eq k "name"
    then str_eq v m.metric_type
    else false

-- AppMetric.HasLabels
unfoldable pub app_metric_has_labels : AppMetric → LabelMap → Bool
unfolding app_metric_label
app_metric_has_labels m [] = true
app_metric_has_labels m ((k, v) ∷ labels) =
    let rest = app_metric_has_labels m labels in if app_metric_label m k v then rest else false
