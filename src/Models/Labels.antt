-- ===== src/Models/Labels.antt =====
-- The labels under which the program queries a series.
use app_autoscaler.Prelude.{String, ◌≡◌, arith, str_eq, [], ◌∷◌}
use app_autoscaler.Models.{AppMetric, app_metric_has_labels}

-- The label under which a series is queried: `HasLabels` says whether the metric's type is that name.
pub app_metric_has_labels_name :
    (m : AppMetric) (name : String)
    → app_metric_has_labels m (("name", name) ∷ []) ≡ str_eq name m.metric_type
unfolding app_metric_has_labels
app_metric_has_labels_name m name = ground arith
