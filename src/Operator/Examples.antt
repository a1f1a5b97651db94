-- ===== src/Operator/Examples.antt =====
-- Concrete policies.
use app_autoscaler.Prelude.{String, Option, none, [], ◌∷◌, str_eq, if◌then◌else◌}
use app_autoscaler.Prelude.Int.{pos}
use app_autoscaler.Models.{Error, app_not_found, Result, ok, err, AppEntity}
use app_autoscaler.Operator.{Policies, operate}
use app_autoscaler.Operator.Prunes.{Pruned, operate-Pruned}

abbrev get_app : String → Result AppEntity
get_app app =
    if str_eq app "b"
    then err (app_not_found "no b")
    else ok (record { instances = pos 1; state = none })

abbrev never : String → Option Error
never app = none

abbrev no_fault : Option Error
no_fault = none

abbrev policies : Policies
policies = ("a", "{}") ∷ ("b", "{}") ∷ []

operate-Pruned_example : Pruned get_app "b" policies (operate get_app never no_fault policies)
operate-Pruned_example = operate-Pruned get_app never no_fault policies "b"
