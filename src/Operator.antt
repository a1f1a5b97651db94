-- ===== src/Operator.antt =====
-- operator/applicationsyncer.go: the policies of the apps that do not exist any more are deleted from the
-- policy database (db/sqldb/policy_sqldb.go), here a map from the app. The answers of the cloud controller
-- and the faults of the database are given.
pub mod Prunes
mod Examples
use app_autoscaler.Prelude.{ℕ, String, Option, none, some, List, [], ◌∷◌}
use app_autoscaler.Prelude.Dict.{Dict, remove}
use app_autoscaler.Models.{
  Error, active_schedule_not_found, app_not_found, bad_conn, invalid_number, message, Result, ok,
  err, AppEntity,
}

abbrev pub Policies : Type 0
Policies = Dict String

abbrev pub app_ids : Policies → List String
app_ids [] = []
app_ids ((app, policy) ∷ policies) = app ∷ app_ids policies

-- GetAppIds
unfoldable pub get_app_ids : Option Error → Policies → Result (List String)
get_app_ids (some e) policies = err e
get_app_ids none policies = ok (app_ids policies)

-- DeletePolicy
unfoldable pub delete_policy : Option Error → String → Policies → Policies × Option Error
delete_policy (some e) app policies = (policies, some e)
delete_policy none app policies = (remove app policies, none)

-- Whether the cloud controller says that the app does not exist.
abbrev pub is_gone : Result AppEntity → Option String
is_gone (ok entity) = none
is_gone (err (app_not_found text)) = some text
is_gone (err active_schedule_not_found) = none
is_gone (err bad_conn) = none
is_gone (err (invalid_number text)) = none
is_gone (err (message text)) = none

module _ (get_app : String → Result AppEntity) (delete_fails : String → Option Error) where
  -- The loop over the apps, which a failed deletion ends.
  unfoldable pub prune : List String → Policies → Policies
  unfolding delete_policy
  prune [] policies = policies
  prune (app ∷ apps) policies =
      let skipped = prune apps policies in
      elim (is_gone (get_app app)) [
        | none ↦ skipped
        | some text ↦
            let deleted = prune apps (delete_policy none app policies).0 in
            elim (delete_fails app) [
              | some x ↦ (delete_policy (some x) app policies).0
              | none ↦ deleted
            ]
      ]

  -- Operate
  unfoldable pub operate : Option Error → Policies → Policies
  unfolding get_app_ids prune
  operate fault policies = elim (get_app_ids fault policies) [
    | err e ↦ policies
    | ok apps ↦ prune apps policies
  ]
