-- ===== src/Broker/Examples.antt =====
-- Concrete requests to a broker.
use app_autoscaler.Prelude.{String, ◌≡◌, refl, ◌⊎◌, none, some, List, [], ◌∷◌, Holds}
use app_autoscaler.Prelude.Int.{ℤ, pos}
use app_autoscaler.Prelude.Dict.{lookup, insert, remove}
use app_autoscaler.Models.{bad_conn}
use app_autoscaler.BindingDb.{
  Instance, Binding, BindingDb, create_service_instance, delete_service_instance,
  create_service_binding, delete_service_binding,
}
use app_autoscaler.Http.{Response, panics, status}
use app_autoscaler.Broker.{
  Decoded, null, decoded, CommonBody, Request, create, delete, bind, unbind, create_instance,
  delete_instance, bind_instance, unbind_instance, route, Config, middleware, Arrival, serve,
  serve_all,
}
use app_autoscaler.Broker.Refusals.{serve_all_keeps}
use app_autoscaler.Broker.Runs.{
  View, AllWellFormed, Implements, promised_all, arrive, arrive_all, statuses, all_some,
  serve_all_lem,
}

abbrev conf : Config
conf = record { broker_username = "u"; broker_password = "p"; dashboard_redirect_uri = "" }

abbrev common : CommonBody
common = record { service_id = "s"; plan_id = "q" }

abbrev creation : String → Request
creation id = create id (decoded (record { common = common; org_guid = "o"; space_guid = "z" }))

abbrev requests : List (ℤ × Request)
requests =
    (pos 1, creation "i")
    ∷ (pos 2, creation "i")
    ∷ (pos 3, bind "i" "b" (decoded (record { common = common; app_id = "a" })))
    ∷ (pos 4, unbind "i" "b" (decoded common))
    ∷ (pos 5, unbind "i" "b" (decoded common))
    ∷ (pos 6, delete "i" (decoded common))
    ∷ []

abbrev no_rows : BindingDb
no_rows = record { instances = []; bindings = [] }

abbrev empty_view : View
empty_view = record { instances = λ id. none; bindings = λ id. none }

requests_run :
    statuses (serve_all conf (arrive_all conf requests) no_rows).1
    ≡ some 201 ∷ some 200 ∷ some 201 ∷ some 200 ∷ some 410 ∷ some 200 ∷ []
unfolding serve_all serve middleware route create_instance delete_instance bind_instance
    unbind_instance create_service_instance delete_service_instance create_service_binding
    delete_service_binding lookup insert remove
requests_run = refl

-- A body "null" crashes the handler.
null_runs : (serve conf (arrive conf (pos 1, create "i" null)) no_rows).1 ≡ panics
unfolding serve middleware route create_instance
null_runs = refl

all_formed : AllWellFormed requests
unfolding AllWellFormed
all_formed = (refl, (refl, (refl, (refl, (refl, (refl, tt))))))

no_rows-Implements : Implements no_rows empty_view
unfolding lookup
no_rows-Implements = record { instances = λ id. refl; bindings = λ id. refl }

serve_all_lem_example :
    (statuses (serve_all conf (arrive_all conf requests) no_rows).1
      ≡ all_some (promised_all requests empty_view).1)
    × Implements
        (serve_all conf (arrive_all conf requests) no_rows).0
        (promised_all requests empty_view).0
serve_all_lem_example = serve_all_lem conf requests no_rows empty_view all_formed no_rows-Implements

abbrev one_row : BindingDb
one_row = record { instances = ("i", record { org_id = "o"; space_id = "z" }) ∷ []; bindings = [] }

-- A stranger, a fault, and a creation of what is there.
abbrev arrivals : List Arrival
arrivals =
    record (arrive conf (pos 1, delete "i" (decoded common))) { credentials = none }
    ∷ record (arrive conf (pos 2, delete "i" (decoded common))) {
      faults = record { first = none; second = some bad_conn };
    }
    ∷ arrive conf (pos 3, creation "i")
    ∷ []

serve_all_keeps_example :
    ((id : String) (x : Instance)
      → lookup id one_row.instances ≡ some x
      → (lookup id (serve_all conf arrivals one_row).0.instances ≡ some x)
        ⊎ ((body : Decoded CommonBody) × (response : Response) × Holds
              (delete id body, response)
              (serve_all conf arrivals one_row).1
            × (status response ≡ some 200)))
    × ((id : String) (x : Binding)
        → lookup id one_row.bindings ≡ some x
        → (lookup id (serve_all conf arrivals one_row).0.bindings ≡ some x)
          ⊎ ((instance_id : String) × (body : Decoded CommonBody) × (response : Response) × Holds
                (unbind instance_id id body, response)
                (serve_all conf arrivals one_row).1
              × (status response ≡ some 200)))
serve_all_keeps_example = serve_all_keeps conf arrivals one_row
