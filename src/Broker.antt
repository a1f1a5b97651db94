-- ===== src/Broker.antt =====
-- api/server/api_handler.go: the requests of a service broker, on top of BindingDb. What JSON decodes a body
-- to is given. The two requests for a binding are made like the two for an instance.
pub mod Refusals
pub mod Runs
mod Examples
use app_autoscaler.Prelude.{
  ℕ, String, Bool, true, false, ◌||◌, ◌&&◌, Option, none, some, List, [], ◌∷◌, str_eq,
  if◌then◌else◌,
}
use app_autoscaler.Prelude.Int.{ℤ}
use app_autoscaler.Strconv.{◌⧺◌}
use app_autoscaler.EngineDb.{Faults}
use app_autoscaler.BindingDb.{
  BindingDb, Outcome, done, already_exists, does_not_exist, fault, create_service_instance,
  delete_service_instance, create_service_binding, delete_service_binding,
}
use app_autoscaler.Http.{Response, refused, answered, panics}

-- models.InstanceCreationRequestBody, models.BrokerCommonRequestBody and models.BindingRequestBody
pub record CommonBody : Type 0 where
  pub service_id : String
  pub plan_id : String

pub record CreationBody : Type 0 where
  pub common : CommonBody
  pub org_guid : String
  pub space_guid : String

pub record BindingBody : Type 0 where
  pub common : CommonBody
  pub app_id : String

-- What a body decodes to; `null` makes the pointer nil.
pub data Decoded (A : Type 0) : Type 0 where
  undecodable null : Decoded A
  decoded : A → Decoded A

abbrev is_empty : String → Bool
is_empty s = str_eq s ""

-- The guards of a handler: a body that does not decode, an id of the path that is empty, a nil pointer, and
-- an empty field of the body. Otherwise the handler goes on.
abbrev pub guarded :
    {A : Type 0}
    → Bool
    → (A → Bool)
    → Decoded A
    → BindingDb
    → (A → BindingDb × Response)
    → BindingDb × Response
guarded no_id lacks undecodable db handle =
    (db, refused 500 "Interal-Server-Error" "Failed to read request body")
guarded no_id lacks null db handle =
    if no_id
    then (db, refused 400 "Bad Request" "Malformed or missing mandatory data")
    else (db, panics)
guarded no_id lacks (decoded body) db handle = elim (no_id || lacks body) [
  | true ↦ (db, refused 400 "Bad Request" "Malformed or missing mandatory data")
  | false ↦ handle body
]

-- GetDashboardURL
abbrev pub get_dashboard_url : String → String → String
get_dashboard_url uri instance_id = uri ⧺ "/manage/" ⧺ instance_id

-- The body of a 201 for an instance.
abbrev pub created_body : String → String → String
created_body uri instance_id =
    if is_empty uri then "" else "{\"dashboard_url\":\"" ⧺ get_dashboard_url uri instance_id ⧺ "\"}"

-- What a creation answers: 200 for what is there already.
abbrev pub creation_response : String → String → Outcome → Response
creation_response text body done = answered 201 body
creation_response text body already_exists = answered 200 ""
creation_response text body does_not_exist = refused 500 "Interal-Server-Error" text
creation_response text body (fault e) = refused 500 "Interal-Server-Error" text

-- What a deletion answers.
abbrev pub deletion_response : String → String → Outcome → Response
deletion_response text gone done = answered 200 "{}"
deletion_response text gone does_not_exist = refused 410 "Gone" gone
deletion_response text gone already_exists = refused 500 "Interal-Server-Error" text
deletion_response text gone (fault e) = refused 500 "Interal-Server-Error" text

abbrev pub lacks_common : CommonBody → Bool
lacks_common b = is_empty b.service_id || is_empty b.plan_id

abbrev pub lacks_creation : CreationBody → Bool
lacks_creation b = is_empty b.org_guid || is_empty b.space_guid || lacks_common b.common

-- CreateServiceInstance, with conf.DashboardRedirectURI
unfoldable pub create_instance :
    String → Faults → String → Decoded CreationBody → BindingDb → BindingDb × Response
create_instance uri f instance_id body db =
    guarded (is_empty instance_id) lacks_creation body db (λ b.
      let r = create_service_instance f instance_id b.org_guid b.space_guid db in
      (r.0, creation_response "Error creating service instance" (created_body uri instance_id) r.1))

-- DeleteServiceInstance
unfoldable pub delete_instance :
    Faults → String → Decoded CommonBody → BindingDb → BindingDb × Response
delete_instance f instance_id body db = guarded (is_empty instance_id) lacks_common body db (λ b.
    let r = delete_service_instance f instance_id db in
    (r.0, deletion_response "Error deleting service instance" "Service Instance Doesn't Exist" r.1))

-- BindServiceInstance
unfoldable pub bind_instance :
    Faults → ℤ → String → String → Decoded BindingBody → BindingDb → BindingDb × Response
bind_instance f now instance_id binding_id body db =
    guarded (is_empty instance_id || is_empty binding_id) (λ b. lacks_common b.common) body db
      (λ b.
        let r = create_service_binding f now binding_id instance_id b.app_id db in
        (r.0, creation_response "Error creating service binding" "" r.1))

-- UnbindServiceInstance; its message for a fault is the one of the creation, as in the code.
unfoldable pub unbind_instance :
    Faults → String → String → Decoded CommonBody → BindingDb → BindingDb × Response
unbind_instance f instance_id binding_id body db =
    guarded (is_empty instance_id || is_empty binding_id) lacks_common body db (λ b.
      let r = delete_service_binding f binding_id db in
      (r.0, deletion_response "Error creating service binding" "Service Binding Doesn't Exist" r.1))

-- The requests that the server routes to the handlers.
pub data Request : Type 0 where
  create : String → Decoded CreationBody → Request
  delete : String → Decoded CommonBody → Request
  bind : String → String → Decoded BindingBody → Request
  unbind : String → String → Decoded CommonBody → Request

-- The handler of a request, with the faults of its statements and the clock.
unfoldable pub route : String → Faults → ℤ → Request → BindingDb → BindingDb × Response
unfolding create_instance delete_instance bind_instance unbind_instance
route uri f now (create id body) db = create_instance uri f id body db
route uri f now (delete id body) db = delete_instance f id body db
route uri f now (bind id binding_id body) db = bind_instance f now id binding_id body db
route uri f now (unbind id binding_id body) db = unbind_instance f id binding_id body db

pub record Config : Type 0 where
  pub broker_username : String
  pub broker_password : String
  pub dashboard_redirect_uri : String

-- The middleware for basic authentication, in front of a handler.
unfoldable pub middleware :
    Config
    → Option (String × String)
    → BindingDb
    → (Unit {0} → BindingDb × Response)
    → BindingDb × Response
middleware conf none db handle = (db, answered 401 "Unauthorized\n")
middleware conf (some (username, password)) db handle =
    elim (str_eq username conf.broker_username && str_eq password conf.broker_password) [
      | true ↦ handle tt
      | false ↦ (db, answered 401 "Unauthorized\n")
    ]

-- A request with what it meets.
pub record Arrival : Type 0 where
  pub credentials : Option (String × String)
  pub faults : Faults
  pub now : ℤ
  pub request : Request

unfoldable pub serve : Config → Arrival → BindingDb → BindingDb × Response
unfolding middleware route
serve conf a db =
    middleware conf a.credentials db
      (λ u. route conf.dashboard_redirect_uri a.faults a.now a.request db)

-- A run of the server, with the requests and their responses.
unfoldable pub serve_all : Config → List Arrival → BindingDb → BindingDb × List (Request × Response)
unfolding serve
serve_all conf [] db = (db, [])
serve_all conf (a ∷ arrivals) db =
    let r = serve conf a db in
    let rest = serve_all conf arrivals r.0 in (rest.0, (a.request, r.1) ∷ rest.1)
