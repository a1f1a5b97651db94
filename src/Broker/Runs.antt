-- ===== src/Broker/Runs.antt =====
-- What a broker promises: which instances and bindings there are, and how each request changes that. The
-- handlers over the tables implement it, if no statement fails.
use app_autoscaler.Prelude.{
  ℕ, String, ◌≡◌, refl, sym, ap, ◌∙◌, inl, inr, Bool, true, false, not, ◌||◌, Option, none, some,
  List, [], ◌∷◌, str_eq, eq_refl, if◌then◌else◌, arith, Bool-cases, Option-cases,
}
use app_autoscaler.Prelude.Int.{ℤ}
use app_autoscaler.Prelude.Dict.{Dict, lookup, lookup-insert, lookup-remove}
use app_autoscaler.EngineDb.{no_faults}
use app_autoscaler.BindingDb.{
  Instance, Binding, BindingDb, create_row, delete_row, create_service_instance,
  delete_service_instance, create_service_binding, delete_service_binding,
}
use app_autoscaler.Http.{Response, status}
use app_autoscaler.Broker.{
  Decoded, undecodable, null, decoded, guarded, is_empty, created_body, lacks_common,
  lacks_creation, creation_response, deletion_response, Request, create, delete, bind, unbind,
  create_instance, delete_instance, bind_instance, unbind_instance, route, Config, middleware,
  Arrival, serve, serve_all,
}

-- Which rows there are, by their ids.
abbrev pub Rows : Type 0 → Type 0
Rows V = String → Option V

abbrev pub with_row : {V : Type 0} → String → Option V → Rows V → Rows V
with_row id v rows k = if str_eq id k then v else rows k

-- The status of a creation, and what it makes of the rows.
abbrev pub creates : {V : Type 0} → String → V → Rows V → Rows V × ℕ
creates id v rows = elim (rows id) [
  | some old ↦ (rows, 200)
  | none ↦ (with_row id (some v) rows, 201)
]

-- The same of a deletion.
abbrev pub deletes : {V : Type 0} → String → Rows V → Rows V × ℕ
deletes id rows = elim (rows id) [ none ↦ (rows, 410) | some old ↦ (with_row id none rows, 200) ]

pub record View : Type 0 where
  pub instances : Rows Instance
  pub bindings : Rows Binding

-- What the broker promises of a well-formed request; for any other it does not matter.
abbrev pub promised : ℤ → Request → View → View × ℕ
promised now (create id (decoded b)) v =
    let r = creates id (record { org_id = b.org_guid; space_id = b.space_guid }) v.instances in
    (record v { instances = r.0 }, r.1)
promised now (delete id body) v =
    let r = deletes id v.instances in (record v { instances = r.0 }, r.1)
promised now (bind instance_id id (decoded b)) v =
    let r =
      creates id (record { service_instance_id = instance_id; app_id = b.app_id; created_at = now })
        v.bindings in
    (record v { bindings = r.0 }, r.1)
promised now (unbind instance_id id body) v =
    let r = deletes id v.bindings in (record v { bindings = r.0 }, r.1)
promised now (create id body) v = (v, 400)
promised now (bind instance_id id body) v = (v, 400)

-- What the run of the promises answers.
abbrev pub promised_all : List (ℤ × Request) → View → View × List ℕ
promised_all [] v = (v, [])
promised_all ((now, r) ∷ rs) v =
    let p = promised now r v in let rest = promised_all rs p.0 in (rest.0, p.1 ∷ rest.1)

-- Whether a request has its ids and the fields of its body.
abbrev pub is_complete : {A : Type 0} → Bool → (A → Bool) → Decoded A → Bool
is_complete no_id lacks undecodable = false
is_complete no_id lacks null = false
is_complete no_id lacks (decoded b) = not (no_id || lacks b)

abbrev pub well_formed : Request → Bool
well_formed (create id body) = is_complete (is_empty id) lacks_creation body
well_formed (delete id body) = is_complete (is_empty id) lacks_common body
well_formed (bind id binding_id body) =
    is_complete (is_empty id || is_empty binding_id) (λ b. lacks_common b.common) body
well_formed (unbind id binding_id body) =
    is_complete (is_empty id || is_empty binding_id) lacks_common body

unfoldable pub AllWellFormed : List (ℤ × Request) → Type 0
AllWellFormed [] = Unit {0}
AllWellFormed ((now, r) ∷ rs) = (well_formed r ≡ true) × AllWellFormed rs

-- The tables have the rows of the view.
pub record Implements (db : BindingDb) (v : View) : Type 0 where
  pub instances : (id : String) → lookup id db.instances ≡ v.instances id
  pub bindings : (id : String) → lookup id db.bindings ≡ v.bindings id

-- A request that is complete gets past the guards.
guarded_goes :
    {A : Type 0} (P : BindingDb × Response → Type 0) (no_id : Bool) (lacks : A → Bool)
    (body : Decoded A) (db : BindingDb) (handle : A → BindingDb × Response)
    → is_complete no_id lacks body ≡ true
    → ((b : A) → body ≡ decoded b → P (handle b))
    → P (guarded no_id lacks body db handle)
guarded_goes P no_id lacks undecodable db handle w goes = ground arith
guarded_goes P no_id lacks null db handle w goes = ground arith
guarded_goes P no_id lacks (decoded b) db handle w goes = elim (Bool-cases (no_id || lacks b)) [
  | inl e ↦ let never : false ≡ true = rw e at w in ground arith
  | inr e ↦ rw (guarded, e) (goes b refl)
]

-- A creation on a table does what it does on the rows.
create_row_lem :
    {V : Type 0} (id : String) (v : V) (table : Dict V) (rows : Rows V) (text body : String)
    → ((k : String) → lookup k table ≡ rows k)
    → ((k : String) → lookup k (create_row no_faults id v table).0 ≡ (creates id v rows).0 k)
      × (status (creation_response text body (create_row no_faults id v table).1)
          ≡ some (creates id v rows).1)
create_row_lem id v table rows text body same = elim (Option-cases (lookup id table)) [
  | inr (old, p) ↦
      let q = sym (same id) ∙ p in
      (λ k. rw (create_row, p, creates, q) (same k), rw (create_row, p, creates, q) refl)
  | inl p ↦
      let q = sym (same id) ∙ p in
      (
        λ k.
            rw (create_row, p, creates, q)
              (lookup-insert id k v table ∙ ap (λ z. if str_eq id k then some v else z) (same k)),
        rw (create_row, p, creates, q) refl,
      )
]

delete_row_lem :
    {V : Type 0} (id : String) (table : Dict V) (rows : Rows V) (text gone : String)
    → ((k : String) → lookup k table ≡ rows k)
    → ((k : String) → lookup k (delete_row no_faults id table).0 ≡ (deletes id rows).0 k)
      × (status (deletion_response text gone (delete_row no_faults id table).1)
          ≡ some (deletes id rows).1)
delete_row_lem id table rows text gone same = elim (Option-cases (lookup id table)) [
  | inl p ↦
      let q = sym (same id) ∙ p in
      (λ k. rw (delete_row, p, deletes, q) (same k), rw (delete_row, p, deletes, q) refl)
  | inr (old, p) ↦
      let q = sym (same id) ∙ p in
      (
        λ k.
            rw (delete_row, p, deletes, q)
              (lookup-remove id k table ∙ ap (λ z. if str_eq id k then none else z) (same k)),
        rw (delete_row, p, deletes, q) refl,
      )
]

-- An answer keeps a promise.
abbrev pub KeepsPromise : View × ℕ → BindingDb × Response → Type 0
KeepsPromise (v, s) (db, response) = Implements db v × (status response ≡ some s)

route_lem :
    (uri : String) (now : ℤ) (r : Request) (db : BindingDb) (v : View)
    → well_formed r ≡ true
    → Implements db v
    → KeepsPromise (promised now r v) (route uri no_faults now r db)
unfolding route create_instance delete_instance bind_instance unbind_instance
    create_service_instance delete_service_instance create_service_binding delete_service_binding
route_lem uri now (create id body) db v w i =
    guarded_goes (KeepsPromise (promised now (create id body) v)) _ _ body db _ w (λ b e.
      let (rows, s) =
        create_row_lem id (record { org_id = b.org_guid; space_id = b.space_guid }) db.instances
          v.instances "Error creating service instance" (created_body uri id) i.instances in
      rw e (record { instances = rows; bindings = i.bindings }, s))
route_lem uri now (delete id body) db v w i =
    guarded_goes (KeepsPromise (promised now (delete id body) v)) _ _ body db _ w (λ b e.
      let (rows, s) =
        delete_row_lem id db.instances v.instances "Error deleting service instance"
          "Service Instance Doesn't Exist" i.instances in
      (record { instances = rows; bindings = i.bindings }, s))
route_lem uri now (bind id binding_id body) db v w i =
    guarded_goes (KeepsPromise (promised now (bind id binding_id body) v)) _ _ body db _ w (λ b e.
      let (rows, s) =
        create_row_lem binding_id
          (record { service_instance_id = id; app_id = b.app_id; created_at = now }) db.bindings
          v.bindings "Error creating service binding" "" i.bindings in
      rw e (record { instances = i.instances; bindings = rows }, s))
route_lem uri now (unbind id binding_id body) db v w i =
    guarded_goes (KeepsPromise (promised now (unbind id binding_id body) v)) _ _ body db _ w (λ b e.
      let (rows, s) =
        delete_row_lem binding_id db.bindings v.bindings "Error creating service binding"
          "Service Binding Doesn't Exist" i.bindings in
      (record { instances = i.instances; bindings = rows }, s))

-- A request with the credentials of the configuration, of which no statement fails.
abbrev pub arrive : Config → ℤ × Request → Arrival
arrive conf (now, r) = record {
  credentials = some (conf.broker_username, conf.broker_password);
  faults = no_faults;
  now = now;
  request = r;
}

abbrev pub arrive_all : Config → List (ℤ × Request) → List Arrival
arrive_all conf [] = []
arrive_all conf (r ∷ rs) = arrive conf r ∷ arrive_all conf rs

abbrev pub statuses : List (Request × Response) → List (Option ℕ)
statuses [] = []
statuses ((r, response) ∷ log) = status response ∷ statuses log

abbrev pub all_some : List ℕ → List (Option ℕ)
all_some [] = []
all_some (n ∷ ns) = some n ∷ all_some ns

serve_lem :
    (conf : Config) (now : ℤ) (r : Request) (db : BindingDb) (v : View)
    → well_formed r ≡ true
    → Implements db v
    → KeepsPromise (promised now r v) (serve conf (arrive conf (now, r)) db)
unfolding serve middleware
serve_lem conf now r db v w i =
    rw (serve, middleware, eq_refl conf.broker_username, eq_refl conf.broker_password)
      (route_lem conf.dashboard_redirect_uri now r db v w i)

-- Let no statement fail, and let every request of a run have the broker's credentials, its ids and the fields of
-- its body. Then the statuses of the responses are the ones that the broker promises: 201 for a creation
-- of what is not there, 200 for one of what is there, which stays as it is, 200 for a deletion of what is there,
-- and 410 for one of what is not. After the run the tables have the rows that the promises leave.
pub serve_all_lem :
    (conf : Config) (rs : List (ℤ × Request)) (db : BindingDb) (v : View)
    → AllWellFormed rs
    → Implements db v
    → (statuses (serve_all conf (arrive_all conf rs) db).1 ≡ all_some (promised_all rs v).1)
      × Implements (serve_all conf (arrive_all conf rs) db).0 (promised_all rs v).0
unfolding serve_all AllWellFormed
serve_all_lem conf [] db v w i = (refl, i)
serve_all_lem conf ((now, r) ∷ rs) db v w i =
    let (kept, answer) = serve_lem conf now r db v w.0 i in
    let (answers, kept_all) =
      serve_all_lem conf rs (serve conf (arrive conf (now, r)) db).0 (promised now r v).0 w.1
        kept in
    (rw (answer, answers) refl, kept_all)
