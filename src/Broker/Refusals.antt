-- ===== src/Broker/Refusals.antt =====
-- What a run of the broker leaves alone, whatever fails.
use app_autoscaler.Prelude.{
  String, ◌≡◌, refl, sym, ap, ◌∙◌, subst, ◌⊎◌, inl, inr, Bool, true, false, ◌||◌, ◌&&◌, Option,
  none, some, List, [], ◌∷◌, str_eq, eq_iff, arith, Bool-cases, Option-cases, Holds,
}
use app_autoscaler.Prelude.Int.{ℤ}
use app_autoscaler.Prelude.Dict.{Dict, lookup, insert_other, lookup-remove}
use app_autoscaler.EngineDb.{Faults}
use app_autoscaler.BindingDb.{
  Instance, Binding, BindingDb, done, create_row, delete_row, create_service_instance,
  delete_service_instance, create_service_binding, delete_service_binding,
}
use app_autoscaler.Http.{Response, status}
use app_autoscaler.Broker.{
  Decoded, undecodable, null, decoded, CommonBody, guarded, Request, create, delete, bind, unbind,
  create_instance, delete_instance, bind_instance, unbind_instance, route, Config, middleware,
  Arrival, serve, serve_all,
}

-- A handler answers with the database as it is, or goes on.
guarded_lem :
    {A : Type 0} (P : BindingDb × Response → Type 0) (no_id : Bool) (lacks : A → Bool)
    (body : Decoded A) (db : BindingDb) (handle : A → BindingDb × Response)
    → ((response : Response) → P (db, response))
    → ((a : A) → P (handle a))
    → P (guarded no_id lacks body db handle)
guarded_lem P no_id lacks undecodable db handle stays goes = stays _
guarded_lem P true lacks null db handle stays goes = stays _
guarded_lem P false lacks null db handle stays goes = stays _
guarded_lem P no_id lacks (decoded a) db handle stays goes = elim (Bool-cases (no_id || lacks a)) [
  | inl e ↦ rw (guarded, e) (stays _)
  | inr e ↦ rw (guarded, e) (goes a)
]

-- A creation changes no row that is there.
create_row_keeps :
    {V : Type 0} (f : Faults) (new id : String) (v old : V) (table : Dict V)
    → lookup id table ≡ some old
    → lookup id (create_row f new v table).0 ≡ some old
create_row_keeps f new id v old table l = elim (Option-cases f.first) [
  | inr (e, p) ↦ rw (create_row, p) l
  | inl p ↦ elim (Option-cases (lookup new table)) [
    | inr (other, q) ↦ rw (create_row, p, q) l
    | inl q ↦ elim (Option-cases f.second) [
      | inr (e, r) ↦ rw (create_row, p, q, r) l
      | inl r ↦ elim (Bool-cases (str_eq new id)) [
        | inl same ↦
            let q' = subst (λ z. lookup z table ≡ none) ((eq_iff new id).0 same) q in ground arith
        | inr other ↦ rw (create_row, p, q, r) (insert_other new id v table other ∙ l)
      ]
    ]
  ]
]

-- A deletion keeps a row, or it is of that row and succeeds.
delete_row_keeps :
    {V : Type 0} (f : Faults) (gone id : String) (old : V) (table : Dict V)
    → lookup id table ≡ some old
    → (lookup id (delete_row f gone table).0 ≡ some old)
      ⊎ ((gone ≡ id) × ((delete_row f gone table).1 ≡ done))
delete_row_keeps f gone id old table l = elim (Option-cases f.first) [
  | inr (e, p) ↦ inl (rw (delete_row, p) l)
  | inl p ↦ elim (Option-cases (lookup gone table)) [
    | inl q ↦ inl (rw (delete_row, p, q) l)
    | inr (other, q) ↦ elim (Option-cases f.second) [
      | inr (e, r) ↦ inl (rw (delete_row, p, q, r) l)
      | inl r ↦ elim (Bool-cases (str_eq gone id)) [
        | inl same ↦ inr ((eq_iff gone id).0 same, rw (delete_row, p, q, r) refl)
        | inr different ↦
            inl (rw (delete_row, p, q, r) (lookup-remove gone id table ∙ rw different l))
      ]
    ]
  ]
]

-- The row of an instance after an answer, unless the answer is 200 to its deletion.
pub KeepsInstance : String → Instance → Request → BindingDb × Response → Type 0
KeepsInstance id x r (db, response) =
    (lookup id db.instances ≡ some x)
    ⊎ ((body : Decoded CommonBody) × (r ≡ delete id body) × (status response ≡ some 200))

-- The row of a binding, unless the answer is 200 to an unbinding of it.
pub KeepsBinding : String → Binding → Request → BindingDb × Response → Type 0
KeepsBinding id x r (db, response) =
    (lookup id db.bindings ≡ some x)
    ⊎ ((instance_id : String) × (body : Decoded CommonBody) × (r ≡ unbind instance_id id body)
        × (status response ≡ some 200))

route-KeepsInstance :
    (uri : String) (f : Faults) (now : ℤ) (r : Request) (db : BindingDb) (id : String)
    (x : Instance)
    → lookup id db.instances ≡ some x
    → KeepsInstance id x r (route uri f now r db)
unfolding route create_instance delete_instance bind_instance unbind_instance
    create_service_instance delete_service_instance create_service_binding delete_service_binding
    KeepsInstance
route-KeepsInstance uri f now (create new body) db id x l =
    guarded_lem (KeepsInstance id x (create new body)) _ _ body db _ (λ response. inl l)
      (λ b. inl (create_row_keeps f new id _ x db.instances l))
route-KeepsInstance uri f now (delete gone body) db id x l =
    guarded_lem (KeepsInstance id x (delete gone body)) _ _ body db _ (λ response. inl l)
      (λ b. elim (delete_row_keeps f gone id x db.instances l) [
        | inl k ↦ inl k
        | inr (same, e) ↦ inr (body, ap (λ z. delete z body) same, rw e refl)
      ])
route-KeepsInstance uri f now (bind new binding_id body) db id x l =
    guarded_lem (KeepsInstance id x (bind new binding_id body)) _ _ body db _ (λ response. inl l)
      (λ b. inl l)
route-KeepsInstance uri f now (unbind gone binding_id body) db id x l =
    guarded_lem (KeepsInstance id x (unbind gone binding_id body)) _ _ body db _ (λ response. inl l)
      (λ b. inl l)

route-KeepsBinding :
    (uri : String) (f : Faults) (now : ℤ) (r : Request) (db : BindingDb) (id : String) (x : Binding)
    → lookup id db.bindings ≡ some x
    → KeepsBinding id x r (route uri f now r db)
unfolding route create_instance delete_instance bind_instance unbind_instance
    create_service_instance delete_service_instance create_service_binding delete_service_binding
    KeepsBinding
route-KeepsBinding uri f now (create new body) db id x l =
    guarded_lem (KeepsBinding id x (create new body)) _ _ body db _ (λ response. inl l) (λ b. inl l)
route-KeepsBinding uri f now (delete gone body) db id x l =
    guarded_lem (KeepsBinding id x (delete gone body)) _ _ body db _ (λ response. inl l)
      (λ b. inl l)
route-KeepsBinding uri f now (bind instance_id new body) db id x l =
    guarded_lem (KeepsBinding id x (bind instance_id new body)) _ _ body db _ (λ response. inl l)
      (λ b. inl (create_row_keeps f new id _ x db.bindings l))
route-KeepsBinding uri f now (unbind instance_id gone body) db id x l =
    guarded_lem (KeepsBinding id x (unbind instance_id gone body)) _ _ body db _ (λ response. inl l)
      (λ b. elim (delete_row_keeps f gone id x db.bindings l) [
        | inl k ↦ inl k
        | inr (same, e) ↦
            inr (instance_id, body, ap (λ z. unbind instance_id z body) same, rw e refl)
      ])

-- The middleware answers with the database as it is, or goes on.
middleware_lem :
    (P : BindingDb × Response → Type 0) (conf : Config) (credentials : Option (String × String))
    (db : BindingDb) (handle : Unit {0} → BindingDb × Response)
    → ((response : Response) → P (db, response))
    → P (handle tt)
    → P (middleware conf credentials db handle)
unfolding middleware
middleware_lem P conf none db handle stays goes = stays _
middleware_lem P conf (some (username, password)) db handle stays goes =
    elim (Bool-cases
      (str_eq username conf.broker_username && str_eq password conf.broker_password)) [
        | inl e ↦ rw (middleware, e) goes
        | inr e ↦ rw (middleware, e) (stays _)
      ]

-- In any run of requests, whatever credentials they have and whatever fails, an instance that is there stays as
-- it is, unless a deletion of it is answered with 200; and a binding that is there stays as it is, unless an
-- unbinding of it is answered with 200.
pub serve_all_keeps :
    (conf : Config) (arrivals : List Arrival) (db : BindingDb)
    → ((id : String) (x : Instance)
        → lookup id db.instances ≡ some x
        → (lookup id (serve_all conf arrivals db).0.instances ≡ some x)
          ⊎ ((body : Decoded CommonBody) × (response : Response) × Holds
                (delete id body, response)
                (serve_all conf arrivals db).1
              × (status response ≡ some 200)))
      × ((id : String) (x : Binding)
          → lookup id db.bindings ≡ some x
          → (lookup id (serve_all conf arrivals db).0.bindings ≡ some x)
            ⊎ ((instance_id : String) × (body : Decoded CommonBody) × (response : Response) × Holds
                  (unbind instance_id id body, response)
                  (serve_all conf arrivals db).1
                × (status response ≡ some 200)))
unfolding serve_all serve KeepsInstance KeepsBinding
serve_all_keeps conf [] db = (λ id x l. inl l, λ id x l. inl l)
serve_all_keeps conf (a ∷ arrivals) db =
    let r = serve conf a db in
    let rest = serve_all_keeps conf arrivals r.0 in
    (
      λ id x l.
          let kept : KeepsInstance id x a.request r =
            middleware_lem (KeepsInstance id x a.request) conf a.credentials db _
              (λ response. inl l)
              (route-KeepsInstance conf.dashboard_redirect_uri a.faults a.now a.request db id x
                l) in
          elim kept [
            | inr (body, e, s) ↦ inr (body, r.1, inl (ap (λ z. (z, r.1)) (sym e)), s)
            | inl k ↦ elim (rest.0 id x k) [
              | inl k' ↦ inl k'
              | inr (body, response, h, s) ↦ inr (body, response, inr h, s)
            ]
          ],
      λ id x l.
          let kept : KeepsBinding id x a.request r =
            middleware_lem (KeepsBinding id x a.request) conf a.credentials db _ (λ response. inl l)
              (route-KeepsBinding conf.dashboard_redirect_uri a.faults a.now a.request db id x l) in
          elim kept [
            | inr (instance_id, body, e, s) ↦
                inr (instance_id, body, r.1, inl (ap (λ z. (z, r.1)) (sym e)), s)
            | inl k ↦ elim (rest.1 id x k) [
              | inl k' ↦ inl k'
              | inr (instance_id, body, response, h, s) ↦
                  inr (instance_id, body, response, inr h, s)
            ]
          ],
    )
