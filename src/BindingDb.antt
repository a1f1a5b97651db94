-- ===== src/BindingDb.antt =====
-- db/sqldb/binding_sqldb.go: the tables service_instance and binding, by their ids. A statement of a call
-- either takes effect or returns its fault, which may be a constraint of the table, and changes nothing.
use app_autoscaler.Prelude.{String, none, some}
use app_autoscaler.Prelude.Int.{ℤ}
use app_autoscaler.Prelude.Dict.{Dict, lookup, insert, remove}
use app_autoscaler.Models.{Error}
use app_autoscaler.EngineDb.{Faults}

pub record Instance : Type 0 where
  pub org_id : String
  pub space_id : String

pub record Binding : Type 0 where
  pub service_instance_id : String
  pub app_id : String
  pub created_at : ℤ

pub record BindingDb : Type 0 where
  pub instances : Dict Instance
  pub bindings : Dict Binding

-- What a call returns: db.ErrAlreadyExists and db.ErrDoesNotExist among its errors.
pub data Outcome : Type 0 where
  done already_exists does_not_exist : Outcome
  fault : Error → Outcome

-- SELECT for the row, then INSERT if there is none.
abbrev pub create_row : {V : Type 0} → Faults → String → V → Dict V → Dict V × Outcome
create_row f id v table = elim f.first [
  | some e ↦ (table, fault e)
  | none ↦ elim (lookup id table) [
    | some old ↦ (table, already_exists)
    | none ↦ elim f.second [ some e ↦ (table, fault e) | none ↦ (insert id v table, done) ]
  ]
]

-- SELECT for the row, then DELETE if there is one.
abbrev pub delete_row : {V : Type 0} → Faults → String → Dict V → Dict V × Outcome
delete_row f id table = elim f.first [
  | some e ↦ (table, fault e)
  | none ↦ elim (lookup id table) [
    | none ↦ (table, does_not_exist)
    | some old ↦ elim f.second [ some e ↦ (table, fault e) | none ↦ (remove id table, done) ]
  ]
]

-- CreateServiceInstance
unfoldable pub create_service_instance :
    Faults → String → String → String → BindingDb → BindingDb × Outcome
create_service_instance f id org space db =
    let r = create_row f id (record { org_id = org; space_id = space }) db.instances in
    (record db { instances = r.0 }, r.1)

-- DeleteServiceInstance
unfoldable pub delete_service_instance : Faults → String → BindingDb → BindingDb × Outcome
delete_service_instance f id db =
    let r = delete_row f id db.instances in (record db { instances = r.0 }, r.1)

-- CreateServiceBinding; `now` is the clock.
unfoldable pub create_service_binding :
    Faults → ℤ → String → String → String → BindingDb → BindingDb × Outcome
create_service_binding f now id instance_id app db =
    let r =
      create_row f id (record { service_instance_id = instance_id; app_id = app; created_at = now })
        db.bindings in
    (record db { bindings = r.0 }, r.1)

-- DeleteServiceBinding
unfoldable pub delete_service_binding : Faults → String → BindingDb → BindingDb × Outcome
delete_service_binding f id db =
    let r = delete_row f id db.bindings in (record db { bindings = r.0 }, r.1)
