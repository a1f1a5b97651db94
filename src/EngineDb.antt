-- ===== src/EngineDb.antt =====
-- db/sqldb/scalingengine_sqldb.go: the tables scalinghistory, scalingcooldown and activeschedule.
-- A statement of a call either takes effect or returns its fault, an error of the database, and
-- changes nothing. The two tables with a row per app are maps from the app.
pub mod Retrieve
pub mod Stored
mod Examples
use app_autoscaler.Prelude.{
  ℕ, String, Bool, true, false, not, ◌&&◌, ◌||◌, Option, none, some, List, [], ◌∷◌, str_eq,
  if◌then◌else◌,
}
use app_autoscaler.Prelude.Int.{ℤ, pos, ltb_ℤ, leb_ℤ}
use app_autoscaler.Prelude.Dict.{Dict, lookup, insert, remove}
use app_autoscaler.Models.{
  Error, Result, ok, err, AppScalingHistory, ScalingStatus, succeeded, failed, ignored,
  ActiveSchedule,
}

pub record EngineDb : Type 0 where
  pub cooldowns : Dict ℤ
  pub schedules : Dict ActiveSchedule
  pub histories : List AppScalingHistory

-- The faults of a call: of its first statement, and of what follows it.
pub record Faults : Type 0 where
  pub first : Option Error
  pub second : Option Error

abbrev pub no_faults : Faults
no_faults = record { first = none; second = none }

-- db.OrderType
pub data OrderType : Type 0 where
  asc desc : OrderType

-- SaveScalingHistory, whose callers drop the error.
unfoldable pub save_scaling_history : Option Error → AppScalingHistory → EngineDb → EngineDb
save_scaling_history (some e) h db = db
save_scaling_history none h db = record db { histories = h ∷ db.histories }

abbrev pub comes_first : OrderType → AppScalingHistory → AppScalingHistory → Bool
comes_first asc x y = leb_ℤ x.timestamp y.timestamp
comes_first desc x y = leb_ℤ y.timestamp x.timestamp

-- ORDER BY timestamp
abbrev pub place_row :
    OrderType → AppScalingHistory → List AppScalingHistory → List AppScalingHistory
place_row o h [] = h ∷ []
place_row o h (x ∷ xs) = if comes_first o h x then h ∷ x ∷ xs else x ∷ place_row o h xs

abbrev pub order_by : OrderType → List AppScalingHistory → List AppScalingHistory
order_by o [] = []
order_by o (x ∷ xs) = place_row o x (order_by o xs)

abbrev pub filter_rows :
    (AppScalingHistory → Bool) → List AppScalingHistory → List AppScalingHistory
filter_rows p [] = []
filter_rows p (x ∷ xs) = let rest = filter_rows p xs in if p x then x ∷ rest else rest

abbrev pub is_ignored : AppScalingHistory → Bool
is_ignored h = elim h.status [ succeeded ↦ false | failed ↦ false | ignored ↦ true ]

-- The WHERE of the query.
abbrev pub in_range : String → ℤ → ℤ → AppScalingHistory → Bool
in_range app start end h = str_eq h.app_id app && leb_ℤ start h.timestamp && leb_ℤ h.timestamp end

-- RetrieveScalingHistories; `now` is the clock, read for a negative end.
unfoldable pub retrieve_scaling_histories :
    Faults → ℤ → String → ℤ → ℤ → OrderType → Bool → EngineDb → Result (List AppScalingHistory)
retrieve_scaling_histories f now app start end order include_all db =
    let last = if ltb_ℤ end (pos 0) then now else end in
    let rows = order_by order (filter_rows (in_range app start last) db.histories) in
    elim f.first [
      | some e ↦ err e
      | none ↦ elim rows [
        | [] ↦ ok []
        | row ∷ more ↦ elim f.second [
          | some e ↦ err e
          | none ↦ ok (filter_rows (λ h. include_all || not (is_ignored h)) (row ∷ more))
        ]
      ]
    ]

-- PruneScalingHistories
unfoldable pub prune_scaling_histories : Option Error → ℤ → EngineDb → EngineDb × Option Error
prune_scaling_histories (some e) before db = (db, some e)
prune_scaling_histories none before db =
    (record db { histories = filter_rows (λ h. not (leb_ℤ h.timestamp before)) db.histories }, none)

-- CanScaleApp: whether the app may scale, and when its cooldown ends, 0 if it has none.
unfoldable pub can_scale_app : Faults → ℤ → String → EngineDb → Result (Bool × ℤ)
can_scale_app f now app db = elim f.first [
  | some e ↦ err e
  | none ↦ elim (lookup app db.cooldowns) [
    | none ↦ ok (true, pos 0)
    | some expire_at ↦ elim f.second [ some e ↦ err e | none ↦ ok (ltb_ℤ expire_at now, expire_at) ]
  ]
]

-- UpdateScalingCooldownExpireTime: a delete, then an insert, in no transaction.
unfoldable pub update_scaling_cooldown_expire_time :
    Faults → String → ℤ → EngineDb → EngineDb × Option Error
update_scaling_cooldown_expire_time f app expire_at db = elim f.first [
  | some e ↦ (db, some e)
  | none ↦
      let deleted = record db { cooldowns = remove app db.cooldowns } in
      elim f.second [
        | some e ↦ (deleted, some e)
        | none ↦ (record deleted { cooldowns = insert app expire_at deleted.cooldowns }, none)
      ]
]

-- GetActiveSchedule; no row is no error.
unfoldable pub get_active_schedule :
    Option Error → String → EngineDb → Result (Option ActiveSchedule)
get_active_schedule (some e) app db = err e
get_active_schedule none app db = ok (lookup app db.schedules)

abbrev pub schedule_ids : Dict ActiveSchedule → Dict String
schedule_ids [] = []
schedule_ids ((app, s) ∷ rest) = (app, s.schedule_id) ∷ schedule_ids rest

-- GetActiveSchedules: the id of each app's schedule.
unfoldable pub get_active_schedules : Faults → EngineDb → Result (Dict String)
get_active_schedules f db = elim f.first [
  | some e ↦ err e
  | none ↦ elim db.schedules [
    | [] ↦ ok []
    | row ∷ more ↦ elim f.second [ some e ↦ err e | none ↦ ok (schedule_ids (row ∷ more)) ]
  ]
]

-- RemoveActiveSchedule
unfoldable pub delete_active_schedule : Option Error → String → EngineDb → EngineDb × Option Error
delete_active_schedule (some e) app db = (db, some e)
delete_active_schedule none app db = (record db { schedules = remove app db.schedules }, none)

-- SetActiveSchedule: the removal, then an insert, in no transaction.
unfoldable pub store_active_schedule :
    Faults → String → ActiveSchedule → EngineDb → EngineDb × Option Error
unfolding delete_active_schedule
store_active_schedule f app s db =
    let (removed, e) = delete_active_schedule f.first app db in
    elim e [
      | some e ↦ (removed, some e)
      | none ↦ elim f.second [
        | some e ↦ (removed, some e)
        | none ↦ (record removed { schedules = insert app s removed.schedules }, none)
      ]
    ]
