-- ===== src/ScheduleSync/Actions.antt =====
-- What the starts and the ends of scalingengine/schedule/sync.go do to one app.
use app_autoscaler.Prelude.{
  String, ◌≡◌, refl, ap, sym, ◌∙◌, subst, true, false, ◌⊎◌, inl, inr, none, some, List, [], ◌∷◌,
  ◌++◌, str_eq, Bool-cases, Option-cases, arith, eq_iff, some_inj,
}
use app_autoscaler.Prelude.Dict.{Dict, lookup}
use app_autoscaler.Models.{ActiveSchedule}
use app_autoscaler.EngineDb.{no_faults}
use app_autoscaler.ScalingEngine.{World, Outside}
use app_autoscaler.ScalingEngine.Schedules.{remove_active_schedule}
use app_autoscaler.ScalingEngine.Active.{set_stores}
use app_autoscaler.ScalingEngine.Others.{set_frame, remove_frame, remove_gone}
use app_autoscaler.ScheduleSync.{
  Action, begin, finish, needs_start, missing_starts, missing_ends, act, act_all,
}

-- No statement of any request fails.
pub record IsCalm (o : Outside) : Type 0 where
  pub queries : o.schedule_query ≡ none
  pub updates : o.schedule_update ≡ no_faults
  pub deletes : o.schedule_delete ≡ none

-- No key twice.
abbrev pub Unique : {V : Type 0} → Dict V → Type 0
Unique [] = Unit {0}
Unique (e ∷ d) = (lookup e.0 d ≡ none) × Unique d

-- The app has an active schedule of this id.
abbrev pub HasId : String → String → World → Type 0
HasId app id w =
    (current : ActiveSchedule) × (lookup app w.db.schedules ≡ some current)
    × (str_eq current.schedule_id id ≡ true)

pub clash : true ≡ false → ⊥
clash e = ground arith

pub none≢some : {V : Type 0} {v : V} → none ≡ some v → ⊥
none≢some e = ground arith

ends_act :
    (scheduled : Dict ActiveSchedule) (engine : Dict String) (a id : String)
    → lookup a scheduled ≡ none
    → missing_ends scheduled ((a, id) ∷ engine) ≡ finish a id ∷ missing_ends scheduled engine
unfolding missing_ends
ends_act scheduled engine a id e = rw (missing_ends, e) refl

ends_skip :
    (scheduled : Dict ActiveSchedule) (engine : Dict String) (a id : String) (s : ActiveSchedule)
    → lookup a scheduled ≡ some s
    → missing_ends scheduled ((a, id) ∷ engine) ≡ missing_ends scheduled engine
unfolding missing_ends
ends_skip scheduled engine a id s e = rw (missing_ends, e) refl

module _ (outside : String → Outside) (calm : (app : String) → IsCalm (outside app))
    (app : String) where
  pub act_all-append :
      (xs ys : List Action) (w : World)
      → act_all outside (xs ++ ys) w ≡ act_all outside ys (act_all outside xs w)
  act_all-append [] ys w = refl
  act_all-append (x ∷ xs) ys w = act_all-append xs ys (act outside x w)

  begins : (s : ActiveSchedule) (w : World) → HasId app s.schedule_id (act outside (begin app s) w)
  unfolding act
  begins s w =
      let c = calm app in
      let (current, found, same) = set_stores (outside app) app s w c.queries c.updates in
      (
        current,
        found,
        (eq_iff current.schedule_id s.schedule_id).1
            (sym ((eq_iff s.schedule_id current.schedule_id).0 same)),
      )

  -- The starts leave an app that is not scheduled, and one whose schedule the engine has.
  pub starts_keep :
      (engine : Dict String) (scheduled : Dict ActiveSchedule) (w : World)
      → (lookup app scheduled ≡ none)
        ⊎ ((s : ActiveSchedule) × (lookup app scheduled ≡ some s)
            × (needs_start engine app s ≡ false))
      → Unique scheduled
      → lookup app (act_all outside (missing_starts engine scheduled) w).db.schedules
        ≡ lookup app w.db.schedules
  unfolding missing_starts act lookup
  starts_keep engine [] w h u = refl
  starts_keep engine ((a, s) ∷ scheduled) w h u = elim (Bool-cases (str_eq a app)) [
    | inr other ↦
        let h' = rw other at h in
        elim (Bool-cases (needs_start engine a s)) [
          | inl needed ↦ rw needed (
              starts_keep engine scheduled (act outside (begin a s) w) h' u.1
              ∙ set_frame (outside a) a app s w other)
          | inr idle ↦ rw idle (starts_keep engine scheduled w h' u.1)
        ]
    | inl same ↦
        let at : a ≡ app = (eq_iff a app).0 same in
        let rest_none : lookup app scheduled ≡ none =
          subst (λ z. lookup z scheduled ≡ none) at u.0 in
        let head : lookup app ((a, s) ∷ scheduled) ≡ some s = rw same refl in
        elim (Bool-cases (needs_start engine a s)) [
          | inr idle ↦ rw idle (starts_keep engine scheduled w (inl rest_none) u.1)
          | inl needed ↦ elim h [
            | inl missing ↦ absurd (none≢some (sym missing ∙ head))
            | inr (s', found, idle) ↦ absurd (
                clash (
                  sym (subst (λ z. needs_start engine z s ≡ true) at needed)
                  ∙ ap (needs_start engine app) (some_inj (sym head ∙ found))
                  ∙ idle))
          ]
        ]
  ]

  -- A schedule that the engine lacks is active after the starts.
  pub starts_begin :
      (engine : Dict String) (scheduled : Dict ActiveSchedule) (w : World) (s : ActiveSchedule)
      → lookup app scheduled ≡ some s
      → needs_start engine app s ≡ true
      → Unique scheduled
      → HasId app s.schedule_id (act_all outside (missing_starts engine scheduled) w)
  unfolding missing_starts lookup
  starts_begin engine [] w s l n u = absurd (none≢some l)
  starts_begin engine ((a, s') ∷ scheduled) w s l n u = elim (Bool-cases (str_eq a app)) [
    | inr other ↦
        let l' : lookup app scheduled ≡ some s = rw other at l in
        elim (Bool-cases (needs_start engine a s')) [
          | inl needed ↦
              rw needed (starts_begin engine scheduled (act outside (begin a s') w) s l' n u.1)
          | inr idle ↦ rw idle (starts_begin engine scheduled w s l' n u.1)
        ]
    | inl same ↦
        let at : a ≡ app = (eq_iff a app).0 same in
        let head : lookup app ((a, s') ∷ scheduled) ≡ some s' = rw same refl in
        let is_s : s' ≡ s = some_inj (sym head ∙ l) in
        let rest_none : lookup app scheduled ≡ none =
          subst (λ z. lookup z scheduled ≡ none) at u.0 in
        let needed : needs_start engine a s' ≡ true =
          subst (λ z. needs_start engine z s' ≡ true) (sym at)
            (subst (λ z. needs_start engine app z ≡ true) (sym is_s) n) in
        let (current, found, equal) = begins s' w in
        let kept = starts_keep engine scheduled (act outside (begin a s') w) (inl rest_none) u.1 in
        let there : lookup app (act outside (begin a s') w).db.schedules ≡ some current =
          subst (λ z. lookup app (act outside (begin z s') w).db.schedules ≡ some current) (sym at)
            found in
        rw needed (
          current,
          kept ∙ there,
          subst (λ (z : ActiveSchedule). str_eq current.schedule_id z.schedule_id ≡ true) is_s
              equal,
        )
  ]

  -- The ends leave an app that is scheduled.
  pub ends_keep :
      (scheduled : Dict ActiveSchedule) (engine : Dict String) (w : World) (s : ActiveSchedule)
      → lookup app scheduled ≡ some s
      → lookup app (act_all outside (missing_ends scheduled engine) w).db.schedules
        ≡ lookup app w.db.schedules
  unfolding act missing_ends
  ends_keep scheduled [] w s l = refl
  ends_keep scheduled ((a, id) ∷ engine) w s l = elim (Option-cases (lookup a scheduled)) [
    | inr (s', e) ↦ rw (ends_skip scheduled engine a id s' e) (ends_keep scheduled engine w s l)
    | inl e ↦ elim (Bool-cases (str_eq a app)) [
      | inl same ↦ absurd (
          none≢some
            (sym e ∙ subst (λ z. lookup z scheduled ≡ some s) (sym ((eq_iff a app).0 same)) l))
      | inr other ↦ rw (ends_act scheduled engine a id e) (
          ends_keep scheduled engine (act outside (finish a id) w) s l
          ∙ remove_frame (outside a) a app id w (calm a).queries (calm a).deletes other)
    ]
  ]

  -- An app without a schedule stays so.
  pub ends_none :
      (scheduled : Dict ActiveSchedule) (engine : Dict String) (w : World)
      → lookup app w.db.schedules ≡ none
      → lookup app (act_all outside (missing_ends scheduled engine) w).db.schedules ≡ none
  unfolding act missing_ends
  ends_none scheduled [] w n = n
  ends_none scheduled ((a, id) ∷ engine) w n = elim (Option-cases (lookup a scheduled)) [
    | inr (s', e) ↦ rw (ends_skip scheduled engine a id s' e) (ends_none scheduled engine w n)
    | inl e ↦ elim (Bool-cases (str_eq a app)) [
      | inr other ↦ rw (ends_act scheduled engine a id e) (
          ends_none scheduled engine (act outside (finish a id) w)
            (remove_frame (outside a) a app id w (calm a).queries (calm a).deletes other ∙ n))
      | inl same ↦
          let at : app ≡ a = sym ((eq_iff a app).0 same) in
          rw (ends_act scheduled engine a id e) (
            ends_none scheduled engine (act outside (finish a id) w) (
              subst
                (λ z. lookup app (remove_active_schedule (outside z) z id w).0.db.schedules ≡ none)
                at
                (remove_gone (outside app) app id w (calm app).queries (calm app).deletes (inl n))))
    ]
  ]

  -- The schedule of an app that is not scheduled is ended.
  pub ends_remove :
      (scheduled : Dict ActiveSchedule) (engine : Dict String) (w : World) (id : String)
      → lookup app scheduled ≡ none
      → lookup app engine ≡ some id
      → HasId app id w
      → lookup app (act_all outside (missing_ends scheduled engine) w).db.schedules ≡ none
  unfolding act lookup
  ends_remove scheduled [] w id l e h = absurd (none≢some e)
  ends_remove scheduled ((a, i) ∷ engine) w id l e h = elim (Bool-cases (str_eq a app)) [
    | inl same ↦
        let at : app ≡ a = sym ((eq_iff a app).0 same) in
        let head : lookup app ((a, i) ∷ engine) ≡ some i = rw same refl in
        let is_id : id ≡ i = some_inj (sym e ∙ head) in
        let free : lookup a scheduled ≡ none = subst (λ z. lookup z scheduled ≡ none) at l in
        rw (ends_act scheduled engine a i free) (
          ends_none scheduled engine (act outside (finish a i) w) (
            subst (λ z. lookup app (remove_active_schedule (outside z) z i w).0.db.schedules ≡ none)
              at
              (remove_gone (outside app) app i w (calm app).queries (calm app).deletes
                (inr (subst (λ z. HasId app z w) is_id h)))))
    | inr other ↦
        let e' : lookup app engine ≡ some id = rw other at e in
        elim (Option-cases (lookup a scheduled)) [
          | inr (s', f) ↦
              rw (ends_skip scheduled engine a i s' f) (ends_remove scheduled engine w id l e' h)
          | inl f ↦
              let (current, found, equal) = h in
              rw (ends_act scheduled engine a i f) (
                ends_remove scheduled engine (act outside (finish a i) w) id l e' (
                  current,
                  remove_frame (outside a) a app i w (calm a).queries (calm a).deletes other
                      ∙ found,
                  equal,
                ))
        ]
  ]
