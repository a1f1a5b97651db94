-- ===== src/LockDb/Runner.antt =====
-- sync/dblock.go: the runner that takes the lock, and tries again at every tick. `ready` is closed once,
-- when the service may start to work. A runner runs, has ended by a signal, or has left the process.
use app_autoscaler.Prelude.{
  ℕ, String, ◌≡◌, refl, sym, ◌∙◌, Bool, true, false, ◌&&◌, inl, inr, none, some, str_eq,
  if◌then◌else◌, arith, Bool-cases, Option-cases,
}
use app_autoscaler.Prelude.Int.{ℤ, pos}
use app_autoscaler.Models.{Error, Lock, message}
use app_autoscaler.LockDb.{Table, Attempt, lock, lock_body, transact, attempts, attempt, release}
use app_autoscaler.LockDb.Transaction.{IsWellFormed, Held}
use app_autoscaler.LockDb.Exclusion.{lock-Promises}

pub data Phase : Type 0 where
  running stopped exited : Phase

pub record Runner : Type 0 where
  pub owner : String
  pub ttl : ℤ
  pub phase : Phase
  pub ready_to_acquire : Bool
  pub ready : Bool

pub data Event : Type 0 where
  signal : (ℕ → Attempt) → Event
  tick : (ℕ → Attempt) → (ℕ → Attempt) → Event

abbrev pub own_lock : Runner → Lock
own_lock r = record { owner = r.owner; last_modified_timestamp = pos 0; ttl = r.ttl }

-- close(ready)
abbrev pub get_ready : Runner → Runner
get_ready r = record r { ready_to_acquire = false; ready = true }

-- The lines before the loop. An error of the first attempt is only logged.
unfoldable pub start : String → ℤ → (ℕ → Attempt) → Table → Runner × Table
start owner ttl a t =
    let r : Runner = record {
      owner = owner;
      ttl = ttl;
      phase = running;
      ready_to_acquire = true;
      ready = false;
    } in
    let (acquired, t', e) = lock a (own_lock r) t in
    let first : Runner × Table = (if acquired then get_ready r else r, t') in
    if str_eq owner "" then (record r { phase = exited }, t) else first

-- A round of the loop; the second attempts of a tick are those of the release after an error.
unfoldable pub step : Runner → Event → Table → Runner × Table
step r (signal a) t =
    (record r { phase = stopped; ready_to_acquire = true }, (release a r.owner t).0)
step r (tick a b) t =
    let (acquired, t', e) = lock a (own_lock r) t in
    elim e [
      | some x ↦ (record r { phase = exited }, (release b r.owner t').0)
      | none ↦ (if acquired && r.ready_to_acquire then get_ready r else r, t')
    ]

-- A tick by which a runner gets ready is one at which it came to hold the lock: its row is the only
-- one, of the time of one of the attempts. This is for a runner with a name that was not ready,
-- on a table with no row or one whose owner has a name.
pub tick_ready :
    (r : Runner) (a b : ℕ → Attempt) (t : Table)
    → str_eq r.owner "" ≡ false
    → IsWellFormed t
    → r.ready ≡ false
    → (step r (tick a b) t).0.ready ≡ true
    → (i : ℕ) × Held r.owner (a i).now (step r (tick a b) t).1
unfolding step
tick_ready r a b t named w waiting now_ready = elim (Option-cases (lock a (own_lock r) t).2) [
  | inr (e, p) ↦ absurd (clash (sym (kept e p) ∙ now_ready))
  | inl p ↦ elim (Bool-cases (lock a (own_lock r) t).0) [
    | inl got ↦ rw (step, p) ((lock-Promises a (own_lock r) t named w).1 got p)
    | inr not_got ↦ absurd (clash (sym (missed p not_got) ∙ now_ready))
  ]
]
  where
    clash : false ≡ true → ⊥
    clash e = ground arith

    kept : (e : Error) → (lock a (own_lock r) t).2 ≡ some e → (step r (tick a b) t).0.ready ≡ false
    kept e p = rw (step, p) waiting

    missed :
        (lock a (own_lock r) t).2 ≡ none
        → (lock a (own_lock r) t).0 ≡ false
        → (step r (tick a b) t).0.ready ≡ false
    missed p not_got = rw (step, p, not_got) waiting

-- The database may be out of reach when a runner starts. If every attempt fails to begin its
-- transaction, then the first `Lock` still says "acquired", and the runner is ready with no lock: the
-- table is as it was. The owner has a name, and the error is not a bad connection.
pub start_unreached :
    (owner text : String) (ttl : ℤ) (a : ℕ → Attempt) (t : Table)
    → str_eq owner "" ≡ false
    → (a 0).begin ≡ some (message text)
    → ((start owner ttl a t).0.ready ≡ true) × ((start owner ttl a t).1 ≡ t)
unfolding start lock transact attempts attempt
start_unreached owner text ttl a t named e =
    let r = own_lock (record {
      owner = owner;
      ttl = ttl;
      phase = running;
      ready_to_acquire = true;
      ready = false;
    }) in
    let once : attempt (lock_body r) (a 0) true t ≡ (true, t, some (message text)) =
      rw (attempt, e) refl in
    let first : lock a r t ≡ (true, t, some (message text)) =
      rw (lock, transact, attempts, once) refl in
    rw (start, named, first) (refl, refl)
