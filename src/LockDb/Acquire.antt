-- ===== src/LockDb/Acquire.antt =====
-- When `Lock` of db/sqldb/lock_sqldb.go takes the lock.
use app_autoscaler.Prelude.{
  ℕ, ◌≡◌, refl, ap, ◌∙◌, true, false, ◌⊎◌, inl, inr, none, [], ◌∷◌, str_eq, eq_refl,
}
use app_autoscaler.Prelude.Int.{ℤ}
use app_autoscaler.Models.{ok, Lock}
use app_autoscaler.LockDb.{
  Table, Attempt, fetch, is_expired, lock_body, attempt, attempts, transact, lock, calm, in_seconds,
  insert_lock, renew_lock, remove_lock,
}

lock-calm :
    (a : ℕ → Attempt) (now : ℤ) (l : Lock) (t t' : Table)
    → a 0 ≡ calm now
    → lock_body l (calm now) true t ≡ (true, ok t')
    → lock a l t ≡ (true, t', none)
unfolding lock transact attempts attempt
lock-calm a now l t t' e r =
    let once : attempt (lock_body l) (a 0) true t ≡ (true, t', none) =
      ap (λ x. attempt (lock_body l) x true t) e ∙ rw (attempt, r) (ap (λ x. (x.0, t', none)) r) in
    rw (lock, transact, attempts, once) refl

-- If nothing fails in the first attempt, then `Lock` answers "acquired" with no error and the table has
-- one row, with the caller and the present time, in three cases: the table has no row; its row is
-- the caller's; its row is of another owner with a name, and is expired.
pub lock_acquires :
    (a : ℕ → Attempt) (now : ℤ) (l : Lock) (t : Table)
    → a 0 ≡ calm now
    → (t ≡ [])
      ⊎ ((row : Lock) × (t ≡ row ∷ [])
          × ((str_eq row.owner l.owner ≡ true)
              ⊎ ((str_eq row.owner l.owner ≡ false)
                  × (str_eq row.owner "" ≡ false)
                  × (is_expired (calm now) row ≡ true))))
    → (row : Lock) × (lock a l t ≡ (true, row ∷ [], none))
      × (str_eq row.owner l.owner ≡ true)
      × (row.last_modified_timestamp ≡ now)
unfolding lock_body fetch insert_lock renew_lock remove_lock
lock_acquires a now l t e (inl p) =
    let row : Lock = record {
      owner = l.owner;
      last_modified_timestamp = now;
      ttl = in_seconds l.ttl;
    } in
    (
      row,
      lock-calm a now l t (row ∷ []) e (ap (lock_body l (calm now) true) p),
      eq_refl l.owner,
      refl,
    )
lock_acquires a now l t e (inr (row, p, inl own)) =
    let row' : Lock = record row { last_modified_timestamp = now } in
    (
      row',
      lock-calm a now l t (row' ∷ []) e
          (ap (lock_body l (calm now) true) p ∙ rw (lock_body, fetch, renew_lock, own) refl),
      own,
      refl,
    )
lock_acquires a now l t e (inr (row, p, inr (other, named, gone))) =
    let row' : Lock = record {
      owner = l.owner;
      last_modified_timestamp = now;
      ttl = in_seconds l.ttl;
    } in
    (
      row',
      lock-calm a now l t (row' ∷ []) e (
          ap (lock_body l (calm now) true) p
          ∙ rw (lock_body, fetch, other, named, gone, remove_lock, eq_refl row.owner, insert_lock)
              refl),
      eq_refl l.owner,
      refl,
    )
