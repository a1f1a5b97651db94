-- ===== src/LockDb.antt =====
-- db/sqldb/lock_sqldb.go: the lock of a service, kept as a row of a table, and sync/dblock.go, which
-- maintains it. Times are nanoseconds. The statements of a transaction are atomic, since the first one
-- locks the whole table; an attempt says which of them fail. A commit may be done, be refused, or be
-- done with its answer lost. `NOW()` has one value in a transaction. The sleep between two attempts is
-- left out.
pub mod Transaction
pub mod Exclusion
pub mod Acquire
pub mod Runner
mod Examples
use app_autoscaler.Prelude.{
  ℕ, zero, suc, ◌+◌, ◌/◌, String, Bool, true, false, not, ◌&&◌, Option, none, some, List, [], ◌∷◌,
  ◌++◌, str_eq, if◌then◌else◌,
}
use app_autoscaler.Prelude.Int.{ℤ, pos, negsuc, sub_ℕ, ◌+ℤ◌, ltb_ℤ}
use app_autoscaler.Models.{Error, bad_conn, Result, ok, err, Lock, seconds}

-- The rows; the column `ttl` counts seconds.
abbrev pub Table : Type 0
Table = List Lock

pub data Commit : Type 0 where
  done : Commit
  refused : Error → Commit
  answer_lost : Error → Commit

-- What one attempt at a transaction meets.
pub record Attempt : Type 0 where
  pub now : ℤ
  pub begin : Option Error
  pub table_lock : Option Error
  pub select : Option Error
  pub first_timestamp : Option Error
  pub delete : Option Error
  pub second_timestamp : Option Error
  pub write : Option Error
  pub commit : Commit

-- An attempt in which nothing fails.
abbrev pub calm : ℤ → Attempt
calm now = record {
  now = now;
  begin = none;
  table_lock = none;
  select = none;
  first_timestamp = none;
  delete = none;
  second_timestamp = none;
  write = none;
  commit = done;
}

-- int64(ttl / time.Second)
abbrev pub in_seconds : ℤ → ℤ
in_seconds (pos n) = pos (n / 1000000000)
in_seconds (negsuc n) = sub_ℕ 0 (suc n / 1000000000)

-- fetch: the first row, if there is one.
unfoldable pub fetch : Attempt → Table → Result (Option Lock)
fetch a t = elim a.table_lock [
  | some e ↦ err e
  | none ↦ elim a.select [
    | some e ↦ err e
    | none ↦ elim t [ [] ↦ ok none | row ∷ more ↦ ok (some row) ]
  ]
]

abbrev pub without_owner : String → Table → Table
without_owner owner [] = []
without_owner owner (row ∷ t) =
    let rest = without_owner owner t in if str_eq row.owner owner then rest else row ∷ rest

-- remove
unfoldable pub remove_lock : Attempt → String → Table → Result Table
remove_lock a owner t = elim a.delete [ some e ↦ err e | none ↦ ok (without_owner owner t) ]

-- insert
unfoldable pub insert_lock : Attempt → Lock → Table → Result Table
insert_lock a lock t = elim a.second_timestamp [
  | some e ↦ err e
  | none ↦ elim a.write [
    | some e ↦ err e
    | none ↦ ok (
        t
        ++ (record {
          owner = lock.owner;
          last_modified_timestamp = a.now;
          ttl = in_seconds lock.ttl;
        })
          ∷ [])
  ]
]

abbrev pub stamp_owner : String → ℤ → Table → Table
stamp_owner owner now [] = []
stamp_owner owner now (row ∷ t) =
    (if str_eq row.owner owner then record row { last_modified_timestamp = now } else row)
    ∷ stamp_owner owner now t

-- renew
unfoldable pub renew_lock : Attempt → String → Table → Result Table
renew_lock a owner t = elim a.second_timestamp [
  | some e ↦ err e
  | none ↦ elim a.write [ some e ↦ err e | none ↦ ok (stamp_owner owner a.now t) ]
]

-- The rest of a closure: a failed statement also sets isLockAcquired to false.
abbrev pub or_fail : Bool → Result Table → Bool × Result Table
or_fail acquired (ok t) = (acquired, ok t)
or_fail acquired (err e) = (false, err e)

abbrev pub is_expired : Attempt → Lock → Bool
is_expired a row = ltb_ℤ (row.last_modified_timestamp +ℤ seconds row.ttl) a.now

-- The closure of Lock: the new isLockAcquired, and the table to commit or the error. The case in
-- which the table is committed as it was is the lock that is still valid.
unfoldable pub lock_body : Lock → Attempt → Bool → Table → Bool × Result Table
unfolding fetch remove_lock insert_lock renew_lock
lock_body lock a acquired t = elim (fetch a t) [
  | err e ↦ (false, err e)
  | ok none ↦ or_fail acquired (insert_lock a lock t)
  | ok (some row) ↦
      let renewed = or_fail acquired (renew_lock a lock.owner t) in
      if not (str_eq row.owner lock.owner) && not (str_eq row.owner "")
      then elim a.first_timestamp [
        | some e ↦ (false, err e)
        | none ↦
            if is_expired a row
            then elim (remove_lock a row.owner t) [
              | err e ↦ (false, err e)
              | ok t' ↦ or_fail acquired (insert_lock a lock t')
            ]
            else (false, ok t)
      ]
      else renewed
]

-- The closure of Release.
unfoldable pub release_body : String → Attempt → Unit {0} → Table → Unit {0} × Result Table
unfolding remove_lock
release_body owner a u t = (u, remove_lock a owner t)

-- One attempt of `transact`, whose closure has the captured variables `S`.
unfoldable pub attempt :
    {S : Type 0}
    → (Attempt → S → Table → S × Result Table)
    → Attempt
    → S
    → Table
    → S × Table × Option Error
attempt f a s t = elim a.begin [
  | some e ↦ (s, t, some e)
  | none ↦
      let (s', r) = f a s t in
      elim r [
        | err e ↦ (s', t, some e)
        | ok t' ↦ elim a.commit [
          | done ↦ (s', t', none)
          | refused e ↦ (s', t, some e)
          | answer_lost e ↦ (s', t', some e)
        ]
      ]
]

abbrev pub retries : Option Error → Bool
retries none = false
retries (some e) = elim e [ bad_conn ↦ true | _ ↦ false ]

-- The attempts from the one numbered `i` on, `n` of them at most after it; only a bad connection is
-- tried again.
unfoldable pub attempts :
    {S : Type 0}
    → (Attempt → S → Table → S × Result Table)
    → (ℕ → Attempt)
    → ℕ
    → ℕ
    → S
    → Table
    → S × Table × Option Error
unfolding attempt
attempts f a zero i s t = attempt f (a i) s t
attempts f a (suc n) i s t =
    let r = attempt f (a i) s t in
    let again = attempts f a n (i + 1) r.0 r.1 in if retries r.2 then again else r

-- transact: at most 3 attempts.
unfoldable pub transact :
    {S : Type 0}
    → (Attempt → S → Table → S × Result Table)
    → (ℕ → Attempt)
    → S
    → Table
    → S × Table × Option Error
unfolding attempts
transact f a s t = attempts f a 2 0 s t

-- Lock: whether the lock is acquired, with the table and the error.
unfoldable pub lock : (ℕ → Attempt) → Lock → Table → Bool × Table × Option Error
unfolding transact lock_body
lock a l t = transact (lock_body l) a true t

-- Release
unfoldable pub release : (ℕ → Attempt) → String → Table → Table × Option Error
unfolding transact release_body
release a owner t = let r = transact (release_body owner) a tt t in (r.1, r.2)
