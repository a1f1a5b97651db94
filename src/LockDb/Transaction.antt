-- ===== src/LockDb/Transaction.antt =====
-- The attempts of `transact` in db/sqldb/lock_sqldb.go, and the closure of `Lock` on each branch.
use app_autoscaler.Prelude.{
  ℕ, zero, suc, ◌+◌, String, ◌≡◌, refl, Bool, true, false, ◌⊎◌, inl, inr, Option, none, [], ◌∷◌,
  str_eq, Bool-cases, Option-cases, eq_iff, eq_refl,
}
use app_autoscaler.Prelude.Int.{ℤ}
use app_autoscaler.Models.{Error, Result, ok, err, Lock}
use app_autoscaler.LockDb.{
  Table, Attempt, fetch, remove_lock, insert_lock, renew_lock, or_fail, is_expired, lock_body,
  attempt, attempts, retries,
}

-- What every attempt keeps, it finds; what the last one gives, `transact` gives.
pub attempts_induction :
    {S : Type 0} (f : Attempt → S → Table → S × Result Table) (a : ℕ → Attempt)
    (P : S → Table → Type 0) (Q : S × Table × Option Error → Type 0)
    → ((i : ℕ) (s : S) (t : Table)
        → P s t
        → P (attempt f (a i) s t).0 (attempt f (a i) s t).1 × Q (attempt f (a i) s t))
    → (n i : ℕ) (s : S) (t : Table) → P s t
    → Q (attempts f a n i s t)
unfolding attempts
attempts_induction f a P Q step zero i s t p = (step i s t p).1
attempts_induction f a P Q step (suc n) i s t p =
    let (next, last) = step i s t p in
    elim (Bool-cases (retries (attempt f (a i) s t).2)) [
      | inl e ↦
          rw (attempts, e)
            (attempts_induction f a P Q step n (i + 1) (attempt f (a i) s t).0
              (attempt f (a i) s t).1 next)
      | inr e ↦ rw (attempts, e) last
    ]

-- No row, or one of an owner with a name.
abbrev pub IsWellFormed : Table → Type 0
IsWellFormed [] = Unit {0}
IsWellFormed (row ∷ []) = str_eq row.owner "" ≡ false
IsWellFormed (row ∷ _ ∷ _) = ⊥

-- The table has one row, of this owner and this time.
pub record Held (owner : String) (now : ℤ) (t : Table) : Type 0 where
  pub row : Lock
  pub only : t ≡ row ∷ []
  pub owned : row.owner ≡ owner
  pub fresh : row.last_modified_timestamp ≡ now

-- A closure's answer: an error; the lock of another, still valid; or the lock, held.
abbrev pub Decides : Lock → Attempt → Bool → Table → Bool × Result Table → Type 0
Decides l a s t r =
    ((r.0 ≡ false) × (e : Error) × (r.1 ≡ err e))
    ⊎ (((r.0 ≡ false) × (r.1 ≡ ok t))
        ⊎ ((r.0 ≡ s) × (t' : Table) × (r.1 ≡ ok t') × Held l.owner a.now t'))

insert-Decides :
    (l : Lock) (a : Attempt) (s : Bool) (t : Table)
    → Decides l a s t (or_fail s (insert_lock a l []))
unfolding insert_lock
insert-Decides l a s t = elim (Option-cases a.second_timestamp) [
  | inr (e, p) ↦ rw (insert_lock, p) (inl (refl, e, refl))
  | inl p ↦ elim (Option-cases a.write) [
    | inr (e, q) ↦ rw (insert_lock, p, q) (inl (refl, e, refl))
    | inl q ↦
        rw (insert_lock, p, q)
          (inr (inr (refl, _, refl, record { row = _; only = refl; owned = refl; fresh = refl })))
  ]
]

renew-Decides :
    (l : Lock) (a : Attempt) (s : Bool) (row : Lock)
    → str_eq row.owner l.owner ≡ true
    → Decides l a s (row ∷ []) (or_fail s (renew_lock a l.owner (row ∷ [])))
unfolding renew_lock
renew-Decides l a s row e = elim (Option-cases a.second_timestamp) [
  | inr (x, p) ↦ rw (renew_lock, p) (inl (refl, x, refl))
  | inl p ↦ elim (Option-cases a.write) [
    | inr (x, q) ↦ rw (renew_lock, p, q) (inl (refl, x, refl))
    | inl q ↦
        rw (renew_lock, p, q, e)
          (inr (
            inr (
              refl,
              _,
              refl,
              record { row = _; only = refl; owned = (eq_iff row.owner l.owner).0 e; fresh = refl },
            )))
  ]
]

pub lock_body-Decides :
    (l : Lock) (a : Attempt) (s : Bool) (t : Table)
    → IsWellFormed t
    → Decides l a s t (lock_body l a s t)
unfolding lock_body fetch remove_lock
lock_body-Decides l a s t w = elim (Option-cases a.table_lock) [
  | inr (x, p) ↦ rw (lock_body, fetch, p) (inl (refl, x, refl))
  | inl p ↦ elim (Option-cases a.select) [
    | inr (x, q) ↦ rw (lock_body, fetch, p, q) (inl (refl, x, refl))
    | inl q ↦ decided t p q w
  ]
]
  where
    decided :
        (t : Table)
        → a.table_lock ≡ none
        → a.select ≡ none
        → IsWellFormed t
        → Decides l a s t (lock_body l a s t)
    decided [] p q w = rw (lock_body, fetch, p, q) (insert-Decides l a s [])
    decided (row ∷ []) p q w = elim (Bool-cases (str_eq row.owner l.owner)) [
      | inl own ↦ rw (lock_body, fetch, p, q, own) (renew-Decides l a s row own)
      | inr other ↦ elim (Option-cases a.first_timestamp) [
        | inr (x, f) ↦ rw (lock_body, fetch, p, q, other, w, f) (inl (refl, x, refl))
        | inl f ↦ elim (Bool-cases (is_expired a row)) [
          | inr valid ↦ rw (lock_body, fetch, p, q, other, w, f, valid) (inr (inl (refl, refl)))
          | inl gone ↦ elim (Option-cases a.delete) [
            | inr (x, d) ↦
                rw (lock_body, fetch, p, q, other, w, f, gone, remove_lock, d) (inl (refl, x, refl))
            | inl d ↦
                rw (lock_body, fetch, p, q, other, w, f, gone, remove_lock, d, eq_refl row.owner)
                  (insert-Decides l a s (row ∷ []))
          ]
        ]
      ]
    ]
    decided (row ∷ _ ∷ _) p q w = absurd w
