-- ===== src/LockDb/Exclusion.antt =====
-- Who holds the lock after `Lock` of db/sqldb/lock_sqldb.go, over all its attempts and their faults.
use app_autoscaler.Prelude.{
  ℕ, String, ◌≡◌, refl, ap, sym, ◌∙◌, subst, Bool, true, false, ◌⊎◌, inl, inr, Option, none, some,
  [], ◌∷◌, str_eq, arith, Bool-cases, Option-cases, Holds,
}
use app_autoscaler.Prelude.Int.{ℤ}
use app_autoscaler.Models.{Error, ok, err, Lock}
use app_autoscaler.LockDb.{
  Table, Attempt, Commit, done, refused, answer_lost, fetch, is_expired, lock_body, attempt,
  transact, lock,
}
use app_autoscaler.LockDb.Transaction.{attempts_induction, IsWellFormed, Held, lock_body-Decides}

-- A table whose one row is held is well formed, if the owner has a name.
Held-IsWellFormed :
    (owner : String) (now : ℤ) (t : Table)
    → str_eq owner "" ≡ false
    → Held owner now t
    → IsWellFormed t
Held-IsWellFormed owner now t named h =
    subst IsWellFormed (sym h.only) (subst (λ x. str_eq x "" ≡ false) (sym h.owned) named)

-- What one attempt promises.
abbrev Promises : (ℕ → Attempt) → Lock → Bool × Table × Option Error → Type 0
Promises a l r = IsWellFormed r.1 × (r.0 ≡ true → r.2 ≡ none → (i : ℕ) × Held l.owner (a i).now r.1)

some≢none : (e : Error) → some e ≡ none → ⊥
some≢none e p = ground arith

false≢true : false ≡ true → ⊥
false≢true p = ground arith

Commit-cases :
    (c : Commit)
    → (c ≡ done) ⊎ (((e : Error) × (c ≡ refused e)) ⊎ ((e : Error) × (c ≡ answer_lost e)))
Commit-cases done = inl refl
Commit-cases (refused e) = inr (inl (e, refl))
Commit-cases (answer_lost e) = inr (inr (e, refl))

attempt-Promises :
    (a : ℕ → Attempt) (l : Lock) (i : ℕ) (s : Bool) (t : Table)
    → str_eq l.owner "" ≡ false
    → IsWellFormed t
    → Promises a l (attempt (lock_body l) (a i) s t)
unfolding attempt
attempt-Promises a l i s t named w = elim (Option-cases (a i).begin) [
  | inr (e, p) ↦ rw (attempt, p) (w, λ f n. absurd (some≢none e n))
  | inl p ↦ elim (lock_body-Decides l (a i) s t w) [
    | inl (f, e, r) ↦ rw (attempt, p, r) (w, λ g n. absurd (some≢none e n))
    | inr (inl (f, r)) ↦ elim (Commit-cases (a i).commit) [
      | inl d ↦ rw (attempt, p, r, d) (w, λ g n. absurd (false≢true (sym f ∙ g)))
      | inr (inl (e, d)) ↦ rw (attempt, p, r, d) (w, λ g n. absurd (some≢none e n))
      | inr (inr (e, d)) ↦ rw (attempt, p, r, d) (w, λ g n. absurd (some≢none e n))
    ]
    | inr (inr (f, t', r, h)) ↦
        let w' = Held-IsWellFormed l.owner (a i).now t' named h in
        elim (Commit-cases (a i).commit) [
          | inl d ↦ rw (attempt, p, r, d) (w', λ g n. (i, h))
          | inr (inl (e, d)) ↦ rw (attempt, p, r, d) (w, λ g n. absurd (some≢none e n))
          | inr (inr (e, d)) ↦ rw (attempt, p, r, d) (w', λ g n. absurd (some≢none e n))
        ]
  ]
]

pub lock-Promises :
    (a : ℕ → Attempt) (l : Lock) (t : Table)
    → str_eq l.owner "" ≡ false
    → IsWellFormed t
    → Promises a l (lock a l t)
unfolding lock transact
lock-Promises a l t named w =
    attempts_induction (lock_body l) a (λ s t. IsWellFormed t) (Promises a l)
      (λ i s t' w'. let r = attempt-Promises a l i s t' named w' in (r.0, r)) 2 0 true t w

-- Let the table have no row, or one whose owner has a name, and let the caller have a name. Then
-- `Lock`, whatever fails in its attempts, leaves such a table; and it answers "not acquired" or an
-- error, or the caller's is the only row, and its time is that of one of the attempts.
pub lock_holds :
    (a : ℕ → Attempt) (l : Lock) (t : Table)
    → str_eq l.owner "" ≡ false
    → IsWellFormed t
    → IsWellFormed (lock a l t).1
      × (((lock a l t).0 ≡ false)
          ⊎ (((e : Error) × ((lock a l t).2 ≡ some e))
              ⊎ ((i : ℕ) × Held l.owner (a i).now (lock a l t).1)))
lock_holds a l t named w =
    let p = lock-Promises a l t named w in
    (
      p.0,
      elim (Bool-cases (lock a l t).0) [
        | inr lost ↦ inl lost
        | inl got ↦ elim (Option-cases (lock a l t).2) [
          | inr failed ↦ inr (inl failed)
          | inl clean ↦ inr (inr (p.1 got clean))
        ]
      ],
    )

-- What the lock of another makes of an attempt.
abbrev Refuses : Table → Bool × Table × Option Error → Type 0
Refuses t r = (r.1 ≡ t) × ((r.0 ≡ false) ⊎ ((e : Error) × (r.2 ≡ some e)))

module _ (a : ℕ → Attempt) (l row : Lock) where
  body-Refuses :
      (i : ℕ) (s : Bool)
      → str_eq row.owner l.owner ≡ false
      → str_eq row.owner "" ≡ false
      → is_expired (a i) row ≡ false
      → ((e : Error) × ((lock_body l (a i) s (row ∷ [])).1 ≡ err e))
        ⊎ (lock_body l (a i) s (row ∷ []) ≡ (false, ok (row ∷ [])))
  unfolding lock_body fetch
  body-Refuses i s other named valid = elim (Option-cases (a i).table_lock) [
    | inr (x, p) ↦ inl (x, rw (lock_body, fetch, p) refl)
    | inl p ↦ elim (Option-cases (a i).select) [
      | inr (x, q) ↦ inl (x, rw (lock_body, fetch, p, q) refl)
      | inl q ↦ elim (Option-cases (a i).first_timestamp) [
        | inr (x, f) ↦ inl (x, rw (lock_body, fetch, p, q, other, named, f) refl)
        | inl f ↦ inr (rw (lock_body, fetch, p, q, other, named, f, valid) refl)
      ]
    ]
  ]

  attempt-Refuses :
      (i : ℕ) (s : Bool)
      → str_eq row.owner l.owner ≡ false
      → str_eq row.owner "" ≡ false
      → is_expired (a i) row ≡ false
      → Refuses (row ∷ []) (attempt (lock_body l) (a i) s (row ∷ []))
  unfolding attempt
  attempt-Refuses i s other named valid = elim (Option-cases (a i).begin) [
    | inr (e, p) ↦ rw (attempt, p) (refl, inr (e, refl))
    | inl p ↦ elim (body-Refuses i s other named valid) [
      | inl (e, r) ↦ rw (attempt, p, r) (refl, inr (e, refl))
      | inr r ↦ elim (Commit-cases (a i).commit) [
        | inl d ↦ rw (attempt, p, r, d) (refl, inl (ap (λ x. x.0) r))
        | inr (inl (e, d)) ↦ rw (attempt, p, r, d) (refl, inr (e, refl))
        | inr (inr (e, d)) ↦ rw (attempt, p, r, d) (refl, inr (e, refl))
      ]
    ]
  ]

  -- Let the one row of the table be of another owner, with a name, and unexpired in every attempt.
  -- Then `Lock` leaves the table as it is, whatever fails, and answers "not acquired" or an error.
  pub lock_refuses :
      str_eq row.owner l.owner ≡ false
      → str_eq row.owner "" ≡ false
      → ((i : ℕ) → is_expired (a i) row ≡ false)
      → ((lock a l (row ∷ [])).1 ≡ row ∷ [])
        × (((lock a l (row ∷ [])).0 ≡ false) ⊎ ((e : Error) × ((lock a l (row ∷ [])).2 ≡ some e)))
  unfolding lock transact
  lock_refuses other named valid =
      attempts_induction (lock_body l) a (λ s t. t ≡ row ∷ []) (Refuses (row ∷ []))
        (λ i s t e.
          let r =
            subst (λ z. Refuses (row ∷ []) (attempt (lock_body l) (a i) s z)) (sym e)
              (attempt-Refuses i s other named (valid i)) in
          (r.0, r))
        2 0 true (row ∷ []) refl

-- If `Lock` answers "acquired" with no error to a caller with a name, on a table with no row or one
-- whose owner has a name, then a `Lock` of another caller on the table that it leaves changes nothing
-- and answers "not acquired" or an error, as long as no row of that table is expired in any
-- of its attempts, whatever fails in both.
pub lock_excludes :
    (a b : ℕ → Attempt) (l m : Lock) (t : Table)
    → str_eq l.owner "" ≡ false
    → IsWellFormed t
    → (lock a l t).0 ≡ true
    → (lock a l t).2 ≡ none
    → str_eq l.owner m.owner ≡ false
    → ((row : Lock) (j : ℕ) → Holds row (lock a l t).1 → is_expired (b j) row ≡ false)
    → ((lock b m (lock a l t).1).1 ≡ (lock a l t).1)
      × (((lock b m (lock a l t).1).0 ≡ false)
          ⊎ ((e : Error) × ((lock b m (lock a l t).1).2 ≡ some e)))
lock_excludes a b l m t named w got clean other valid =
    let (i, h) = (lock-Promises a l t named w).1 got clean in
    let refuses =
      lock_refuses b m h.row (rw h.owned other) (rw h.owned named)
        (λ j. valid h.row j (subst (Holds h.row) (sym h.only) (inl refl))) in
    subst (λ z. Refuses z (lock b m z)) (sym h.only) refuses
