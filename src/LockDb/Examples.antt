-- ===== src/LockDb/Examples.antt =====
-- Concrete contenders for the lock.
use app_autoscaler.Prelude.{
  ℕ, zero, suc, ◌≡◌, refl, String, Bool, true, false, ◌⊎◌, inl, inr, Option, none, some, [], ◌∷◌,
  Holds, str_eq, subst, sym, ap,
}
use app_autoscaler.Prelude.Int.{pos, ◌+ℤ◌, wrap64, ◌*ℤ◌}
use app_autoscaler.Models.{Error, bad_conn, message, Lock}
use app_autoscaler.LockDb.{
  Table, Attempt, calm, is_expired, lock, transact, attempts, attempt, lock_body, fetch,
  insert_lock,
}
use app_autoscaler.LockDb.Transaction.{IsWellFormed, Held}
use app_autoscaler.LockDb.Exclusion.{lock_holds, lock_excludes}
use app_autoscaler.LockDb.Acquire.{lock_acquires}
use app_autoscaler.LockDb.Runner.{Runner, tick, step, start, tick_ready, start_unreached, running}

abbrev lock_of : String → Lock
lock_of name = record { owner = name; last_modified_timestamp = pos 0; ttl = pos 15000000000 }

-- A row of 15 seconds, taken at a time.
abbrev row_of : String → ℕ → Lock
row_of name t = record { owner = name; last_modified_timestamp = pos t; ttl = pos 15 }

abbrev steady : ℕ → ℕ → Attempt
steady t i = calm (pos t)

first_takes : lock (steady 10) (lock_of "one") [] ≡ (true, row_of "one" 10 ∷ [], none)
unfolding lock transact attempts attempt lock_body fetch insert_lock
first_takes = refl

-- A bad connection at the first commit, and a second attempt that takes the lock.
abbrev shaky : ℕ → Attempt
shaky zero = record (calm (pos 10)) { write = some bad_conn }
shaky (suc i) = calm (pos 11)

-- The retry takes the lock, but the answer is that of the first attempt.
retry_is_not_told : lock shaky (lock_of "one") [] ≡ (false, row_of "one" 11 ∷ [], none)
unfolding lock transact attempts attempt lock_body fetch insert_lock
retry_is_not_told = refl

lock_holds_example :
    IsWellFormed (lock (steady 10) (lock_of "one") []).1
    × (((lock (steady 10) (lock_of "one") []).0 ≡ false)
        ⊎ (((e : Error) × ((lock (steady 10) (lock_of "one") []).2 ≡ some e))
            ⊎ ((i : ℕ) × Held "one" (pos 10) (lock (steady 10) (lock_of "one") []).1)))
lock_holds_example = lock_holds (steady 10) (lock_of "one") [] refl tt

not_expired : (i : ℕ) → is_expired (steady 20 i) (row_of "one" 10) ≡ false
unfolding ◌+ℤ◌ wrap64 ◌*ℤ◌
not_expired i = refl

all_valid :
    (row : Lock) (j : ℕ)
    → Holds row (lock (steady 10) (lock_of "one") []).1
    → is_expired (steady 20 j) row ≡ false
all_valid row j h =
    elim (subst (λ (z : Bool × Table × Option Error). Holds row z.1) first_takes h) [
      | inl e ↦ subst (λ z. is_expired (steady 20 j) z ≡ false) (sym e) (not_expired j)
      | inr k ↦ absurd k
    ]

lock_excludes_example :
    ((lock (steady 20) (lock_of "two") (lock (steady 10) (lock_of "one") []).1).1
      ≡ (lock (steady 10) (lock_of "one") []).1)
    × (((lock (steady 20) (lock_of "two") (lock (steady 10) (lock_of "one") []).1).0 ≡ false)
        ⊎ ((e : Error) × ((lock
                (steady 20)
                (lock_of "two")
                (lock (steady 10) (lock_of "one") []).1).2
              ≡ some e)))
lock_excludes_example =
    lock_excludes (steady 10) (steady 20) (lock_of "one") (lock_of "two") [] refl tt
      (ap (λ (z : Bool × Table × Option Error). z.0) first_takes)
      (ap (λ (z : Bool × Table × Option Error). z.2) first_takes) refl all_valid

expired : is_expired (calm (pos 15000000011)) (row_of "one" 10) ≡ true
unfolding ◌+ℤ◌ wrap64 ◌*ℤ◌
expired = refl

lock_acquires_example :
    (row : Lock) × (lock (steady 15000000011) (lock_of "two") (row_of "one" 10 ∷ [])
      ≡ (true, row ∷ [], none))
    × (str_eq row.owner "two" ≡ true)
    × (row.last_modified_timestamp ≡ pos 15000000011)
lock_acquires_example =
    lock_acquires (steady 15000000011) (pos 15000000011) (lock_of "two") (row_of "one" 10 ∷ []) refl
      (inr (row_of "one" 10, refl, inr (refl, refl, expired)))

abbrev waiting : Runner
waiting = record {
  owner = "one";
  ttl = pos 15000000000;
  phase = running;
  ready_to_acquire = true;
  ready = false;
}

gets_ready : (step waiting (tick (steady 10) (steady 10)) []).0.ready ≡ true
unfolding step lock transact attempts attempt lock_body fetch insert_lock
gets_ready = refl

tick_ready_example :
    (i : ℕ) × Held "one" (pos 10) (step waiting (tick (steady 10) (steady 10)) []).1
tick_ready_example = tick_ready waiting (steady 10) (steady 10) [] refl tt refl gets_ready

abbrev out_of_reach : ℕ → Attempt
out_of_reach i = record (calm (pos 10)) { begin = some (message "no route to host") }

start_unreached_example :
    ((start "two" (pos 15000000000) out_of_reach (row_of "one" 10 ∷ [])).0.ready ≡ true)
    × ((start "two" (pos 15000000000) out_of_reach (row_of "one" 10 ∷ [])).1 ≡ row_of "one" 10 ∷ [])
start_unreached_example =
    start_unreached "two" "no route to host" (pos 15000000000) out_of_reach (row_of "one" 10 ∷ [])
      refl refl
