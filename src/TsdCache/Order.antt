-- ===== src/TsdCache/Order.antt =====
-- The specification on lists: order, length, and which points are given up.
use app_autoscaler.Prelude.{
  suc, ◌≡◌, refl, ◌⊎◌, inl, inr, true, List, [], ◌∷◌, ◌++◌, arith, Bool-cases, length,
  length-append, Holds,
}
use app_autoscaler.Prelude.Int.{◌≤ℤ◌, leb_ℤ}
use app_autoscaler.TsdCache.{Tsd, stamp}
use app_autoscaler.TsdCache.Spec.{place, is_latest, insert_before}

module _ {A : Type 0} where
  Holds-append_left : (d : A) (xs ys : List A) → Holds d xs → Holds d (xs ++ ys)
  Holds-append_left d [] ys h = absurd h
  Holds-append_left d (x ∷ xs) ys (inl e) = inl e
  Holds-append_left d (x ∷ xs) ys (inr h) = inr (Holds-append_left d xs ys h)

  Holds-append_last : (d : A) (xs : List A) → Holds d (xs ++ d ∷ [])
  Holds-append_last d [] = inl refl
  Holds-append_last d (x ∷ xs) = inr (Holds-append_last d xs)

module _ {A : Type 0} ⦃tsd : Tsd A⦄ where
  abbrev pub NotBefore : A → List A → Type 0
  NotBefore d [] = Unit {0}
  NotBefore d (x ∷ xs) = (stamp d ≤ℤ stamp x) × NotBefore d xs

  abbrev pub IsSorted : List A → Type 0
  IsSorted [] = Unit {0}
  IsSorted (x ∷ xs) = NotBefore x xs × IsSorted xs

  length-insert_before : (d : A) (xs : List A) → length (insert_before d xs) ≡ suc (length xs)
  length-insert_before d [] = refl
  length-insert_before d (x ∷ xs) = ground (arith, length-insert_before d xs)

  pub length-place : (d : A) (xs : List A) → length (place d xs) ≡ suc (length xs)
  length-place d xs = elim (Bool-cases (is_latest d xs)) [
    | inl e ↦ rw e (omega (arith, length-append xs (d ∷ [])))
    | inr e ↦ rw e (length-insert_before d xs)
  ]

  NotBefore-trans : (d x : A) (xs : List A) → stamp d ≤ℤ stamp x → NotBefore x xs → NotBefore d xs
  NotBefore-trans d x [] h n = tt
  NotBefore-trans d x (y ∷ xs) h n = (omega arith, NotBefore-trans d x xs h n.1)

  NotBefore-insert_before :
      (d x : A) (xs : List A)
      → stamp x ≤ℤ stamp d
      → NotBefore x xs
      → NotBefore x (insert_before d xs)
  NotBefore-insert_before d x [] h n = (h, tt)
  NotBefore-insert_before d x (y ∷ xs) h n = ground (arith, NotBefore-insert_before d x xs h n.1)

  insert_before-IsSorted : (d : A) (xs : List A) → IsSorted xs → IsSorted (insert_before d xs)
  insert_before-IsSorted d [] s = (tt, tt)
  insert_before-IsSorted d (x ∷ xs) s = elim (Bool-cases (leb_ℤ (stamp d) (stamp x))) [
    | inl e ↦
        let le : stamp d ≤ℤ stamp x = ground arith in rw e ((le, NotBefore-trans d x xs le s.0), s)
    | inr e ↦
        rw e (NotBefore-insert_before d x xs (ground arith) s.0, insert_before-IsSorted d xs s.1)
  ]

  NotBefore-append :
      (d x : A) (xs : List A) → stamp x ≤ℤ stamp d → NotBefore x xs → NotBefore x (xs ++ d ∷ [])
  NotBefore-append d x [] h n = (h, tt)
  NotBefore-append d x (y ∷ xs) h n = (n.0, NotBefore-append d x xs h n.1)

  -- In order, a point as late as the last is as late as the first.
  is_latest_first :
      (d x : A) (xs : List A) → IsSorted (x ∷ xs) → is_latest d (x ∷ xs) ≡ true → stamp x ≤ℤ stamp d
  is_latest_first d x [] s e = ground arith
  is_latest_first d x (y ∷ xs) s e = omega (arith, is_latest_first d y xs s.1 e)

  append-IsSorted :
      (d : A) (xs : List A) → IsSorted xs → is_latest d xs ≡ true → IsSorted (xs ++ d ∷ [])
  append-IsSorted d [] s e = (tt, tt)
  append-IsSorted d (x ∷ []) s e = ((ground arith, tt), (tt, tt))
  append-IsSorted d (x ∷ y ∷ xs) s e = (
    NotBefore-append d x (y ∷ xs) (is_latest_first d x (y ∷ xs) s e) s.0,
    append-IsSorted d (y ∷ xs) s.1 e,
  )

  pub place-IsSorted : (d : A) (xs : List A) → IsSorted xs → IsSorted (place d xs)
  place-IsSorted d xs s = elim (Bool-cases (is_latest d xs)) [
    | inl e ↦ rw e (append-IsSorted d xs s e)
    | inr e ↦ rw e (insert_before-IsSorted d xs s)
  ]

  insert_before-Holds : (d : A) (xs : List A) → Holds d (insert_before d xs)
  insert_before-Holds d [] = inl refl
  insert_before-Holds d (x ∷ xs) = elim (Bool-cases (leb_ℤ (stamp d) (stamp x))) [
    | inl e ↦ rw e (inl refl)
    | inr e ↦ rw e (inr (insert_before-Holds d xs))
  ]

  insert_before_keeps : (d x : A) (xs : List A) → Holds x xs → Holds x (insert_before d xs)
  insert_before_keeps d x [] h = absurd h
  insert_before_keeps d x (y ∷ xs) (inl h) = elim (Bool-cases (leb_ℤ (stamp d) (stamp y))) [
    | inl e ↦ rw e (inr (inl h))
    | inr e ↦ rw e (inl h)
  ]
  insert_before_keeps d x (y ∷ xs) (inr h) = elim (Bool-cases (leb_ℤ (stamp d) (stamp y))) [
    | inl e ↦ rw e (inr (inr h))
    | inr e ↦ rw e (inr (insert_before_keeps d x xs h))
  ]

  pub place-Holds : (d : A) (xs : List A) → Holds d (place d xs)
  place-Holds d xs = elim (Bool-cases (is_latest d xs)) [
    | inl e ↦ rw e (Holds-append_last d xs)
    | inr e ↦ rw e (insert_before-Holds d xs)
  ]

  pub place_keeps : (d x : A) (xs : List A) → Holds x xs → Holds x (place d xs)
  place_keeps d x xs h = elim (Bool-cases (is_latest d xs)) [
    | inl e ↦ rw e (Holds-append_left x xs (d ∷ []) h)
    | inr e ↦ rw e (insert_before_keeps d x xs h)
  ]

  -- The first point stays first, or comes second.
  pub place_first :
      (d x : A) (xs : List A)
      → ((ys : List A) × (place d (x ∷ xs) ≡ x ∷ ys)) ⊎ (place d (x ∷ xs) ≡ d ∷ x ∷ xs)
  place_first d x xs = elim (Bool-cases (is_latest d (x ∷ xs))) [
    | inl e ↦ inl (xs ++ d ∷ [], rw e)
    | inr e ↦ elim (Bool-cases (leb_ℤ (stamp d) (stamp x))) [
      | inl f ↦ inr (rw e (rw f))
      | inr f ↦ inl (insert_before d xs, rw e (rw f))
    ]
  ]
