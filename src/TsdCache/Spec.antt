-- ===== src/TsdCache/Spec.antt =====
-- What the cache promises: the points in the order of their timestamps, the oldest given up first.
use app_autoscaler.Prelude.{
  ℕ, ◌-◌, ◌≡◌, refl, Bool, true, List, [], ◌∷◌, ◌++◌, arith, length, drop, if◌then◌else◌,
}
use app_autoscaler.Prelude.Int.{◌≤ℤ◌, ◌<ℤ◌, leb_ℤ}
use app_autoscaler.TsdCache.{Tsd, TsdCache, at, stamp, low, high}
use app_autoscaler.TsdCache.Window.{window}

module _ {A : Type 0} where
  -- The points of a cache, oldest first.
  unfoldable pub contents : TsdCache A → List A
  contents c = window (at c) (high c - low c) (low c)

  -- The last `n` entries.
  abbrev pub recent : ℕ → List A → List A
  recent n xs = drop (length xs - n) xs

module _ {A : Type 0} ⦃tsd : Tsd A⦄ where
  abbrev pub is_latest : A → List A → Bool
  is_latest d [] = true
  is_latest d (x ∷ []) = leb_ℤ (stamp x) (stamp d)
  is_latest d (x ∷ y ∷ xs) = is_latest d (y ∷ xs)

  abbrev pub insert_before : A → List A → List A
  insert_before d [] = d ∷ []
  insert_before d (x ∷ xs) =
      if leb_ℤ (stamp d) (stamp x) then d ∷ x ∷ xs else x ∷ insert_before d xs

  -- A point that is as late as the last goes to the end; any other stands before its equals.
  abbrev pub place : A → List A → List A
  place d xs = if is_latest d xs then xs ++ d ∷ [] else insert_before d xs

  abbrev pub Earlier : A → List A → Type 0
  Earlier d [] = Unit {0}
  Earlier d (x ∷ xs) = (stamp x <ℤ stamp d) × Earlier d xs

  pub is_latest-append :
      (d y : A) (xs : List A) → is_latest d (xs ++ y ∷ []) ≡ leb_ℤ (stamp y) (stamp d)
  is_latest-append d y [] = refl
  is_latest-append d y (x ∷ []) = refl
  is_latest-append d y (x ∷ z ∷ xs) = is_latest-append d y (z ∷ xs)

  pub insert_before-append :
      (d y : A) (xs ys : List A)
      → Earlier d xs
      → stamp d ≤ℤ stamp y
      → insert_before d (xs ++ y ∷ ys) ≡ xs ++ d ∷ y ∷ ys
  insert_before-append d y [] ys e h = ground arith
  insert_before-append d y (x ∷ xs) ys e h = ground (arith, insert_before-append d y xs ys e.1 h)
