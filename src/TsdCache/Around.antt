-- ===== src/TsdCache/Around.antt =====
-- The data of a ring around a position, as lists.
use app_autoscaler.Prelude.{
  ℕ, zero, suc, ◌+◌, ◌-◌, ◌≤◌, ◌<◌, ◌≡◌, refl, ap, ◌∙◌, inl, inr, Option, some, [], ◌∷◌, ◌++◌,
  arith, length, length-append, Option-cases,
}
use app_autoscaler.Prelude.Int.{◌<ℤ◌}
use app_autoscaler.TsdCache.{Tsd, TsdCache, at, stamp, low, high}
use app_autoscaler.TsdCache.Window.{window, window_split}
use app_autoscaler.TsdCache.Search.{IsRing, IsRing-present, IsLaidOut-cases, low-le-high}
use app_autoscaler.TsdCache.Spec.{contents, recent, Earlier}
use app_autoscaler.TsdCache.Put.{First}

module _ {A : Type 0} where
  pub length-window :
      (f : ℕ → Option A) (n i : ℕ)
      → ((k : ℕ) → i ≤ k → k < i + n → (x : A) × (f k ≡ some x))
      → length (window f n i) ≡ n
  length-window f zero i h = refl
  length-window f (suc n) i h =
      let (x, e) = h i (omega arith) (omega arith) in
      rw e (ap suc (length-window f n (i + 1) (λ k lo hi. h k (omega arith) (omega arith))))

  -- The window in front of a position that holds a point.
  pub window_first :
      (f : ℕ → Option A) (x : A) (n m i : ℕ)
      → f i ≡ some x
      → n ≡ suc m
      → window f n i ≡ x ∷ window f m (i + 1)
  window_first f x zero m i e h = absurd (omega arith)
  window_first f x (suc n) m i e h = let h' : n ≡ m = omega arith in rw (e, h')

module _ {A : Type 0} ⦃tsd : Tsd A⦄ where
  pub Earlier-window :
      (f : ℕ → Option A) (d : A) (n i : ℕ)
      → ((k : ℕ) (x : A) → i ≤ k → k < i + n → f k ≡ some x → stamp x <ℤ stamp d)
      → Earlier d (window f n i)
  Earlier-window f d zero i h = tt
  Earlier-window f d (suc n) i h = elim (Option-cases (f i)) [
    | inl e ↦ rw e (Earlier-window f d n (i + 1) (λ k x lo hi. h k x (omega arith) (omega arith)))
    | inr (x, e) ↦ rw e (
      h i x (omega arith) (omega arith) e,
      Earlier-window f d n (i + 1) (λ k x lo hi. h k x (omega arith) (omega arith)),
    )
  ]

  module _ (c : TsdCache A) (v : IsRing c) where
    -- The points before a position, and from it on.
    pub contents_split :
        (pos : ℕ)
        → low c ≤ pos
        → pos ≤ high c
        → contents c ≡ window (at c) (pos - low c) (low c) ++ window (at c) (high c - pos) pos
    unfolding contents
    contents_split pos lo hi =
        window_split (at c) (pos - low c) (high c - pos) (high c - low c) (low c) (omega arith)
        ∙ ap (λ (i : ℕ). window (at c) (pos - low c) (low c) ++ window (at c) (high c - pos) i)
            (omega arith)

    pub length_around :
        (d : A) (pos : ℕ)
        → low c ≤ pos
        → pos ≤ high c
        → length (window (at c) (pos - low c) (low c) ++ d ∷ window (at c) (high c - pos) pos)
          ≡ suc (high c - low c)
    length_around d pos lo hi = omega (
      arith,
      length-append (window (at c) (pos - low c) (low c)) (d ∷ window (at c) (high c - pos) pos),
      length-window (at c) (pos - low c) (low c) (λ k a b. IsRing-present c v k a (omega arith)),
      length-window (at c) (high c - pos) pos
          (λ k a b. IsRing-present c v k (omega arith) (omega arith)),
    )

    -- Of the old points and the new one, those from `first` on are the `capacity` latest.
    pub recent_around :
        (d : A) (first pos : ℕ)
        → First c first
        → first ≤ pos
        → pos ≤ high c
        → recent c.capacity
            (window (at c) (pos - low c) (low c) ++ d ∷ window (at c) (high c - pos) pos)
          ≡ window (at c) (pos - first) first ++ d ∷ window (at c) (high c - pos) pos
    recent_around d first pos (inl (p, e)) from hi =
        let l = length_around d pos (omega arith) hi in
        let z : length (window (at c) (pos - low c) (low c) ++ d ∷ window (at c) (high c - pos) pos)
              - c.capacity
            ≡ 0 =
          omega arith in
        rw z (
          ap (λ (i : ℕ). window (at c) (pos - i) i ++ d ∷ window (at c) (high c - pos) pos)
            (omega arith))
    recent_around d first pos (inr (f, e)) from hi =
        let l = length_around d pos (omega arith) hi in
        let z : length (window (at c) (pos - low c) (low c) ++ d ∷ window (at c) (high c - pos) pos)
              - c.capacity
            ≡ 1 =
          omega arith in
        let (x, h) = IsRing-present c v (low c) (omega arith) (omega (arith, v.positive)) in
        rw z (
          rw (window_first (at c) x (pos - low c) (pos - first) (low c) h (omega arith)) (
            ap (λ (i : ℕ). window (at c) (pos - first) i ++ d ∷ window (at c) (high c - pos) pos)
              (omega arith)))

    pub length-contents : length (contents c) ≡ high c - low c
    unfolding contents
    length-contents =
        length-window (at c) (high c - low c) (low c)
          (λ k lo hi. IsRing-present c v k lo (omega (arith, low-le-high c v)))

    pub low-lt-high : 0 < c.num → low c < high c
    low-lt-high h = elim (IsLaidOut-cases c v.laid_out) [
      | inl p ↦ omega arith
      | inr f ↦ omega (arith, v.positive)
    ]

    pub no_positions : c.num ≡ 0 → high c - low c ≡ 0
    no_positions h = elim (IsLaidOut-cases c v.laid_out) [
      | inl p ↦ omega arith
      | inr f ↦ absurd (omega (arith, v.positive))
    ]

    pub no_contents : c.num ≡ 0 → contents c ≡ []
    unfolding contents
    no_contents h = rw (no_positions h)
