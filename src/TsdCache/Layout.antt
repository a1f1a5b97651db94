-- ===== src/TsdCache/Layout.antt =====
-- A ring described by the positions of its points.
use native.Mathlib.Nat.{add-mod_right, mod-eq_of_lt}
use native.Mathlib.Decide.{dec_lt}
use app_autoscaler.Prelude.{
  ℕ, ◌+◌, ◌-◌, ◌%◌, ◌≤◌, ◌<◌, ◌≡◌, ap, sym, ◌∙◌, ◌⊎◌, inl, inr, none, some, arith,
}
use app_autoscaler.Prelude.Int.{◌≤ℤ◌}
use app_autoscaler.TsdCache.{Tsd, TsdCache, at, stamp, low, high}
use app_autoscaler.TsdCache.Window.{slot-cases, slot_round, window, window_ext}
use app_autoscaler.TsdCache.Search.{IsLaidOut, IsRing, IsLaidOut-cases}
use app_autoscaler.TsdCache.Spec.{contents}

module _ {A : Type 0} ⦃tsd : Tsd A⦄ where
  -- The points of `c` stand at the `n` positions from `s` on.
  pub record Lays (c : TsdCache A) (s n : ℕ) : Type 0 where
    pub positive : 0 < c.capacity
    pub place_of :
        ((c.num < c.capacity) × (s ≡ 0) × (n ≡ c.num) × (c.cursor ≡ c.num))
        ⊎ ((c.capacity ≤ c.num)
            × (n ≡ c.capacity)
            × (s % c.capacity ≡ c.cursor)
            × (s ≤ c.capacity)
            × (c.cursor < c.capacity))
    pub present : (i : ℕ) → s ≤ i → i < s + n → (x : A) × (at c i ≡ some x)
    pub vacant : (i : ℕ) → c.num ≤ i → i < c.capacity → c.items i ≡ none
    pub sorted :
        (i j : ℕ) (x y : A)
        → s ≤ i
        → i ≤ j
        → j < s + n
        → at c i ≡ some x
        → at c j ≡ some y
        → stamp x ≤ℤ stamp y

  Lays-filled :
      (c : TsdCache A) (s n : ℕ)
      → Lays c s n
      → (i : ℕ) → i < c.capacity
      → i < c.num
      → (x : A) × (c.items i ≡ some x)
  Lays-filled c s n l i b few = elim (dec_lt i s) [
    | yes lt ↦
        let (x, e) =
          l.present (i + c.capacity) (omega (arith, l.place_of)) (omega (arith, l.place_of)) in
        (x, sym (ap c.items (slot_round i c.capacity b)) ∙ e)
    | no ge ↦
        let (x, e) = l.present i (omega arith) (omega (arith, l.place_of)) in
        (x, sym (ap c.items (mod-eq_of_lt b)) ∙ e)
  ]

  pub Lays-IsLaidOut : (c : TsdCache A) (s n : ℕ) → Lays c s n → IsLaidOut c
  Lays-IsLaidOut c s n l = record {
    positive = l.positive;
    in_bounds = omega (arith, l.place_of);
    partial = λ h. omega (arith, l.place_of);
    filled = Lays-filled c s n l;
    vacant = l.vacant;
  }

  -- The positions of `Lays` are those from `low` to `high`, or a round behind them.
  Lays-round :
      (c : TsdCache A) (s n : ℕ)
      → Lays c s n
      → (n ≡ high c - low c) × (low c ≤ high c) × ((s ≡ low c) ⊎ (s ≡ low c + c.capacity))
  Lays-round c s n l = elim (IsLaidOut-cases c (Lays-IsLaidOut c s n l)) [
    | inl p ↦ omega (arith, l.place_of)
    | inr f ↦ omega (arith, l.place_of, slot-cases s c.capacity (omega (arith, l.place_of)))
  ]

  Lays-at : (c : TsdCache A) (s n : ℕ) → Lays c s n → (k : ℕ) → at c (s + k) ≡ at c (low c + k)
  Lays-at c s n l k = elim ((Lays-round c s n l).2) [
    | inl e ↦ ap (λ j. at c (j + k)) e
    | inr e ↦
        ap c.items
          (ap (λ (j : ℕ). j % c.capacity) (omega arith) ∙ add-mod_right (low c + k) c.capacity)
  ]

  pub Lays-contents : (c : TsdCache A) (s n : ℕ) → Lays c s n → contents c ≡ window (at c) n s
  unfolding contents
  Lays-contents c s n l =
      let (e, _, _) = Lays-round c s n l in
      rw e (sym (window_ext (at c) (at c) (high c - low c) s (low c) (λ k _. Lays-at c s n l k)))

  pub Lays-IsRing : (c : TsdCache A) (s n : ℕ) → Lays c s n → IsRing c
  Lays-IsRing c s n l = record {
    laid_out = Lays-IsLaidOut c s n l;
    sorted = λ i j x y lo le hi ei ej.
        let (e, _, _) = Lays-round c s n l in
        l.sorted (s + (i - low c)) (s + (j - low c)) x y (omega arith) (omega arith) (omega arith)
          (Lays-at c s n l (i - low c) ∙ ap (at c) (omega arith) ∙ ei)
          (Lays-at c s n l (j - low c) ∙ ap (at c) (omega arith) ∙ ej);
  }
