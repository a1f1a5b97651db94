-- ===== src/TsdCache/Insert.antt =====
-- A ring with one more point, which has pushed the oldest out if the ring was full.
use native.Mathlib.Decide.{dec_lt, ℕ_discrete}
use app_autoscaler.Prelude.{
  ℕ, suc, ◌+◌, ◌-◌, ◌%◌, ◌≤◌, ◌<◌, ◌≡◌, ap, sym, ◌∙◌, subst, ◌⊎◌, inl, inr, none, some, ◌∷◌, ◌++◌,
  arith,
}
use mathlib.Core.Option.{some-injective}
use mathlib.Core.Path.{ap₂}
use app_autoscaler.Prelude.Int.{◌≤ℤ◌}
use app_autoscaler.TsdCache.{Tsd, TsdCache, at, stamp, low, high}
use app_autoscaler.TsdCache.Window.{slot-cases, window, window_ext, window_split}
use app_autoscaler.TsdCache.Search.{IsRing, IsRing-present, IsPartial, IsFull}
use app_autoscaler.TsdCache.Spec.{contents}
use app_autoscaler.TsdCache.Layout.{Lays, Lays-contents}

module _ {A : Type 0} ⦃tsd : Tsd A⦄ where
  -- `c'` has the points of `c` from the position `first` on, with `d` at `pos`.
  pub record Inserts (c c' : TsdCache A) (d : A) (first pos : ℕ) : Type 0 where
    pub size : c'.capacity ≡ c.capacity
    pub counts : c'.num ≡ suc c.num
    pub moves : c'.cursor ≡ (c.cursor + 1) % c.capacity
    pub first_of : (IsPartial c × (first ≡ 0)) ⊎ (IsFull c × (first ≡ c.cursor + 1))
    pub from_first : first ≤ pos
    pub to_end : pos ≤ high c
    pub kept : (i : ℕ) → first ≤ i → i < pos → at c' i ≡ at c i
    pub placed : at c' pos ≡ some d
    pub moved : (i : ℕ) → pos ≤ i → i < high c → at c' (suc i) ≡ at c i
    pub rest : (s : ℕ) → suc c.num ≤ s → s < c.capacity → c'.items s ≡ c.items s
    pub earlier : (i : ℕ) (x : A) → low c ≤ i → i < pos → at c i ≡ some x → stamp x ≤ℤ stamp d
    pub later : (i : ℕ) (x : A) → pos ≤ i → i < high c → at c i ≡ some x → stamp d ≤ℤ stamp x

  module _ (c c' : TsdCache A) (d : A) (first pos : ℕ) (v : IsRing c)
      (s : Inserts c c' d first pos) where
    -- Where the point at a position of `c'` comes from.
    Source : ℕ → Type 0
    Source i =
        ((i < pos) × (at c' i ≡ at c i))
        ⊎ ((i ≡ pos) × (at c' i ≡ some d))
        ⊎ ((pos < i) × (at c' i ≡ at c (i - 1)))

    source : (i : ℕ) → first ≤ i → i < suc (high c) → Source i
    unfolding Source
    source i lo hi = elim (dec_lt i pos) [
      | yes lt ↦ inl (lt, s.kept i lo lt)
      | no ge ↦ elim (ℕ_discrete i pos) [
        | yes e ↦ inr (inl (e, ap (at c') e ∙ s.placed))
        | no ne ↦ inr (
            inr
              (omega arith, ap (at c') (omega arith) ∙ s.moved (i - 1) (omega arith) (omega arith)))
      ]
    ]

    first_bounds : (low c ≤ first) × (first ≤ c.capacity)
    first_bounds = elim s.first_of [
      | inl (p, e) ↦ omega arith
      | inr (f, e) ↦ omega (arith, v.in_bounds)
    ]

    present : (i : ℕ) → first ≤ i → i < suc (high c) → (x : A) × (at c' i ≡ some x)
    unfolding Source
    present i lo hi = elim (source i lo hi) [
      | inl (lt, e) ↦
          let (x, h) =
            IsRing-present c v i (omega (arith, first_bounds)) (omega (arith, s.to_end)) in
          (x, e ∙ h)
      | inr (inl (_, e)) ↦ (d, e)
      | inr (inr (gt, e)) ↦
          let (x, h) =
            IsRing-present c v (i - 1) (omega (arith, first_bounds, s.from_first)) (omega arith) in
          (x, e ∙ h)
    ]

    le_self : stamp d ≤ℤ stamp d
    le_self = omega arith

    sorted :
        (i j : ℕ) (x y : A)
        → first ≤ i
        → i ≤ j
        → j < suc (high c)
        → at c' i ≡ some x
        → at c' j ≡ some y
        → stamp x ≤ℤ stamp y
    unfolding Source
    sorted i j x y lo le hi ei ej = elim (source i lo (omega arith)) [
      | inl (li, fi) ↦
          let low_i : low c ≤ i = omega (arith, first_bounds) in
          let hx : at c i ≡ some x = sym fi ∙ ei in
          elim (source j (omega arith) hi) [
            | inl (lj, fj) ↦ v.sorted i j x y low_i le (omega (arith, s.to_end)) hx (sym fj ∙ ej)
            | inr (inl (_, fj)) ↦
                subst (λ z. stamp x ≤ℤ stamp z) (some-injective d y (sym fj ∙ ej))
                  (s.earlier i x low_i li hx)
            | inr (inr (gj, fj)) ↦
                v.sorted i (j - 1) x y low_i (omega arith) (omega arith) hx (sym fj ∙ ej)
          ]
      | inr (inl (at_pos, fi)) ↦
          subst (λ z. stamp z ≤ℤ stamp y) (some-injective d x (sym fi ∙ ei))
            (elim (source j (omega arith) hi) [
              | inl (lj, _) ↦ absurd (omega arith)
              | inr (inl (_, fj)) ↦
                  subst (λ z. stamp d ≤ℤ stamp z) (some-injective d y (sym fj ∙ ej)) le_self
              | inr (inr (gj, fj)) ↦ s.later (j - 1) y (omega arith) (omega arith) (sym fj ∙ ej)
            ])
      | inr (inr (gi, fi)) ↦ elim (source j (omega arith) hi) [
        | inl (lj, _) ↦ absurd (omega arith)
        | inr (inl (here, _)) ↦ absurd (omega arith)
        | inr (inr (gj, fj)) ↦
            v.sorted (i - 1) (j - 1) x y (omega (arith, first_bounds, s.from_first)) (omega arith)
              (omega arith) (sym fi ∙ ei) (sym fj ∙ ej)
      ]
    ]

    vacant : (i : ℕ) → c'.num ≤ i → i < c'.capacity → c'.items i ≡ none
    vacant i lo hi =
        let e : c'.num ≡ suc c.num = s.counts in
        let e' : c'.capacity ≡ c.capacity = s.size in
        s.rest i (omega arith) (omega arith) ∙ v.vacant i (omega arith) (omega arith)

    pub Inserts-Lays : Lays c' first (suc (high c) - first)
    Inserts-Lays = record {
      positive = omega (arith, s.size, v.positive);
      place_of =
          rw (s.size, s.counts, s.moves)
            (elim s.first_of [
              | inl (p, e) ↦ omega (
                arith,
                slot-cases (c.cursor + 1) c.capacity (omega (arith, v.in_bounds, v.positive)),
                slot-cases first c.capacity (omega (arith, v.positive)),
              )
              | inr (f, e) ↦ omega (
                arith,
                v.in_bounds,
                ap (λ (j : ℕ). j % c.capacity) e,
                slot-cases (c.cursor + 1) c.capacity (omega (arith, v.in_bounds, v.positive)),
              )
            ]);
      present = λ i lo hi. present i lo (omega (arith, s.from_first, s.to_end));
      vacant = vacant;
      sorted = λ i j x y lo le hi. sorted i j x y lo le (omega (arith, s.from_first, s.to_end));
    }

    behind :
        window (at c') (suc (high c - pos)) (first + (pos - first))
        ≡ d ∷ window (at c) (high c - pos) pos
    behind =
        let e : first + (pos - first) ≡ pos = omega (arith, s.from_first) in
        rw (e, s.placed)
          (ap (λ xs. d ∷ xs)
            (window_ext (at c') (at c) (high c - pos) (pos + 1) pos
              λ k lt. ap (at c') (omega arith) ∙ s.moved (pos + k) (omega arith) (omega arith)))

    -- The points before `pos`, the new one, and the points behind.
    pub contents-Inserts :
        contents c' ≡ window (at c) (pos - first) first ++ d ∷ window (at c) (high c - pos) pos
    contents-Inserts =
        Lays-contents c' first (suc (high c) - first) Inserts-Lays
        ∙ window_split (at c') (pos - first) (suc (high c - pos)) (suc (high c) - first) first
            (omega (arith, s.from_first, s.to_end))
        ∙ ap₂ (λ xs ys. xs ++ ys)
            (window_ext (at c') (at c) (pos - first) first first
              λ k lt. s.kept (first + k) (omega arith) (omega arith))
            behind
