-- ===== src/TsdCache/Query.antt =====
-- `Query` is a filter of the points in order, and its flag compares the oldest with the start.
use mathlib.Core.List.{append-nil}
use native.Mathlib.Decide.{dec_lt}
use app_autoscaler.Prelude.{
  ℕ, zero, suc, ◌+◌, ◌-◌, ◌≤◌, ◌<◌, ◌≡◌, refl, ap, sym, ◌∙◌, ◌⊎◌, inl, inr, false, ◌&&◌, Option,
  some, List, [], ◌∷◌, ◌++◌, arith, Option-cases, ltb, ◌==◌, if◌then◌else◌,
}
use app_autoscaler.Prelude.Int.{ℤ, ◌≤ℤ◌, ◌<ℤ◌, leb_ℤ, ltb_ℤ}
use app_autoscaler.Models.{LabelMap}
use app_autoscaler.TsdCache.{Tsd, TsdCache, at, stamp, low, high, collect, query}
use app_autoscaler.TsdCache.Window.{slot-cases, window, window_split}
use app_autoscaler.TsdCache.Search.{
  IsRing, IsRing-present, IsLaidOut-cases, low-le-high, Splits, binary_search-Splits,
}
use app_autoscaler.TsdCache.Spec.{contents}
use app_autoscaler.TsdCache.Around.{contents_split, window_first, low-lt-high}

module _ {A : Type 0} ⦃tsd : Tsd A⦄ (start end : ℤ) (labels : LabelMap) where
  -- The points with the labels, of those at `start` or later and before `end`.
  abbrev pub select : List A → List A
  select [] = []
  select (x ∷ xs) =
      if leb_ℤ start (stamp x) && ltb_ℤ (stamp x) end && tsd.has_labels x labels
      then x ∷ select xs
      else select xs

  select-append : (xs ys : List A) → select (xs ++ ys) ≡ select xs ++ select ys
  select-append [] ys = refl
  select-append (x ∷ xs) ys = ground (arith, select-append xs ys)

  select_none :
      (f : ℕ → Option A) (n i : ℕ)
      → ((k : ℕ) (x : A) → i ≤ k → k < i + n → f k ≡ some x → (stamp x <ℤ start) ⊎ (end ≤ℤ stamp x))
      → select (window f n i) ≡ []
  select_none f zero i h = refl
  select_none f (suc n) i h =
      let rest = select_none f n (i + 1) (λ k x lo hi. h k x (omega arith) (omega arith)) in
      elim (Option-cases (f i)) [
        | inl e ↦ rw e rest
        | inr (x, e) ↦ rw e (ground (arith, h i x (omega arith) (omega arith) e, rest))
      ]

  -- The loop of `Query`, over positions whose points all lie in the range.
  collect-select :
      (c : TsdCache A) (n i : ℕ)
      → ((k : ℕ)
          → i ≤ k
          → k < i + n
          → (x : A) × (at c k ≡ some x) × (start ≤ℤ stamp x) × (stamp x <ℤ end))
      → collect c labels n i ≡ some (select (window (at c) n i))
  unfolding collect
  collect-select c zero i h = refl
  collect-select c (suc n) i h =
      let rest = collect-select c n (i + 1) (λ k lo hi. h k (omega arith) (omega arith)) in
      let (x, e, from, to) = h i (omega arith) (omega arith) in rw e (rw rest (ground arith))

  module _ (c : TsdCache A) (v : IsRing c) where
    -- Nothing before `from` or from `to` on is in the range.
    select-between :
        (from to : ℕ)
        → Splits c start (low c) (high c) from
        → Splits c end (low c) (high c) to
        → from ≤ to
        → select (contents c) ≡ select (window (at c) (to - from) from)
    select-between from to f t le =
        let before =
          select_none (at c) (from - low c) (low c)
            (λ k x lo hi h. inl (f.before k x lo (omega (arith, f.above)) h)) in
        let behind =
          select_none (at c) (high c - to) (from + (to - from))
            (λ k x lo hi h. inr (t.after k x (omega arith) (omega (arith, t.below)) h)) in
        ap select (contents_split c v from f.above f.below)
        ∙ select-append (window (at c) (from - low c) (low c)) (window (at c) (high c - from) from)
        ∙ rw before (
            ap select (
              window_split (at c) (to - from) (high c - to) (high c - from) from
                (omega (arith, t.below)))
            ∙ select-append (window (at c) (to - from) from)
                (window (at c) (high c - to) (from + (to - from)))
            ∙ rw behind (append-nil _))

    collect-Splits :
        (from to : ℕ)
        → Splits c start (low c) (high c) from
        → Splits c end (low c) (high c) to
        → collect c labels (to - from) from ≡ some (select (contents c))
    unfolding contents collect
    collect-Splits from to f t = elim (dec_lt to from) [
      | yes crossed ↦
          let gap : to - from ≡ 0 = omega arith in
          let nothing = select_none (at c) (high c - low c) (low c) (λ k x lo hi h.
            elim (dec_lt k from) [
              | yes lt ↦ inl (f.before k x lo lt h)
              | no ge ↦ inr (t.after k x (omega arith) (omega (arith, low-le-high c v)) h)
            ]) in
          rw (gap, nothing)
      | no ordered ↦
          collect-select c (to - from) from (λ k lo hi.
            let (x, e) = IsRing-present c v k (omega (arith, f.above)) (omega (arith, t.below)) in
            (
              x,
              e,
              f.after k x lo (omega (arith, t.below)) e,
              t.before k x (omega (arith, f.above)) (omega arith) e,
            ))
          ∙ ap some (sym (select-between from to f t (omega arith)))
    ]

    oldest_slot : c.items (if ltb c.num c.capacity then 0 else c.cursor) ≡ at c (low c)
    oldest_slot = ap c.items (elim (IsLaidOut-cases c v.laid_out) [
      | inl p ↦ let s = slot-cases (low c) c.capacity (omega (arith, v.in_bounds)) in ground arith
      | inr f ↦
          let b = v.in_bounds in let s = slot-cases (low c) c.capacity (omega arith) in ground arith
    ])

    -- On a well-formed ring with at least one point counted, `Query` returns without reading an empty
    -- slot: exactly the points of the range that have the labels, in order, and whether the oldest
    -- point that the ring holds is at the start or before it.
    pub query_lem :
        0 < c.num
        → (oldest : A) × (rest : List A) × (contents c ≡ oldest ∷ rest)
          × (query c start end labels ≡ some (select (contents c), leb_ℤ (stamp oldest) start))
    unfolding query contents
    query_lem h =
        let (from, found, f) = binary_search-Splits c start v h in
        let (to, found', t) = binary_search-Splits c end v h in
        let b = low-lt-high c v h in
        let (x, e) = IsRing-present c v (low c) (omega arith) b in
        let z : (c.num == 0) ≡ false = ground arith in
        (
          x,
          window (at c) (high c - low c - 1) (low c + 1),
          window_first (at c) x (high c - low c) (high c - low c - 1) (low c) e (omega arith),
          rw (z, found, found', collect-Splits from to f t, oldest_slot, e),
        )
