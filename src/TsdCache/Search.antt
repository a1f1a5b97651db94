-- ===== src/TsdCache/Search.antt =====
-- The well-formed rings, and the binary search over one.
use app_autoscaler.Prelude.{
  ℕ, zero, suc, ◌+◌, ◌-◌, ◌/◌, ◌%◌, ◌≤◌, ◌<◌, ◌≡◌, ◌⊎◌, inl, inr, true, none, some, arith, ltb,
  ltb→lt, Bool-cases,
}
use app_autoscaler.Prelude.Int.{ℤ, ◌≤ℤ◌, ◌<ℤ◌, leb_ℤ}
use native.Mathlib.Nat.{mod-eq_of_lt, mod-lt}
use app_autoscaler.TsdCache.{Tsd, TsdCache, at, is_some, stamp, low, high, search, binary_search}

module _ {A : Type 0} ⦃tsd : Tsd A⦄ where
  -- Until the ring has gone round once the data are the first `num` slots, and then all of them.
  pub record IsLaidOut (c : TsdCache A) : Type 0 where
    pub positive : 0 < c.capacity
    pub in_bounds : c.cursor < c.capacity
    pub partial : c.num < c.capacity → c.cursor ≡ c.num
    pub filled : (i : ℕ) → i < c.capacity → i < c.num → (x : A) × (c.items i ≡ some x)
    pub vacant : (i : ℕ) → c.num ≤ i → i < c.capacity → c.items i ≡ none

  -- In a well-formed ring the timestamps do not fall, from the cursor on if it has gone round.
  pub record IsRing (c : TsdCache A) : Type 0 where
    pub laid_out : IsLaidOut c
    pub open laid_out use *
    pub sorted :
        (i j : ℕ) (x y : A)
        → low c ≤ i
        → i ≤ j
        → j < high c
        → at c i ≡ some x
        → at c j ≡ some y
        → stamp x ≤ℤ stamp y

  pub record IsPartial (c : TsdCache A) : Type 0 where
    pub few : c.num < c.capacity
    pub next : c.cursor ≡ c.num
    pub open_slot : c.items c.cursor ≡ none
    pub starts : low c ≡ 0
    pub ends : high c ≡ c.num

  pub record IsFull (c : TsdCache A) : Type 0 where
    pub many : c.capacity ≤ c.num
    pub taken : is_some (c.items c.cursor) ≡ true
    pub starts : low c ≡ c.cursor
    pub ends : high c ≡ c.cursor + c.capacity

  pub IsLaidOut-cases : (c : TsdCache A) → IsLaidOut c → IsPartial c ⊎ IsFull c
  unfolding low high
  IsLaidOut-cases c v = elim (Bool-cases (ltb c.num c.capacity)) [
    | inl few ↦
        let next : c.cursor ≡ c.num = v.partial (ground arith) in
        let gap : c.items c.cursor ≡ none = v.vacant c.cursor (omega arith) v.in_bounds in
        inl (ground arith)
    | inr many ↦
        let (x, e) = v.filled c.cursor v.in_bounds (ground (arith, v.in_bounds)) in
        inr (ground arith)
  ]

  pub low-le-high : (c : TsdCache A) → IsRing c → low c ≤ high c
  low-le-high c v = elim (IsLaidOut-cases c v.laid_out) [
    | inl p ↦ omega arith
    | inr f ↦ omega arith
  ]

  -- Every position between the ends holds a point.
  pub IsRing-present :
      (c : TsdCache A) → IsRing c → (i : ℕ) → low c ≤ i → i < high c → (x : A) × (at c i ≡ some x)
  IsRing-present c v i lo hi = elim (IsLaidOut-cases c v.laid_out) [
    | inl p ↦
        let e : i % c.capacity ≡ i = mod-eq_of_lt (omega arith) in
        v.filled (i % c.capacity) (mod-lt i v.positive) (omega arith)
    | inr f ↦ v.filled (i % c.capacity) (mod-lt i v.positive) (omega (arith, mod-lt i v.positive))
  ]

  -- The position `p` splits the data at the time `t`.
  pub record Splits (c : TsdCache A) (t : ℤ) (lo hi p : ℕ) : Type 0 where
    pub above : lo ≤ p
    pub below : p ≤ hi
    pub before : (i : ℕ) (x : A) → lo ≤ i → i < p → at c i ≡ some x → stamp x <ℤ t
    pub after : (i : ℕ) (x : A) → p ≤ i → i < hi → at c i ≡ some x → t ≤ℤ stamp x

  module _ (c : TsdCache A) (v : IsRing c) (t : ℤ) where
    after_late :
        (m : ℕ) (d : A) (i : ℕ) (x : A)
        → at c m ≡ some d
        → t ≤ℤ stamp d
        → low c ≤ m
        → m ≤ i
        → i < high c
        → at c i ≡ some x
        → t ≤ℤ stamp x
    after_late m d i x e late lo le hi h = omega (arith, v.sorted m i d x lo le hi e h)

    before_early :
        (m : ℕ) (d : A) (i : ℕ) (x : A)
        → at c m ≡ some d
        → stamp d <ℤ t
        → m < high c
        → low c ≤ i
        → i ≤ m
        → at c i ≡ some x
        → stamp x <ℤ t
    before_early m d i x e early hi lo le h = omega (arith, v.sorted i m x d lo le hi h e)

    search-Splits :
        (fuel l r : ℕ)
        → r - l < fuel
        → low c ≤ l
        → l ≤ r
        → r ≤ high c
        → ((i : ℕ) (x : A) → low c ≤ i → i < l → at c i ≡ some x → stamp x <ℤ t)
        → ((i : ℕ) (x : A) → r ≤ i → i < high c → at c i ≡ some x → t ≤ℤ stamp x)
        → (p : ℕ) × (search c t fuel l r ≡ some p) × Splits c t (low c) (high c) p
    unfolding search
    search-Splits zero l r f b1 b2 b3 bef aft = absurd (omega arith)
    search-Splits (suc fuel) l r f b1 b2 b3 bef aft = elim (Bool-cases (ltb l r)) [
      | inr done ↦
          let e : r ≡ l = ground arith in
          (
            l,
            rw (done, search),
            record {
              above = b1;
              below = omega arith;
              before = bef;
              after = λ i x h. aft i x (omega arith);
            },
          )
      | inl more ↦
          let lt : l < r = ltb→lt l r more in
          let m : ℕ = l + (r - 1 - l) / 2 in
          let (d, e) = IsRing-present c v m (omega arith) (omega arith) in
          elim (Bool-cases (leb_ℤ t (stamp d))) [
            | inl late ↦
                let (p, found, split) =
                  search-Splits fuel l m (omega arith) b1 (omega arith) (omega arith) bef
                    (λ i x a b h. after_late m d i x e (ground arith) (omega arith) a b h) in
                (p, rw (more, search) (rw (e, search) (rw (late, search) found)), split)
            | inr early ↦
                let (p, found, split) =
                  search-Splits fuel (m + 1) r (omega arith) (omega arith) (omega arith) b3
                    (λ i x a b h.
                      before_early m d i x e (ground arith) (omega arith) a (omega arith) h)
                    aft in
                (p, rw (more, search) (rw (e, search) (rw (early, search) found)), split)
          ]
    ]

  -- On a well-formed ring with at least one point counted, the search ends and reads no empty slot. It
  -- finds the position such that every point before it is earlier than `t`, and every other is at `t`
  -- or later.
  pub binary_search-Splits :
      (c : TsdCache A) (t : ℤ)
      → IsRing c
      → 0 < c.num
      → (p : ℕ) × (binary_search c t ≡ some p) × Splits c t (low c) (high c) p
  unfolding binary_search
  binary_search-Splits c t v some_data =
      let (p, found, split) =
        search-Splits c v t (suc (high c - low c)) (low c) (high c) (omega arith) (omega arith)
          (low-le-high c v) (omega arith) (λ i x a b h. absurd (omega arith))
          (λ i x a b h. absurd (omega arith)) in
      (p, ground arith, split)
