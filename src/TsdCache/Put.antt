-- ===== src/TsdCache/Put.antt =====
-- `Put` keeps a ring well formed and does what the specification says.
use app_autoscaler.Prelude.{
  ℕ, suc, ◌+◌, ◌-◌, ◌%◌, ◌≤◌, ◌<◌, ◌≡◌, refl, ap, sym, ◌∙◌, ◌⊎◌, inl, inr, ◌≢◌, Option, some, arith,
}
use app_autoscaler.Prelude.Int.{◌≤ℤ◌}
use app_autoscaler.TsdCache.{Tsd, TsdCache, at, stamp, low, high, store, shift_in, update, shift}
use app_autoscaler.TsdCache.Window.{slot-cases, slot_ne, shift_kept, shift_moved}
use app_autoscaler.TsdCache.Search.{IsRing, IsPartial, IsFull, IsLaidOut-cases, Splits}
use app_autoscaler.TsdCache.Insert.{Inserts}

module _ {A : Type 0} ⦃tsd : Tsd A⦄ where
  -- The position where the oldest point that stays stands.
  abbrev pub First : TsdCache A → ℕ → Type 0
  First c first = (IsPartial c × (first ≡ 0)) ⊎ (IsFull c × (first ≡ c.cursor + 1))

  pub First-exists : (c : TsdCache A) → IsRing c → (first : ℕ) × First c first × (first ≤ high c)
  First-exists c v = elim (IsLaidOut-cases c v.laid_out) [
    | inl p ↦ (0, inl (p, refl), omega arith)
    | inr f ↦ (c.cursor + 1, inr (f, refl), omega (arith, v.positive))
  ]

  -- The slot of the cursor is that of the position behind the last point.
  pub high_slot : (c : TsdCache A) → IsRing c → high c % c.capacity ≡ c.cursor
  high_slot c v = elim (IsLaidOut-cases c v.laid_out) [
    | inl p ↦
        omega (arith, slot-cases (high c) c.capacity (omega (arith, v.in_bounds)), v.in_bounds)
    | inr f ↦
        omega (arith, slot-cases (high c) c.capacity (omega (arith, v.in_bounds)), v.in_bounds)
  ]

  -- Positions of the new ring other than the last are less than a round before it.
  First-near :
      (c : TsdCache A) (first : ℕ)
      → IsRing c
      → First c first
      → (high c < first + c.capacity) × (high c < c.capacity + c.capacity)
  First-near c first v (inl (p, e)) = omega (arith, v.in_bounds)
  First-near c first v (inr (f, e)) = omega (arith, v.in_bounds)

  slot_apart :
      (c : TsdCache A) (first i j : ℕ)
      → IsRing c
      → First c first
      → first ≤ i
      → i < j
      → j ≤ high c
      → (i % c.capacity) ≢ (j % c.capacity)
  slot_apart c first i j v f lo lt hi =
      slot_ne i j c.capacity lt (omega (arith, First-near c first v f))
        (omega (arith, First-near c first v f))

  update_self : (f : ℕ → Option A) (i j : ℕ) (o : Option A) → j ≡ i → update f i o j ≡ o
  update_self f i j o e = ground arith

  update_ne : (f : ℕ → Option A) (i j : ℕ) (o : Option A) → j ≢ i → update f i o j ≡ f j
  update_ne f i j o h = ground arith

  -- No slot behind the data of a ring that is not full belongs to a position of the new ring.
  slot_free :
      (c : TsdCache A) (first i s : ℕ)
      → IsRing c
      → First c first
      → i ≤ high c
      → suc c.num ≤ s
      → s < c.capacity
      → s ≢ i % c.capacity
  slot_free c first i s v (inl (p, e)) hi lo lt h =
      omega (arith, slot-cases i c.capacity (omega arith))
  slot_free c first i s v (inr (f, e)) hi lo lt h = omega arith

  pub store-Inserts :
      (c : TsdCache A) (d : A) (first : ℕ)
      → IsRing c
      → First c first
      → first ≤ high c
      → ((i : ℕ) (x : A) → low c ≤ i → i < high c → at c i ≡ some x → stamp x ≤ℤ stamp d)
      → Inserts c (store c d) d first (high c)
  unfolding store
  store-Inserts c d first v f to earlier = record {
    size = refl;
    counts = refl;
    moves = refl;
    first_of = f;
    from_first = to;
    to_end = omega arith;
    kept = λ i lo lt.
        update_ne c.items c.cursor (i % c.capacity) (some d)
          (λ e. slot_apart c first i (high c) v f lo lt (omega arith) (e ∙ sym (high_slot c v)));
    placed = update_self c.items c.cursor (high c % c.capacity) (some d) (high_slot c v);
    moved = λ i lo lt. absurd (omega arith);
    rest = λ s lo lt.
        update_ne c.items c.cursor s (some d)
          (λ e. slot_free c first (high c) s v f (omega arith) lo lt (e ∙ sym (high_slot c v)));
    earlier = earlier;
    later = λ i x lo hi e. absurd (omega arith);
  }

  pub shift_in-Inserts :
      (c : TsdCache A) (d : A) (first pos : ℕ)
      → IsRing c
      → First c first
      → first ≤ pos
      → pos < high c
      → Splits c (stamp d) (low c) (high c) pos
      → Inserts c (shift_in c d pos) d first pos
  unfolding shift_in high
  shift_in-Inserts c d first pos v f from to split =
      let w : ℕ = c.capacity in
      let n : ℕ = high c - pos in
      record {
        size = refl;
        counts = refl;
        moves = refl;
        first_of = f;
        from_first = from;
        to_end = omega arith;
        kept = λ i lo lt.
            update_ne (shift w n pos c.items) (pos % w) (i % w) (some d)
              (slot_apart c first i pos v f lo lt (omega arith))
            ∙ shift_kept w n pos (i % w) c.items
                (λ k near. slot_apart c first i (pos + suc k) v f lo (omega arith) (omega arith));
        placed = update_self (shift w n pos c.items) (pos % w) (pos % w) (some d) refl;
        moved = λ i lo lt.
            update_ne (shift w n pos c.items) (pos % w) (suc i % w) (some d)
              (λ e. slot_apart c first pos (suc i) v f from (omega arith) lt (sym e))
            ∙ ap (λ (j : ℕ). shift w n pos c.items (j % w)) (omega arith)
            ∙ shift_moved w n pos (i - pos) c.items (omega (arith, First-near c first v f))
                (omega (arith, First-near c first v f)) (omega arith)
            ∙ ap (at c) (omega arith);
        rest = λ s lo lt.
            update_ne (shift w n pos c.items) (pos % w) s (some d)
              (slot_free c first pos s v f (omega arith) lo lt)
            ∙ shift_kept w n pos s c.items
                (λ k near. slot_free c first (pos + suc k) s v f (omega arith) lo lt);
        earlier = λ i x lo lt e. omega (arith, split.before i x lo lt e);
        later = split.after;
      }
