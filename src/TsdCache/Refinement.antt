-- ===== src/TsdCache/Refinement.antt =====
-- `Put` refines the specification: the points kept are the latest ones, in order.
use app_autoscaler.Prelude.{
  ℕ, suc, ◌+◌, ◌-◌, ◌%◌, ◌≤◌, ◌<◌, ◌≡◌, refl, ap, sym, ◌∙◌, inl, inr, true, false, some, ◌∷◌, ◌++◌,
  arith, length, Bool-cases, leb→le, ◌==◌, ◌&&◌,
}
use native.Mathlib.Decide.{ℕ_discrete, dec_lt}
use app_autoscaler.Prelude.Int.{◌≤ℤ◌, ◌<ℤ◌, leb_ℤ}
use app_autoscaler.TsdCache.{
  Tsd, TsdCache, at, is_some, stamp, low, high, counted, store, insert_at, shift_in, put,
}
use app_autoscaler.TsdCache.Window.{slot-cases, window}
use app_autoscaler.TsdCache.Search.{
  IsRing, IsRing-present, IsFull, IsLaidOut-cases, Splits, binary_search-Splits,
}
use app_autoscaler.TsdCache.Spec.{
  contents, recent, is_latest, insert_before, place, is_latest-append, insert_before-append,
}
use app_autoscaler.TsdCache.Layout.{Lays-IsRing}
use app_autoscaler.TsdCache.Insert.{Inserts, Inserts-Lays, contents-Inserts}
use app_autoscaler.TsdCache.Around.{
  window_first, Earlier-window, contents_split, recent_around, length-contents, low-lt-high,
  no_positions, no_contents,
}
use app_autoscaler.TsdCache.Put.{First, First-exists, store-Inserts, shift_in-Inserts}

module _ {A : Type 0} ⦃tsd : Tsd A⦄ where
  module _ (c : TsdCache A) (v : IsRing c) where
    -- The conclusion about a cache `c'` that `Put` leaves behind.
    pub record Puts (d : A) (c' : TsdCache A) : Type 0 where
      pub ring : IsRing c'
      pub size : c'.capacity ≡ c.capacity
      pub counts : c'.num ≡ suc c.num
      pub keeps : contents c' ≡ recent c.capacity (place d (contents c))

    Inserts-Puts :
        (d : A) (c' : TsdCache A) (first pos : ℕ)
        → Inserts c c' d first pos
        → First c first
        → (place d (contents c)
            ≡ window (at c) (pos - low c) (low c) ++ d ∷ window (at c) (high c - pos) pos)
        → Puts d c'
    Inserts-Puts d c' first pos s f e = record {
      ring = Lays-IsRing c' first (suc (high c) - first) (Inserts-Lays c c' d first pos v s);
      size = s.size;
      counts = s.counts;
      keeps =
          contents-Inserts c c' d first pos v s
          ∙ sym (recent_around c v d first pos f s.from_first s.to_end)
          ∙ ap (recent c.capacity) (sym e);
    }

    store-Puts :
        (d : A)
        → is_latest d (contents c) ≡ true
        → ((i : ℕ) (x : A) → low c ≤ i → i < high c → at c i ≡ some x → stamp x ≤ℤ stamp d)
        → Puts d (store c d)
    unfolding contents
    store-Puts d latest earlier =
        let (first, f, to) = First-exists c v in
        Inserts-Puts d (store c d) first (high c) (store-Inserts c d first v f to earlier) f
          (let none_behind : high c - high c ≡ 0 = omega arith in rw (latest, none_behind))

    last_slot : 0 < c.num → c.items ((c.cursor + c.capacity - 1) % c.capacity) ≡ at c (high c - 1)
    last_slot h = ap c.items (elim (IsLaidOut-cases c v.laid_out) [
      | inl p ↦ omega (
        arith,
        v.in_bounds,
        slot-cases (c.cursor + c.capacity - 1) c.capacity (omega (arith, v.in_bounds)),
        slot-cases (high c - 1) c.capacity (omega (arith, v.in_bounds)),
      )
      | inr f ↦ ap (λ (i : ℕ). i % c.capacity) (omega arith)
    ])

    is_latest-contents :
        (d last : A)
        → low c < high c
        → at c (high c - 1) ≡ some last
        → is_latest d (contents c) ≡ leb_ℤ (stamp last) (stamp d)
    is_latest-contents d last h e =
        ap (is_latest d) (contents_split c v (high c - 1) (omega arith) (omega arith))
        ∙ rw (window_first (at c) last (high c - (high c - 1)) 0 (high c - 1) e (omega arith))
            (is_latest-append d last (window (at c) (high c - 1 - low c) (low c)))

    -- Where the search for a place ends: at the end of the data only if the point is the latest.
    Splits-inside :
        (d last : A) (pos : ℕ)
        → low c < high c
        → at c (high c - 1) ≡ some last
        → stamp d <ℤ stamp last
        → Splits c (stamp d) (low c) (high c) pos
        → pos < high c
    Splits-inside d last pos some_data e late s = elim (dec_lt pos (high c)) [
      | yes lt ↦ lt
      | no ge ↦
          absurd
            (omega (arith, s.before (high c - 1) last (omega arith) (omega (arith, s.below)) e))
    ]

    place_inside :
        (d : A) (pos : ℕ)
        → is_latest d (contents c) ≡ false
        → pos < high c
        → Splits c (stamp d) (low c) (high c) pos
        → place d (contents c)
          ≡ window (at c) (pos - low c) (low c) ++ d ∷ window (at c) (high c - pos) pos
    place_inside d pos late inside s =
        let (y, e) = IsRing-present c v pos s.above inside in
        let ys = window_first (at c) y (high c - pos) (high c - pos - 1) pos e (omega arith) in
        rw late (
          ap (insert_before d) (contents_split c v pos s.above s.below)
          ∙ rw ys (
              insert_before-append d y (window (at c) (pos - low c) (low c))
                (window (at c) (high c - pos - 1) (pos + 1))
                (Earlier-window (at c) d (pos - low c) (low c)
                  (λ k x lo hi h. s.before k x lo (omega (arith, s.above)) h))
                (s.after pos y (omega arith) inside e)))

    -- A point as old as the oldest of a full ring is counted and given up.
    dropped_keeps :
        (d : A) (pos : ℕ)
        → IsFull c
        → pos ≡ low c
        → place d (contents c)
          ≡ window (at c) (pos - low c) (low c) ++ d ∷ window (at c) (high c - pos) pos
        → contents c ≡ recent c.capacity (place d (contents c))
    unfolding contents
    dropped_keeps d pos f at_low e =
        let none_before : low c - low c ≡ 0 = omega arith in
        let e' : place d (contents c) ≡ d ∷ contents c =
          e
          ∙ ap (λ (i : ℕ). window (at c) (i - low c) (low c) ++ d ∷ window (at c) (high c - i) i)
              at_low
          ∙ rw none_before in
        let over : suc (length (contents c)) - c.capacity ≡ 1 =
          omega (arith, length-contents c v) in
        sym (ap (recent c.capacity) e' ∙ rw over)

    counted-IsRing : IsFull c → IsRing (counted c)
    unfolding low high
    counted-IsRing f = record {
      laid_out = record {
        positive = v.positive;
        in_bounds = v.in_bounds;
        partial = λ h. absurd (omega arith);
        filled = λ i lt _. v.filled i lt (omega arith);
        vacant = λ i lo lt. absurd (omega arith);
      };
      sorted = v.sorted;
    }

    dropped-Puts :
        (d : A) (pos : ℕ)
        → IsFull c
        → pos ≡ c.cursor
        → pos < high c
        → is_latest d (contents c) ≡ false
        → Splits c (stamp d) (low c) (high c) pos
        → Puts d (counted c)
    unfolding contents low high
    dropped-Puts d pos f first inside late s = record {
      ring = counted-IsRing f;
      size = refl;
      counts = refl;
      keeps = dropped_keeps d pos f (omega arith) (place_inside d pos late inside s);
    }

    insert_at-Puts :
        (d : A) (pos : ℕ)
        → pos < high c
        → is_latest d (contents c) ≡ false
        → Splits c (stamp d) (low c) (high c) pos
        → Puts d (insert_at c d pos)
    unfolding insert_at
    insert_at-Puts d pos inside late s = elim (IsLaidOut-cases c v.laid_out) [
      | inl p ↦
          let t : (pos == c.cursor && is_some (c.items c.cursor)) ≡ false = ground arith in
          rw t (inside_Puts 0 (inl (p, refl)) (omega arith))
      | inr f ↦ elim (ℕ_discrete pos c.cursor) [
        | yes e ↦
            let t : (pos == c.cursor && is_some (c.items c.cursor)) ≡ true = ground arith in
            rw t (dropped-Puts d pos f e inside late s)
        | no ne ↦
            let t : (pos == c.cursor && is_some (c.items c.cursor)) ≡ false = ground arith in
            rw t (inside_Puts (c.cursor + 1) (inr (f, refl)) (omega (arith, s.above)))
      ]
    ]
      where
        inside_Puts : (first : ℕ) → First c first → first ≤ pos → Puts d (shift_in c d pos)
        inside_Puts first f from =
            Inserts-Puts d (shift_in c d pos) first pos
              (shift_in-Inserts c d first pos v f from inside s) f
              (place_inside d pos late inside s)

    -- On a well-formed ring `Put` returns, without reading an empty slot. It leaves a well-formed ring of
    -- the same capacity, which counts one point more, and whose points in order are the latest of
    -- those that there were with the new one put in its place, as many as the capacity allows.
    pub put-Puts : (d : A) → (c' : TsdCache A) × (put c d ≡ some c') × Puts d c'
    unfolding put
    put-Puts d = elim (Bool-cases (c.num == 0)) [
      | inl none_yet ↦
          let n : c.num ≡ 0 = ground arith in
          (
            store c d,
            rw none_yet,
            store-Puts d (ap (is_latest d) (no_contents c v n))
                (λ i x lo hi h. absurd (omega (arith, no_positions c v n))),
          )
      | inr some_data ↦
          let n : 0 < c.num = ground arith in
          let b : low c < high c = low-lt-high c v n in
          let (last, e) = IsRing-present c v (high c - 1) (omega arith) (omega arith) in
          let l = is_latest-contents d last b e in
          elim (Bool-cases (leb_ℤ (stamp last) (stamp d))) [
            | inl latest ↦ (
              store c d,
              rw (some_data, last_slot n, e, latest),
              store-Puts d (l ∙ latest) (λ i x lo hi h. omega (
                arith,
                leb→le _ _ latest,
                v.sorted i (high c - 1) x last lo (omega arith) (omega arith) h e,
              )),
            )
            | inr late ↦
                let (pos, found, s) = binary_search-Splits c (stamp d) v n in
                let later : stamp d <ℤ stamp last = ground arith in
                (
                  insert_at c d pos,
                  rw (some_data, last_slot n, e, late, found),
                  insert_at-Puts d pos (Splits-inside d last pos b e later s) (l ∙ late) s,
                )
          ]
    ]
