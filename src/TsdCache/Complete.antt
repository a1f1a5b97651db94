-- ===== src/TsdCache/Complete.antt =====
-- What a positive flag of `Query` promises of the points put before.
use native.Mathlib.Decide.{dec_lt}
use app_autoscaler.Prelude.{
  ℕ, suc, ◌-◌, ◌≤◌, ◌<◌, ◌≡◌, ap, sym, ◌∙◌, subst, ◌⊎◌, inl, inr, true, some_inj, Holds, some, List,
  [], ◌∷◌, arith, Bool-cases, length, ◌&&◌, leb→le,
}
use app_autoscaler.Prelude.Int.{ℤ, ◌≤ℤ◌, ◌<ℤ◌, leb_ℤ, ltb_ℤ}
use app_autoscaler.Models.{LabelMap}
use app_autoscaler.TsdCache.{Tsd, TsdCache, stamp, query, new_tsd_cache, ◌>>=◌}
use app_autoscaler.TsdCache.Search.{IsRing}
use app_autoscaler.TsdCache.Spec.{contents, recent, place}
use app_autoscaler.TsdCache.Query.{select, query_lem}
use app_autoscaler.TsdCache.Order.{
  IsSorted, NotBefore, length-place, place-IsSorted, place-Holds, place_keeps, place_first,
}
use app_autoscaler.TsdCache.History.{put_all, put_all_new, kept}

module _ {A : Type 0} ⦃tsd : Tsd A⦄ where
  abbrev NotLater : A → List A → Type 0
  NotLater d [] = Unit {0}
  NotLater d (x ∷ xs) = stamp d ≤ℤ stamp x

  -- A point that was put is kept, or the list is full and begins no earlier.
  abbrev Accounted : ℕ → A → List A → Type 0
  Accounted n d xs = Holds d xs ⊎ ((length xs ≡ n) × NotLater d xs)

  NotLater-next : (d x : A) (xs : List A) → stamp d ≤ℤ stamp x → NotBefore x xs → NotLater d xs
  NotLater-next d x [] h n = tt
  NotLater-next d x (y ∷ xs) h n = omega arith

  -- Giving up the first of a full list in order.
  drop_accounts :
      (n : ℕ) (x y : A) (zs : List A)
      → IsSorted (y ∷ zs)
      → length zs ≡ n
      → Holds x (y ∷ zs)
      → Accounted n x zs
  drop_accounts n x y zs s l (inl e) =
      inr (l, subst (λ z. NotLater z zs) (sym e) (NotLater-next y y zs (omega arith) s.0))
  drop_accounts n x y zs s l (inr h) = inl h

  pub record Steps (n : ℕ) (d : A) (xs zs : List A) : Type 0 where
    pub in_order : IsSorted zs
    pub fits : length zs ≤ n
    pub new_one : Accounted n d zs
    pub old_ones : (x : A) → Accounted n x xs → Accounted n x zs

  recent_room :
      (n : ℕ) (d : A) (xs : List A)
      → IsSorted xs
      → length xs < n
      → Steps n d xs (recent n (place d xs))
  recent_room n d xs s lt =
      let e : length (place d xs) - n ≡ 0 = omega (arith, length-place d xs) in
      rw e (record {
        in_order = place-IsSorted d xs s;
        fits = omega (arith, length-place d xs);
        new_one = inl (place-Holds d xs);
        old_ones = λ x a. inl (place_keeps d x xs (held x a));
      })
    where
      held : (x : A) → Accounted n x xs → Holds x xs
      held x (inl h) = h
      held x (inr (full, _)) = absurd (omega arith)

  recent_full :
      (n : ℕ) (d x₀ : A) (xs : List A)
      → IsSorted (x₀ ∷ xs)
      → length (x₀ ∷ xs) ≡ n
      → Steps n d (x₀ ∷ xs) (recent n (place d (x₀ ∷ xs)))
  recent_full n d x₀ xs s l =
      let e : length (place d (x₀ ∷ xs)) - n ≡ 1 = omega (arith, length-place d (x₀ ∷ xs)) in
      rw e
        (elim (place_first d x₀ xs) [ inl (ys, p) ↦ rw p (moved ys p) | inr p ↦ rw p (refused p) ])
    where
      ordered : IsSorted (place d (x₀ ∷ xs))
      ordered = place-IsSorted d (x₀ ∷ xs) s

      moved : (ys : List A) → place d (x₀ ∷ xs) ≡ x₀ ∷ ys → Steps n d (x₀ ∷ xs) ys
      moved ys p =
          let s' : IsSorted (x₀ ∷ ys) = subst IsSorted p ordered in
          let l' : length ys ≡ n = omega (arith, ap length p, length-place d (x₀ ∷ xs)) in
          let old : (x : A) → Accounted n x (x₀ ∷ xs) → Accounted n x ys = λ x. elim [
            | inl h ↦
                drop_accounts n x x₀ ys s' l' (subst (Holds x) p (place_keeps d x (x₀ ∷ xs) h))
            | inr (_, before) ↦ inr (l', NotLater-next x x₀ ys before s'.0)
          ] in
          record {
            in_order = s'.1;
            fits = omega arith;
            new_one = drop_accounts n d x₀ ys s' l' (subst (Holds d) p (place-Holds d (x₀ ∷ xs)));
            old_ones = old;
          }

      refused : place d (x₀ ∷ xs) ≡ d ∷ x₀ ∷ xs → Steps n d (x₀ ∷ xs) (x₀ ∷ xs)
      refused p =
          let s' : IsSorted (d ∷ x₀ ∷ xs) = subst IsSorted p ordered in
          record {
            in_order = s;
            fits = omega arith;
            new_one = inr (l, s'.0.0);
            old_ones = λ x a. a;
          }

  -- One call of `Put`, on the specification with room for at least one point.
  put-Steps :
      (m : ℕ) (d : A) (xs : List A)
      → IsSorted xs
      → length xs ≤ suc m
      → Steps (suc m) d xs (recent (suc m) (place d xs))
  put-Steps m d [] s h = recent_room (suc m) d [] s (omega arith)
  put-Steps m d (x ∷ xs) s h = elim (dec_lt (length (x ∷ xs)) (suc m)) [
    | yes lt ↦ recent_room (suc m) d (x ∷ xs) s lt
    | no ge ↦ recent_full (suc m) d x xs s (omega arith)
  ]

  kept_accounts :
      (m : ℕ) (ds xs : List A) (x : A)
      → IsSorted xs
      → length xs ≤ suc m
      → Accounted (suc m) x xs ⊎ Holds x ds
      → Accounted (suc m) x (kept (suc m) xs ds)
  kept_accounts m [] xs x s h (inl a) = a
  kept_accounts m [] xs x s h (inr no_one) = absurd no_one
  kept_accounts m (d ∷ ds) xs x s h a =
      let st = put-Steps m d xs s h in
      kept_accounts m ds (recent (suc m) (place d xs)) x st.in_order st.fits (now st a)
    where
      now :
          Steps (suc m) d xs (recent (suc m) (place d xs))
          → Accounted (suc m) x xs ⊎ Holds x (d ∷ ds)
          → Accounted (suc m) x (recent (suc m) (place d xs)) ⊎ Holds x ds
      now st (inl a) = inl (st.old_ones x a)
      now st (inr (inl e)) =
          inl (subst (λ z. Accounted (suc m) z (recent (suc m) (place d xs))) (sym e) st.new_one)
      now st (inr (inr h)) = inr h

  -- The points stay in order, and never more than the capacity.
  pub kept-IsSorted :
      (m : ℕ) (ds xs : List A)
      → IsSorted xs
      → length xs ≤ suc m
      → IsSorted (kept (suc m) xs ds) × (length (kept (suc m) xs ds) ≤ suc m)
  kept-IsSorted m [] xs s h = (s, h)
  kept-IsSorted m (d ∷ ds) xs s h =
      let st = put-Steps m d xs s h in
      kept-IsSorted m ds (recent (suc m) (place d xs)) st.in_order st.fits

  module _ (start end : ℤ) (labels : LabelMap) where
    Holds-select :
        (d : A) (xs : List A)
        → start ≤ℤ stamp d
        → stamp d <ℤ end
        → tsd.has_labels d labels ≡ true
        → Holds d xs
        → Holds d (select start end labels xs)
    Holds-select d [] lo hi l h = absurd h
    Holds-select d (x ∷ xs) lo hi l (inl e) =
        let test : (leb_ℤ start (stamp x) && ltb_ℤ (stamp x) end && tsd.has_labels x labels)
            ≡ true =
          subst
            (λ z. (leb_ℤ start (stamp z) && ltb_ℤ (stamp z) end && tsd.has_labels z labels) ≡ true)
            e (ground arith) in
        rw test (inl e)
    Holds-select d (x ∷ xs) lo hi l (inr h) =
        elim (Bool-cases
          (leb_ℤ start (stamp x) && ltb_ℤ (stamp x) end && tsd.has_labels x labels)) [
            | inl taken ↦ rw taken (inr (Holds-select d xs lo hi l h))
            | inr left_out ↦ rw left_out (Holds-select d xs lo hi l h)
          ]

    Holds-positive : (d : A) (ds : List A) → Holds d ds → 0 < length ds
    Holds-positive d [] h = absurd h
    Holds-positive d (x ∷ xs) h = omega arith

    -- Take the cache of a capacity above 0 that any sequence of puts leaves of the empty one. If
    -- `Query` on it answers with a positive flag, then its result has every point that was ever put,
    -- has the labels, and lies strictly after the start and before the end.
    pub query_complete :
        (n : ℕ) (ds : List A) (c : TsdCache A) (result : List A) (d : A)
        → ((new_tsd_cache (suc n) >>= λ c₀. put_all c₀ ds) ≡ some c)
        → query c start end labels ≡ some (result, true)
        → Holds d ds
        → start <ℤ stamp d
        → stamp d <ℤ end
        → tsd.has_labels d labels ≡ true
        → Holds d result
    query_complete n ds c result d e q given lo hi l =
        let (c₁, e₁, v₁, counts₁, keeps₁) = put_all_new n ds in
        let same : c₁ ≡ c = some_inj (sym e₁ ∙ e) in
        let v : IsRing c = subst IsRing same v₁ in
        let counts : c.num ≡ length ds = subst (λ z. z.num ≡ length ds) same counts₁ in
        let keeps : contents c ≡ kept (suc n) [] ds =
          subst (λ z. contents z ≡ kept (suc n) [] ds) same keeps₁ in
        let filled : 0 < c.num = omega (arith, Holds-positive d ds given) in
        let (oldest, rest, first, answer) = query_lem start end labels c v filled in
        let pair : (select start end labels (contents c), leb_ℤ (stamp oldest) start)
            ≡ (result, true) =
          some_inj (sym answer ∙ q) in
        let flag : leb_ℤ (stamp oldest) start ≡ true = ap (λ p. p.1) pair in
        let accounted : Accounted (suc n) d (contents c) =
          subst (Accounted (suc n) d) (sym keeps)
            (kept_accounts n ds [] d tt (omega arith) (inr given)) in
        subst (Holds d) (ap (λ p. p.0) pair) (elim accounted [
          | inl h ↦ Holds-select d (contents c) (omega arith) hi l h
          | inr (_, early) ↦ absurd (lost oldest flag (subst (NotLater d) first early))
        ])
      where
        lost : (oldest : A) → leb_ℤ (stamp oldest) start ≡ true → stamp d ≤ℤ stamp oldest → ⊥
        lost oldest f le = let g : stamp oldest ≤ℤ start = leb→le _ _ f in omega arith
