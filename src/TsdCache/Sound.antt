-- ===== src/TsdCache/Sound.antt =====
-- What a query answers on a cache that is what a sequence of puts leaves of an empty one.
use app_autoscaler.Prelude.{
  ℕ, zero, suc, ◌<◌, ◌≡◌, refl, sym, ap, ◌∙◌, subst, ◌⊎◌, inl, inr, Bool, true, false, ◌&&◌, some,
  List, [], ◌∷◌, arith, Bool-cases, Holds, Holds-append_one, drop, some_inj,
}
use app_autoscaler.Prelude.Int.{ℤ, ◌<ℤ◌, leb_ℤ, ltb_ℤ}
use app_autoscaler.Models.{LabelMap}
use app_autoscaler.TsdCache.{Tsd, TsdCache, stamp, query}
use app_autoscaler.TsdCache.Spec.{contents, recent, place, is_latest, insert_before}
use app_autoscaler.TsdCache.Search.{IsRing}
use app_autoscaler.TsdCache.Order.{NotBefore, IsSorted, place-IsSorted}
use app_autoscaler.TsdCache.Query.{query_lem, select}
use app_autoscaler.TsdCache.History.{kept, put_all_new}
use app_autoscaler.TsdCache.Complete.{query_complete}
use app_autoscaler.TsdCache.Filled.{Filled}

zero_or : (n : ℕ) → (n ≡ 0) ⊎ (0 < n)
zero_or zero = inl refl
zero_or (suc n) = inr (omega arith)

module _ {A : Type 0} where
  Holds-drop : (n : ℕ) (d : A) (xs : List A) → Holds d (drop n xs) → Holds d xs
  Holds-drop zero d xs h = h
  Holds-drop (suc n) d [] h = h
  Holds-drop (suc n) d (x ∷ xs) h = inr (Holds-drop n d xs h)

module _ {A : Type 0} ⦃tsd : Tsd A⦄ where
  Holds-insert_before :
      (d y : A) (xs : List A) → Holds y (insert_before d xs) → (y ≡ d) ⊎ Holds y xs
  Holds-insert_before d y [] (inl e) = inl e
  Holds-insert_before d y [] (inr h) = elim h [ ]
  Holds-insert_before d y (x ∷ xs) h = elim (Bool-cases (leb_ℤ (stamp d) (stamp x))) [
    | inl e ↦ elim (rw e at h) [ inl q ↦ inl q | inr k ↦ inr k ]
    | inr e ↦ elim (rw e at h) [
      | inl q ↦ inr (inl q)
      | inr k ↦ elim (Holds-insert_before d y xs k) [ inl q ↦ inl q | inr g ↦ inr (inr g) ]
    ]
  ]

  Holds-place : (d y : A) (xs : List A) → Holds y (place d xs) → (y ≡ d) ⊎ Holds y xs
  Holds-place d y xs h = elim (Bool-cases (is_latest d xs)) [
    | inl e ↦ elim ((Holds-append_one y d xs).0 (rw e at h)) [ inl k ↦ inr k | inr q ↦ inl q ]
    | inr e ↦ Holds-insert_before d y xs (rw e at h)
  ]

  Holds-kept : (n : ℕ) (y : A) (xs ds : List A) → Holds y (kept n xs ds) → Holds y xs ⊎ Holds y ds
  Holds-kept n y xs [] h = inl h
  Holds-kept n y xs (d ∷ ds) h = elim (Holds-kept n y (recent n (place d xs)) ds h) [
    | inr g ↦ inr (inr g)
    | inl k ↦ elim (Holds-place d y xs (Holds-drop _ y (place d xs) k)) [
      | inl q ↦ inr (inl q)
      | inr g ↦ inl g
    ]
  ]

  IsSorted-drop : (n : ℕ) (xs : List A) → IsSorted xs → IsSorted (drop n xs)
  IsSorted-drop zero xs s = s
  IsSorted-drop (suc n) [] s = tt
  IsSorted-drop (suc n) (x ∷ xs) s = IsSorted-drop n xs s.1

  IsSorted-kept : (n : ℕ) (xs ds : List A) → IsSorted xs → IsSorted (kept n xs ds)
  IsSorted-kept n xs [] s = s
  IsSorted-kept n xs (d ∷ ds) s =
      IsSorted-kept n (recent n (place d xs)) ds
        (IsSorted-drop _ (place d xs) (place-IsSorted d xs s))

module _ {A : Type 0} ⦃tsd : Tsd A⦄ (start end : ℤ) (labels : LabelMap) where
  -- Whether a point is asked for.
  abbrev pub in_range : A → Bool
  in_range d = leb_ℤ start (stamp d) && ltb_ℤ (stamp d) end && tsd.has_labels d labels

  -- The points of a list that are asked for, in their order, except that it may miss some at the start.
  pub record Answers (ds found : List A) : Type 0 where
    pub sorted : IsSorted found
    pub only : (d : A) → Holds d found → Holds d ds × (in_range d ≡ true)
    pub all :
        (d : A)
        → Holds d ds
        → start <ℤ stamp d
        → stamp d <ℤ end
        → tsd.has_labels d labels ≡ true
        → Holds d found

  select-Holds :
      (d : A) (xs : List A)
      → Holds d (select start end labels xs)
      → Holds d xs × (in_range d ≡ true)
  select-Holds d [] h = elim h [ ]
  select-Holds d (x ∷ xs) h = elim (Bool-cases (in_range x)) [
    | inl e ↦ elim (rw e at h) [
      | inl q ↦ (inl q, subst (λ z. in_range z ≡ true) (sym q) e)
      | inr k ↦ let (g, r) = select-Holds d xs k in (inr g, r)
    ]
    | inr e ↦ let (g, r) = select-Holds d xs (rw e at h) in (inr g, r)
  ]

  NotBefore-select :
      (d : A) (xs : List A) → NotBefore d xs → NotBefore d (select start end labels xs)
  NotBefore-select d [] n = tt
  NotBefore-select d (x ∷ xs) n = elim (Bool-cases (in_range x)) [
    | inl e ↦ rw e (n.0, NotBefore-select d xs n.1)
    | inr e ↦ rw e (NotBefore-select d xs n.1)
  ]

  IsSorted-select : (xs : List A) → IsSorted xs → IsSorted (select start end labels xs)
  IsSorted-select [] s = tt
  IsSorted-select (x ∷ xs) s = elim (Bool-cases (in_range x)) [
    | inl e ↦ rw e (NotBefore-select x xs s.0, IsSorted-select xs s.1)
    | inr e ↦ rw e (IsSorted-select xs s.1)
  ]

  query_empty : (c : TsdCache A) → c.num ≡ 0 → query c start end labels ≡ some ([], false)
  unfolding query
  query_empty c z = ground arith

  -- A query never panics, and what it answers with a positive flag is what is asked for.
  pub query-Answers :
      (n : ℕ) (ds : List A) (c : TsdCache A)
      → Filled n ds c
      → (found : List A) × (hit : Bool) × (query c start end labels ≡ some (found, hit))
        × (hit ≡ true → Answers ds found)
  query-Answers n ds c f =
      let (c₁, e₁, v₁, _, k₁) = put_all_new n ds in
      let same : c₁ ≡ c = some_inj (sym e₁ ∙ f) in
      let v : IsRing c = subst IsRing same v₁ in
      let k : contents c ≡ kept (suc n) [] ds =
        subst (λ z. contents z ≡ kept (suc n) [] ds) same k₁ in
      elim (zero_or c.num) [
        | inl z ↦ ([], false, query_empty c z, λ h. ground arith)
        | inr p ↦
            let (oldest, rest, e, q) = query_lem start end labels c v p in
            (
              select start end labels (contents c),
              leb_ℤ (stamp oldest) start,
              q,
              λ h. record {
                sorted =
                    IsSorted-select (contents c)
                      (subst IsSorted (sym k) (IsSorted-kept (suc n) [] ds tt));
                only = λ d g.
                    let (g', r) = select-Holds d (contents c) g in
                    (
                      elim (Holds-kept (suc n) d [] ds (subst (Holds d) k g')) [
                        | inl a ↦ elim a [ ]
                        | inr b ↦ b
                      ],
                      r,
                    );
                all = λ d g lo hi l.
                    query_complete start end labels n ds c (select start end labels (contents c)) d
                      f (q ∙ ap (λ z. some (select start end labels (contents c), z)) h) g lo hi l;
              },
            )
      ]
