-- ===== src/Tables/Sorted.antt =====
-- Conditions and orders on rows.
use app_autoscaler.Prelude.{
  ◌≡◌, sym, subst, inl, inr, ◌↔◌, Bool, true, false, List, [], ◌∷◌, arith, Bool-cases, Holds,
}
use app_autoscaler.Tables.{filter_rows, place_row, sort_rows}

module _ {A : Type 0} where
  pub Holds-filter_rows :
      (p : A → Bool) (a : A) (xs : List A)
      → Holds a (filter_rows p xs) ↔ (Holds a xs × (p a ≡ true))
  Holds-filter_rows p a [] = (λ k. absurd k, λ k. k.0)
  Holds-filter_rows p a (x ∷ xs) =
      let below = Holds-filter_rows p a xs in
      elim (Bool-cases (p x)) [
        | inl e ↦ rw e (
          elim [
            | inl same ↦ (inl same, subst (λ z. p z ≡ true) (sym same) e)
            | inr k ↦ let (held, t) = below.0 k in (inr held, t)
          ],
          λ k. elim k.0 [ inl same ↦ inl same | inr held ↦ inr (below.1 (held, k.1)) ],
        )
        | inr e ↦ rw e (
          λ k. let (held, t) = below.0 k in (inr held, t),
          λ k. elim k.0 [
            | inl same ↦ let t = subst (λ z. p z ≡ true) same k.1 in ground arith
            | inr held ↦ below.1 (held, k.1)
          ],
        )
      ]

module _ {A : Type 0} (le : A → A → Bool) where
  abbrev pub BeforeAll : A → List A → Type 0
  BeforeAll a [] = Unit {0}
  BeforeAll a (x ∷ xs) = (le a x ≡ true) × BeforeAll a xs

  abbrev pub IsOrderedBy : List A → Type 0
  IsOrderedBy [] = Unit {0}
  IsOrderedBy (x ∷ xs) = BeforeAll x xs × IsOrderedBy xs

  pub Holds-place_row : (a b : A) (xs : List A) → Holds a (place_row le b xs) ↔ Holds a (b ∷ xs)
  Holds-place_row a b [] = (λ k. k, λ k. k)
  Holds-place_row a b (y ∷ ys) = elim (Bool-cases (le b y)) [
    | inl e ↦ rw e (λ k. k, λ k. k)
    | inr e ↦ rw e (
      elim [
        | inl same ↦ inr (inl same)
        | inr k ↦ elim ((Holds-place_row a b ys).0 k) [
          | inl same ↦ inl same
          | inr held ↦ inr (inr held)
        ]
      ],
      elim [
        | inl same ↦ inr ((Holds-place_row a b ys).1 (inl same))
        | inr (inl same) ↦ inl same
        | inr (inr held) ↦ inr ((Holds-place_row a b ys).1 (inr held))
      ],
    )
  ]

  pub Holds-sort_rows : (a : A) (xs : List A) → Holds a (sort_rows le xs) ↔ Holds a xs
  Holds-sort_rows a [] = (λ k. k, λ k. k)
  Holds-sort_rows a (x ∷ xs) =
      let (there, back) = Holds-place_row a x (sort_rows le xs) in
      let below = Holds-sort_rows a xs in
      (
        λ k. elim (there k) [ inl same ↦ inl same | inr held ↦ inr (below.0 held) ],
        elim [ inl same ↦ back (inl same) | inr held ↦ back (inr (below.1 held)) ],
      )

  module _ (total : (a b : A) → le a b ≡ false → le b a ≡ true)
      (trans : (a b c : A) → le a b ≡ true → le b c ≡ true → le a c ≡ true) where
    BeforeAll-trans : (a b : A) (xs : List A) → le a b ≡ true → BeforeAll b xs → BeforeAll a xs
    BeforeAll-trans a b [] h k = tt
    BeforeAll-trans a b (x ∷ xs) h k = (trans a b x h k.0, BeforeAll-trans a b xs h k.1)

    BeforeAll-place_row :
        (a b : A) (xs : List A) → le a b ≡ true → BeforeAll a xs → BeforeAll a (place_row le b xs)
    BeforeAll-place_row a b [] h k = (h, tt)
    BeforeAll-place_row a b (x ∷ xs) h k = elim (Bool-cases (le b x)) [
      | inl e ↦ rw e (h, k)
      | inr e ↦ rw e (k.0, BeforeAll-place_row a b xs h k.1)
    ]

    place_row-IsOrderedBy : (b : A) (xs : List A) → IsOrderedBy xs → IsOrderedBy (place_row le b xs)
    place_row-IsOrderedBy b [] s = (tt, tt)
    place_row-IsOrderedBy b (x ∷ xs) s = elim (Bool-cases (le b x)) [
      | inl e ↦ rw e ((e, BeforeAll-trans b x xs e s.0), s)
      | inr e ↦ rw e (BeforeAll-place_row x b xs (total b x e) s.0, place_row-IsOrderedBy b xs s.1)
    ]

    pub sort_rows-IsOrderedBy : (xs : List A) → IsOrderedBy (sort_rows le xs)
    sort_rows-IsOrderedBy [] = tt
    sort_rows-IsOrderedBy (x ∷ xs) =
        place_row-IsOrderedBy x (sort_rows le xs) (sort_rows-IsOrderedBy xs)
