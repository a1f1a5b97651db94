-- ===== src/EngineDb/Retrieve.antt =====
-- The histories that a query returns.
use app_autoscaler.Prelude.{
  String, ◌≡◌, refl, ap, sym, ◌∙◌, subst, Bool, true, false, not, ◌||◌, ◌⊎◌, inl, inr, ◌↔◌, List,
  [], ◌∷◌, if◌then◌else◌, arith, Bool-cases, Holds, List-cases,
}
use app_autoscaler.Prelude.Int.{ℤ, pos, ◌≤ℤ◌, ltb_ℤ}
use app_autoscaler.Models.{ok, AppScalingHistory}
use app_autoscaler.EngineDb.{
  EngineDb, no_faults, OrderType, asc, desc, comes_first, place_row, order_by, filter_rows,
  is_ignored, in_range, retrieve_scaling_histories,
}

-- The order that the query asks for.
abbrev pub Precedes : OrderType → AppScalingHistory → AppScalingHistory → Type 0
Precedes asc x y = x.timestamp ≤ℤ y.timestamp
Precedes desc x y = y.timestamp ≤ℤ x.timestamp

abbrev pub PrecedesAll : OrderType → AppScalingHistory → List AppScalingHistory → Type 0
PrecedesAll o x [] = Unit {0}
PrecedesAll o x (y ∷ ys) = Precedes o x y × PrecedesAll o x ys

abbrev pub IsOrdered : OrderType → List AppScalingHistory → Type 0
IsOrdered o [] = Unit {0}
IsOrdered o (x ∷ xs) = PrecedesAll o x xs × IsOrdered o xs

comes_first-cases :
    (o : OrderType) (x y : AppScalingHistory)
    → ((comes_first o x y ≡ true) × Precedes o x y) ⊎ ((comes_first o x y ≡ false) × Precedes o y x)
comes_first-cases asc x y = ground arith
comes_first-cases desc x y = ground arith

Precedes-trans :
    (o : OrderType) (x y z : AppScalingHistory) → Precedes o x y → Precedes o y z → Precedes o x z
Precedes-trans asc x y z h k = omega arith
Precedes-trans desc x y z h k = omega arith

PrecedesAll-trans :
    (o : OrderType) (x y : AppScalingHistory) (zs : List AppScalingHistory)
    → Precedes o x y
    → PrecedesAll o y zs
    → PrecedesAll o x zs
PrecedesAll-trans o x y [] h k = tt
PrecedesAll-trans o x y (z ∷ zs) h k =
    (Precedes-trans o x y z h k.0, PrecedesAll-trans o x y zs h k.1)

PrecedesAll-place_row :
    (o : OrderType) (x h : AppScalingHistory) (ys : List AppScalingHistory)
    → Precedes o x h
    → PrecedesAll o x ys
    → PrecedesAll o x (place_row o h ys)
PrecedesAll-place_row o x h [] p q = (p, tt)
PrecedesAll-place_row o x h (y ∷ ys) p q = elim (Bool-cases (comes_first o h y)) [
  | inl e ↦ rw e (p, q)
  | inr e ↦ rw e (q.0, PrecedesAll-place_row o x h ys p q.1)
]

place_row-IsOrdered :
    (o : OrderType) (h : AppScalingHistory) (ys : List AppScalingHistory)
    → IsOrdered o ys
    → IsOrdered o (place_row o h ys)
place_row-IsOrdered o h [] s = (tt, tt)
place_row-IsOrdered o h (y ∷ ys) s = elim (comes_first-cases o h y) [
  | inl (e, p) ↦ rw e ((p, PrecedesAll-trans o h y ys p s.0), s)
  | inr (e, p) ↦ rw e (PrecedesAll-place_row o y h ys p s.0, place_row-IsOrdered o h ys s.1)
]

order_by-IsOrdered : (o : OrderType) (xs : List AppScalingHistory) → IsOrdered o (order_by o xs)
order_by-IsOrdered o [] = tt
order_by-IsOrdered o (x ∷ xs) = place_row-IsOrdered o x (order_by o xs) (order_by-IsOrdered o xs)

PrecedesAll-filter_rows :
    (o : OrderType) (p : AppScalingHistory → Bool) (x : AppScalingHistory)
    (ys : List AppScalingHistory)
    → PrecedesAll o x ys
    → PrecedesAll o x (filter_rows p ys)
PrecedesAll-filter_rows o p x [] k = tt
PrecedesAll-filter_rows o p x (y ∷ ys) k = elim (Bool-cases (p y)) [
  | inl e ↦ rw e (k.0, PrecedesAll-filter_rows o p x ys k.1)
  | inr e ↦ rw e (PrecedesAll-filter_rows o p x ys k.1)
]

filter_rows-IsOrdered :
    (o : OrderType) (p : AppScalingHistory → Bool) (xs : List AppScalingHistory)
    → IsOrdered o xs
    → IsOrdered o (filter_rows p xs)
filter_rows-IsOrdered o p [] s = tt
filter_rows-IsOrdered o p (x ∷ xs) s = elim (Bool-cases (p x)) [
  | inl e ↦ rw e (PrecedesAll-filter_rows o p x xs s.0, filter_rows-IsOrdered o p xs s.1)
  | inr e ↦ rw e (filter_rows-IsOrdered o p xs s.1)
]

Holds-filter_rows :
    (p : AppScalingHistory → Bool) (h : AppScalingHistory) (xs : List AppScalingHistory)
    → Holds h (filter_rows p xs) ↔ (Holds h xs × (p h ≡ true))
Holds-filter_rows p h [] = (λ k. absurd k, λ k. k.0)
Holds-filter_rows p h (x ∷ xs) = elim (Bool-cases (p x)) [
  | inl e ↦ rw e (
    elim [
      | inl same ↦ (inl same, subst (λ z. p z ≡ true) (sym same) e)
      | inr k ↦ let (held, t) = (Holds-filter_rows p h xs).0 k in (inr held, t)
    ],
    λ k. elim k.0 [
      | inl same ↦ inl same
      | inr held ↦ inr ((Holds-filter_rows p h xs).1 (held, k.1))
    ],
  )
  | inr e ↦ rw e (
    λ k. let (held, t) = (Holds-filter_rows p h xs).0 k in (inr held, t),
    λ k. elim k.0 [
      | inl same ↦ absurd (true≢false (sym k.1 ∙ ap p same ∙ e))
      | inr held ↦ (Holds-filter_rows p h xs).1 (held, k.1)
    ],
  )
]
  where
    true≢false : true ≡ false → ⊥
    true≢false e = ground arith

Holds-place_row :
    (o : OrderType) (h x : AppScalingHistory) (xs : List AppScalingHistory)
    → Holds h (place_row o x xs) ↔ Holds h (x ∷ xs)
Holds-place_row o h x [] = (λ k. k, λ k. k)
Holds-place_row o h x (y ∷ ys) = elim (Bool-cases (comes_first o x y)) [
  | inl e ↦ rw e (λ k. k, λ k. k)
  | inr e ↦ rw e (
    elim [
      | inl same ↦ inr (inl same)
      | inr k ↦ elim ((Holds-place_row o h x ys).0 k) [
        | inl same ↦ inl same
        | inr held ↦ inr (inr held)
      ]
    ],
    elim [
      | inl same ↦ inr ((Holds-place_row o h x ys).1 (inl same))
      | inr (inl same) ↦ inl same
      | inr (inr held) ↦ inr ((Holds-place_row o h x ys).1 (inr held))
    ],
  )
]

Holds-order_by :
    (o : OrderType) (h : AppScalingHistory) (xs : List AppScalingHistory)
    → Holds h (order_by o xs) ↔ Holds h xs
Holds-order_by o h [] = (λ k. k, λ k. k)
Holds-order_by o h (x ∷ xs) =
    let (there, back) = Holds-place_row o h x (order_by o xs) in
    (
      λ k. elim (there k) [ inl same ↦ inl same | inr held ↦ inr ((Holds-order_by o h xs).0 held) ],
      elim [ inl same ↦ back (inl same) | inr held ↦ back (inr ((Holds-order_by o h xs).1 held)) ],
    )

-- If no statement fails, `RetrieveScalingHistories` returns rows in the order asked for, and a row is among
-- them exactly if the table holds it, it is of the app, its timestamp is between the start and the
-- end (the present time for a negative end), and it is not an ignored one, unless all are asked for.
pub retrieve_lem :
    (now : ℤ) (app : String) (start end : ℤ) (o : OrderType) (include_all : Bool) (db : EngineDb)
    → (rows : List AppScalingHistory) × (retrieve_scaling_histories no_faults now app start end o
          include_all db
        ≡ ok rows)
      × IsOrdered o rows
      × ((h : AppScalingHistory)
          → Holds h rows ↔ (
              Holds h db.histories
              × (in_range app start (if ltb_ℤ end (pos 0) then now else end) h ≡ true)
              × ((include_all || not (is_ignored h)) ≡ true)))
unfolding retrieve_scaling_histories
retrieve_lem now app start end o include_all db =
    let last = if ltb_ℤ end (pos 0) then now else end in
    let wanted : AppScalingHistory → Bool = λ h. include_all || not (is_ignored h) in
    let rows = order_by o (filter_rows (in_range app start last) db.histories) in
    (
      filter_rows wanted rows,
      elim (List-cases rows) [
        | inl e ↦ rw (retrieve_scaling_histories, e) refl
        | inr (x, ys, e) ↦ rw (retrieve_scaling_histories, e) refl
      ],
      filter_rows-IsOrdered o wanted rows
          (order_by-IsOrdered o (filter_rows (in_range app start last) db.histories)),
      λ h. (
        λ k.
            let (held, t) = (Holds-filter_rows wanted h rows).0 k in
            let (stored, u) =
              (Holds-filter_rows (in_range app start last) h db.histories).0 (
                (Holds-order_by o h (filter_rows (in_range app start last) db.histories)).0 held) in
            (stored, u, t),
        λ k. (Holds-filter_rows wanted h rows).1 (
          (Holds-order_by o h (filter_rows (in_range app start last) db.histories)).1
              ((Holds-filter_rows (in_range app start last) h db.histories).1 (k.0, k.1)),
          k.2,
        ),
      ),
    )
