-- ===== src/MetricDb/Distinct.antt =====
-- The order of the metrics of instances, and that the loop over the rows leaves one for each point.
use app_autoscaler.Prelude.{
  ◌<◌, ◌≡◌, refl, sym, ◌∙◌, subst, ◌⊎◌, inl, inr, true, false, List, [], ◌∷◌, arith, Bool-cases,
  Holds,
}
use app_autoscaler.Prelude.Int.{◌<ℤ◌, ltb_ℤ, eq_ℤ_iff}
use app_autoscaler.Models.{AppInstanceMetric}
use app_autoscaler.EngineDb.{OrderType, asc, desc}
use app_autoscaler.Tables.Sorted.{IsOrderedBy}
use app_autoscaler.MetricDb.{before_by_time, before_by_index, same_point, collapse_from, collapse}

-- A metric of an earlier time, or of a later one for DESC, or of the same time and a smaller index.
abbrev pub ComesBefore : OrderType → AppInstanceMetric → AppInstanceMetric → Type 0
ComesBefore asc x y =
    (x.timestamp <ℤ y.timestamp)
    ⊎ ((x.timestamp ≡ y.timestamp) × (x.instance_index < y.instance_index))
ComesBefore desc x y =
    (y.timestamp <ℤ x.timestamp)
    ⊎ ((x.timestamp ≡ y.timestamp) × (x.instance_index < y.instance_index))

abbrev pub ComesBeforeAll : OrderType → AppInstanceMetric → List AppInstanceMetric → Type 0
ComesBeforeAll o x [] = Unit {0}
ComesBeforeAll o x (y ∷ ys) = ComesBefore o x y × ComesBeforeAll o x ys

-- Every metric comes before those after it, so that there is one at most for a time and an index.
abbrev pub IsStrict : OrderType → List AppInstanceMetric → Type 0
IsStrict o [] = Unit {0}
IsStrict o (x ∷ xs) = ComesBeforeAll o x xs × IsStrict o xs

pub by_time_total :
    (o : OrderType) (x y : AppInstanceMetric)
    → before_by_time o x y ≡ false
    → before_by_time o y x ≡ true
by_time_total asc x y h = ground arith
by_time_total desc x y h = ground arith

pub by_time_trans :
    (o : OrderType) (x y z : AppInstanceMetric)
    → before_by_time o x y ≡ true
    → before_by_time o y z ≡ true
    → before_by_time o x z ≡ true
by_time_trans asc x y z h k = ground arith
by_time_trans desc x y z h k = ground arith

pub by_index_total :
    (o : OrderType) (x y : AppInstanceMetric)
    → before_by_index o x y ≡ false
    → before_by_index o y x ≡ true
by_index_total asc x y h = ground arith
by_index_total desc x y h = ground arith

pub by_index_trans :
    (o : OrderType) (x y z : AppInstanceMetric)
    → before_by_index o x y ≡ true
    → before_by_index o y z ≡ true
    → before_by_index o x z ≡ true
by_index_trans asc x y z h k = ground arith
by_index_trans desc x y z h k = ground arith

-- Rows of one instance in the order of time are in the order of time and index.
pub by_time_index :
    (o : OrderType) (x y : AppInstanceMetric)
    → x.instance_index ≡ y.instance_index
    → before_by_time o x y ≡ true
    → before_by_index o x y ≡ true
by_time_index asc x y e h = ground arith
by_time_index desc x y e h = ground arith

other_point :
    (o : OrderType) (x y : AppInstanceMetric)
    → before_by_index o x y ≡ true
    → same_point x y ≡ false
    → ComesBefore o x y
other_point asc x y h k = elim (Bool-cases (ltb_ℤ x.timestamp y.timestamp)) [
  | inl e ↦ inl (ground arith)
  | inr e ↦ inr ((eq_ℤ_iff x.timestamp y.timestamp).0 (ground arith), ground arith)
]
other_point desc x y h k = elim (Bool-cases (ltb_ℤ y.timestamp x.timestamp)) [
  | inl e ↦ inl (ground arith)
  | inr e ↦ inr ((eq_ℤ_iff x.timestamp y.timestamp).0 (ground arith), ground arith)
]

ComesBefore-trans :
    (o : OrderType) (x y z : AppInstanceMetric)
    → ComesBefore o x y
    → ComesBefore o y z
    → ComesBefore o x z
ComesBefore-trans asc x y z (inl h) (inl k) = inl (omega arith)
ComesBefore-trans asc x y z (inl h) (inr (e, k)) = inl (subst (λ w. x.timestamp <ℤ w) e h)
ComesBefore-trans asc x y z (inr (e, h)) (inl k) = inl (subst (λ w. w <ℤ z.timestamp) (sym e) k)
ComesBefore-trans asc x y z (inr (e, h)) (inr (d, k)) = inr (e ∙ d, omega arith)
ComesBefore-trans desc x y z (inl h) (inl k) = inl (omega arith)
ComesBefore-trans desc x y z (inl h) (inr (e, k)) = inl (subst (λ w. w <ℤ x.timestamp) e h)
ComesBefore-trans desc x y z (inr (e, h)) (inl k) = inl (subst (λ w. z.timestamp <ℤ w) (sym e) k)
ComesBefore-trans desc x y z (inr (e, h)) (inr (d, k)) = inr (e ∙ d, omega arith)

ComesBeforeAll-trans :
    (o : OrderType) (x y : AppInstanceMetric) (zs : List AppInstanceMetric)
    → ComesBefore o x y
    → ComesBeforeAll o y zs
    → ComesBeforeAll o x zs
ComesBeforeAll-trans o x y [] h k = tt
ComesBeforeAll-trans o x y (z ∷ zs) h k =
    (ComesBefore-trans o x y z h k.0, ComesBeforeAll-trans o x y zs h k.1)

collapse_from-IsStrict :
    (o : OrderType) (last : AppInstanceMetric) (xs : List AppInstanceMetric)
    → IsOrderedBy (before_by_index o) (last ∷ xs)
    → ComesBeforeAll o last (collapse_from last xs) × IsStrict o (collapse_from last xs)
collapse_from-IsStrict o last [] s = (tt, tt)
collapse_from-IsStrict o last (x ∷ xs) s = elim (Bool-cases (same_point last x)) [
  | inl e ↦ rw (collapse_from, e) (collapse_from-IsStrict o last xs (s.0.1, s.1.1))
  | inr e ↦
      let below = collapse_from-IsStrict o x xs s.1 in
      let first = other_point o last x s.0.0 e in
      rw (collapse_from, e)
        ((first, ComesBeforeAll-trans o last x (collapse_from x xs) first below.0), below)
]

pub collapse-IsStrict :
    (o : OrderType) (xs : List AppInstanceMetric)
    → IsOrderedBy (before_by_index o) xs
    → IsStrict o (collapse xs)
collapse-IsStrict o [] s = tt
collapse-IsStrict o (x ∷ xs) s = collapse_from-IsStrict o x xs s

collapse_from-Holds :
    (d last : AppInstanceMetric) (xs : List AppInstanceMetric)
    → Holds d (collapse_from last xs)
    → Holds d xs
collapse_from-Holds d last [] h = h
collapse_from-Holds d last (x ∷ xs) h = elim (Bool-cases (same_point last x)) [
  | inl e ↦ inr (collapse_from-Holds d last xs (rw (Holds, collapse_from, e) at h))
  | inr e ↦ elim (rw (Holds, collapse_from, e) at h) [
    | inl q ↦ inl q
    | inr k ↦ inr (collapse_from-Holds d x xs k)
  ]
]

pub collapse-Holds :
    (d : AppInstanceMetric) (xs : List AppInstanceMetric) → Holds d (collapse xs) → Holds d xs
collapse-Holds d [] h = h
collapse-Holds d (x ∷ xs) (inl e) = inl e
collapse-Holds d (x ∷ xs) (inr h) = inr (collapse_from-Holds d x xs h)

-- A metric of the time and the instance of another.
abbrev pub OfPoint : AppInstanceMetric → AppInstanceMetric → Type 0
OfPoint d m = (m.timestamp ≡ d.timestamp) × (m.instance_index ≡ d.instance_index)

same_point-OfPoint : (last d : AppInstanceMetric) → same_point last d ≡ true → OfPoint d last
same_point-OfPoint last d h =
    (sym ((eq_ℤ_iff d.timestamp last.timestamp).0 (ground arith)), ground arith)

collapse_from_finds :
    (d last : AppInstanceMetric) (xs : List AppInstanceMetric)
    → Holds d xs
    → OfPoint d last ⊎ ((m : AppInstanceMetric) × Holds m (collapse_from last xs) × OfPoint d m)
collapse_from_finds d last [] h = elim h [ ]
collapse_from_finds d last (x ∷ xs) h = elim (Bool-cases (same_point last x)) [
  | inl e ↦ elim h [
    | inl q ↦ inl (same_point-OfPoint last d (subst (λ z. same_point last z ≡ true) (sym q) e))
    | inr k ↦ rw (collapse_from, e) (collapse_from_finds d last xs k)
  ]
  | inr e ↦
      rw (collapse_from, e)
        (inr (elim h [
          | inl q ↦ (
            x,
            inl refl,
            (
              subst (λ z. z.timestamp ≡ d.timestamp) q refl,
              subst (λ z. z.instance_index ≡ d.instance_index) q refl,
            ),
          )
          | inr k ↦ elim (collapse_from_finds d x xs k) [
            | inl p ↦ (x, inl refl, p)
            | inr (m, g, p) ↦ (m, inr g, p)
          ]
        ]))
]

pub collapse_finds :
    (d : AppInstanceMetric) (xs : List AppInstanceMetric)
    → Holds d xs
    → (m : AppInstanceMetric) × Holds m (collapse xs) × OfPoint d m
collapse_finds d [] h = elim h [ ]
collapse_finds d (x ∷ xs) (inl q) = (
  x,
  inl refl,
  (
    subst (λ z. z.timestamp ≡ d.timestamp) q refl,
    subst (λ z. z.instance_index ≡ d.instance_index) q refl,
  ),
)
collapse_finds d (x ∷ xs) (inr h) = elim (collapse_from_finds d x xs h) [
  | inl p ↦ (x, inl refl, p)
  | inr (m, g, p) ↦ (m, inr g, p)
]
