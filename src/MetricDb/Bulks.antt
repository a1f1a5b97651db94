-- ===== src/MetricDb/Bulks.antt =====
-- Bulks of metrics that are saved one after the other.
use app_autoscaler.Prelude.{
  ◌≡◌, refl, sym, ap, subst, ◌⊎◌, inl, inr, ◌↔◌, false, not, List, [], ◌∷◌, ◌++◌, Holds,
  Holds-append,
}
use app_autoscaler.Models.{AppInstanceMetric}
use app_autoscaler.Tables.{Table, no_copy_faults, filter_rows, copy_rows}
use app_autoscaler.MetricDb.{save_metrics_in_bulk}

-- Bulks that are saved one after the other.
abbrev pub save_bulks :
    List (List AppInstanceMetric) → Table AppInstanceMetric → Table AppInstanceMetric
save_bulks [] t = t
save_bulks (ms ∷ bulks) t = save_bulks bulks (save_metrics_in_bulk no_copy_faults ms t).0

-- Whether a metric is in one of the bulks, or was stored before.
abbrev pub Saved :
    AppInstanceMetric → List (List AppInstanceMetric) → Table AppInstanceMetric → Type 0
Saved m [] t = Holds m t.rows
Saved m (ms ∷ bulks) t = Holds m ms ⊎ Saved m bulks t

keep_all : {A : Type 0} (xs : List A) → filter_rows (λ a. not false) xs ≡ xs
keep_all [] = refl
keep_all (x ∷ xs) = ap (λ z. x ∷ z) (keep_all xs)

copy_lem :
    (ms : List AppInstanceMetric) (t : Table AppInstanceMetric)
    → (save_metrics_in_bulk no_copy_faults ms t).0.rows ≡ t.rows ++ ms
unfolding copy_rows
copy_lem ms t = ap (λ z. t.rows ++ z) (keep_all ms)

Saved-weaken :
    (m : AppInstanceMetric) (bulks : List (List AppInstanceMetric)) (t t' : Table AppInstanceMetric)
    → (Holds m t.rows → Holds m t'.rows)
    → Saved m bulks t
    → Saved m bulks t'
Saved-weaken m [] t t' f h = f h
Saved-weaken m (ms ∷ bulks) t t' f (inl h) = inl h
Saved-weaken m (ms ∷ bulks) t t' f (inr h) = inr (Saved-weaken m bulks t t' f h)

pub save_bulks-Saved :
    (m : AppInstanceMetric) (bulks : List (List AppInstanceMetric)) (t : Table AppInstanceMetric)
    → Holds m (save_bulks bulks t).rows ↔ Saved m bulks t
save_bulks-Saved m [] t = (λ h. h, λ h. h)
save_bulks-Saved m (ms ∷ bulks) t =
    let t' = (save_metrics_in_bulk no_copy_faults ms t).0 in
    let below = save_bulks-Saved m bulks t' in
    let parts = Holds-append m t.rows ms in
    (
      λ h. from_copy m ms bulks t (below.0 h),
      elim [
        | inl h ↦
            below.1
              (saved_first m bulks t' (subst (Holds m) (sym (copy_lem ms t)) (parts.1 (inr h))))
        | inr h ↦ below.1 (
            Saved-weaken m bulks t t' (λ k. subst (Holds m) (sym (copy_lem ms t)) (parts.1 (inl k)))
              h)
      ],
    )
  where
    saved_first :
        (m : AppInstanceMetric) (bulks : List (List AppInstanceMetric))
        (t : Table AppInstanceMetric)
        → Holds m t.rows
        → Saved m bulks t
    saved_first m [] t h = h
    saved_first m (ms ∷ bulks) t h = inr (saved_first m bulks t h)

    from_copy :
        (m : AppInstanceMetric) (ms : List AppInstanceMetric)
        (bulks : List (List AppInstanceMetric)) (t : Table AppInstanceMetric)
        → Saved m bulks (save_metrics_in_bulk no_copy_faults ms t).0
        → Holds m ms ⊎ Saved m bulks t
    from_copy m ms [] t h =
        elim ((Holds-append m t.rows ms).0 (subst (Holds m) (copy_lem ms t) h)) [
          | inl k ↦ inr k
          | inr k ↦ inl k
        ]
    from_copy m ms (b ∷ bulks) t (inl h) = inr (inl h)
    from_copy m ms (b ∷ bulks) t (inr h) = elim (from_copy m ms bulks t h) [
      | inl k ↦ inl k
      | inr k ↦ inr (inr k)
    ]
