-- ===== src/Envelopes/Counting.antt =====
-- Counts per instance.
use app_autoscaler.Prelude.{
  ℕ, String, ◌≡◌, ◌≢◌, refl, sym, ap, ◌∙◌, subst, ◌⊎◌, inl, inr, true, [], ◌∷◌, str_eq, ◌==◌,
  ==_iff, if◌then◌else◌, arith, Bool-cases, Holds, eq_iff,
}
use app_autoscaler.Prelude.Int.{ℤ, pos, ◌+ℤ◌, wrap64}
use app_autoscaler.Prelude.Dict.{Dict, lookup, lookup-insert}
use app_autoscaler.Http.Params.{is_not}
use app_autoscaler.Envelopes.{Counts, add_count, count_of, counts_or_none, add_to}

-- An instance that has no count, and counts with one for each instance.
abbrev pub Fresh : ℕ → Counts → Type 0
Fresh i [] = Unit {0}
Fresh i ((j, n) ∷ counts) = (i ≢ j) × Fresh i counts

abbrev pub Keyed : Counts → Type 0
Keyed [] = Unit {0}
Keyed ((j, n) ∷ counts) = Fresh j counts × Keyed counts

pub count_of-add_count :
    (i j : ℕ) (v : ℤ) (counts : Counts)
    → count_of j (add_count i v counts)
      ≡ (if i == j then wrap64 (count_of j counts +ℤ v) else count_of j counts)
unfolding count_of add_count
count_of-add_count i j v [] = ground arith
count_of-add_count i j v ((k, n) ∷ counts) =
    let below = count_of-add_count i j v counts in ground (arith, below)

Fresh-add_count :
    (k i : ℕ) (v : ℤ) (counts : Counts) → k ≢ i → Fresh k counts → Fresh k (add_count i v counts)
unfolding add_count
Fresh-add_count k i v [] ne f = (ne, tt)
Fresh-add_count k i v ((j, n) ∷ counts) ne f = elim (Bool-cases (j == i)) [
  | inl e ↦ rw e f
  | inr e ↦ rw e (f.0, Fresh-add_count k i v counts ne f.1)
]

pub add_count-Keyed :
    (i : ℕ) (v : ℤ) (counts : Counts) → Keyed counts → Keyed (add_count i v counts)
unfolding add_count
add_count-Keyed i v [] k = (tt, tt)
add_count-Keyed i v ((j, n) ∷ counts) k = elim (Bool-cases (j == i)) [
  | inl e ↦ rw e k
  | inr e ↦ rw e (
    Fresh-add_count j i v counts (λ h. is_not ((==_iff j i).1 h) e) k.0,
    add_count-Keyed i v counts k.1,
  )
]

-- The entries after an addition.
pub Holds-add_count :
    (i j : ℕ) (v n : ℤ) (counts : Counts)
    → Holds (j, n) (add_count i v counts)
    → (j ≡ i) ⊎ ((m : ℤ) × Holds (j, m) counts)
unfolding add_count
Holds-add_count i j v n [] (inl e) = inl (ap (λ z. z.0) e)
Holds-add_count i j v n [] (inr h) = elim h [ ]
Holds-add_count i j v n ((k, m) ∷ counts) h = elim (Bool-cases (k == i)) [
  | inl e ↦
      let h' : Holds (j, n) ((k, wrap64 (m +ℤ v)) ∷ counts) = rw e at h in
      elim h' [
        | inl here ↦ inl (ap (λ z. z.0) here ∙ (==_iff k i).0 e)
        | inr there ↦ inr (n, inr there)
      ]
  | inr e ↦
      let h' : Holds (j, n) ((k, m) ∷ add_count i v counts) = rw e at h in
      elim h' [
        | inl here ↦ inr (n, inl here)
        | inr there ↦ elim (Holds-add_count i j v n counts there) [
          | inl same ↦ inl same
          | inr (l, old) ↦ inr (l, inr old)
        ]
      ]
]

count_of-Fresh : (j : ℕ) (counts : Counts) → Fresh j counts → count_of j counts ≡ pos 0
unfolding count_of
count_of-Fresh j [] f = refl
count_of-Fresh j ((k, n) ∷ counts) f = elim (Bool-cases (k == j)) [
  | inl e ↦ absurd (f.0 (sym ((==_iff k j).0 e)))
  | inr e ↦ rw e (count_of-Fresh j counts f.1)
]

Fresh-Holds : (j : ℕ) (n : ℤ) (counts : Counts) → Fresh j counts → Holds (j, n) counts → ⊥
Fresh-Holds j n [] f h = h
Fresh-Holds j n ((k, m) ∷ counts) f (inl e) = f.0 (ap (λ z. z.0) e)
Fresh-Holds j n ((k, m) ∷ counts) f (inr h) = Fresh-Holds j n counts f.1 h

-- An entry has the count of its instance.
pub count_of-Holds :
    (j : ℕ) (n : ℤ) (counts : Counts) → Keyed counts → Holds (j, n) counts → count_of j counts ≡ n
unfolding count_of
count_of-Holds j n [] k h = elim h [ ]
count_of-Holds j n ((i, m) ∷ counts) k (inl e) =
    let q : (i == j) ≡ true = (==_iff i j).1 (ap (λ z. z.0) (sym e)) in rw q (ap (λ z. z.1) (sym e))
count_of-Holds j n ((i, m) ∷ counts) k (inr h) = elim (Bool-cases (i == j)) [
  | inl e ↦
      absurd
        (Fresh-Holds i n counts k.0 (subst (λ z. Holds (z, n) counts) (sym ((==_iff i j).0 e)) h))
  | inr e ↦ rw e (count_of-Holds j n counts k.1 h)
]

-- A count that is not 0 has an entry.
pub Holds-count_of :
    (j : ℕ) (n : ℤ) (counts : Counts) → count_of j counts ≡ n → n ≢ pos 0 → Holds (j, n) counts
unfolding count_of
Holds-count_of j n [] e ne = absurd (ne (sym e))
Holds-count_of j n ((k, m) ∷ counts) e ne = elim (Bool-cases (k == j)) [
  | inl q ↦
      let same : m ≡ n = rw q at e in
      inl (ap (λ z. (z, n)) (sym ((==_iff k j).0 q)) ∙ ap (λ z. (k, z)) (sym same))
  | inr q ↦ inr (Holds-count_of j n counts (rw q at e) ne)
]

-- The counts of an app.
abbrev pub counts_at : String → Dict Counts → Counts
counts_at app maps = counts_or_none (lookup app maps)

pub counts_at-add_to :
    (a app : String) (i : ℕ) (v : ℤ) (maps : Dict Counts)
    → counts_at app (add_to a i v maps)
      ≡ (if str_eq a app then add_count i v (counts_at app maps) else counts_at app maps)
counts_at-add_to a app i v maps = elim (Bool-cases (str_eq a app)) [
  | inl e ↦
      rw (lookup-insert a app (add_count i v (counts_at a maps)) maps, e)
        (ap (λ z. add_count i v (counts_at z maps)) ((eq_iff a app).0 e))
  | inr e ↦ rw (lookup-insert a app (add_count i v (counts_at a maps)) maps, e) refl
]
