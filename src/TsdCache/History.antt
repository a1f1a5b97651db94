-- ===== src/TsdCache/History.antt =====
-- A cache after any sequence of puts, from the empty one.
use app_autoscaler.Prelude.{
  ℕ, suc, ◌+◌, ◌≡◌, refl, ap, ◌∙◌, Option, none, some, List, [], ◌∷◌, arith, length,
}
use app_autoscaler.TsdCache.{Tsd, TsdCache, low, high, put, new_tsd_cache, ◌>>=◌}
use app_autoscaler.TsdCache.Search.{IsRing}
use app_autoscaler.TsdCache.Spec.{contents, recent, place}
use app_autoscaler.TsdCache.Around.{no_contents}
use app_autoscaler.TsdCache.Refinement.{put-Puts}

module _ {A : Type 0} ⦃tsd : Tsd A⦄ where
  -- A sequence of calls of `Put`, the first in front.
  abbrev pub put_all : TsdCache A → List A → Option (TsdCache A)
  put_all c [] = some c
  put_all c (d ∷ ds) = put c d >>= λ c'. put_all c' ds

  -- What the specification keeps of the same sequence.
  abbrev pub kept : ℕ → List A → List A → List A
  kept n xs [] = xs
  kept n xs (d ∷ ds) = kept n (recent n (place d xs)) ds

  empty : ℕ → TsdCache A
  empty n = record { items = λ i. none; capacity = suc n; cursor = 0; num = 0 }

  empty-IsRing : (n : ℕ) → IsRing (empty n)
  unfolding empty low high
  empty-IsRing n = record {
    laid_out = record {
      positive = omega arith;
      in_bounds = omega arith;
      partial = λ h. refl;
      filled = λ i lt few. absurd (omega arith);
      vacant = λ i lo lt. refl;
    };
    sorted = λ i j x y lo le hi ei ej. absurd (omega arith);
  }

  put_all_lem :
      (c : TsdCache A) (ds : List A)
      → IsRing c
      → (c' : TsdCache A) × (put_all c ds ≡ some c')
        × IsRing c'
        × (c'.capacity ≡ c.capacity)
        × (c'.num ≡ c.num + length ds)
        × (contents c' ≡ kept c.capacity (contents c) ds)
  put_all_lem c [] v = (c, refl, v, refl, omega arith, refl)
  put_all_lem c (d ∷ ds) v =
      let (c₁, e, p) = put-Puts c v d in
      let (c', e', v', size, counts, keeps) = put_all_lem c₁ ds p.ring in
      let total : c'.num ≡ c.num + suc (length ds) = omega (arith, p.counts) in
      let same : kept c₁.capacity (contents c₁) ds
          ≡ kept c.capacity (recent c.capacity (place d (contents c))) ds =
        rw (p.size, p.keeps) in
      (c', rw e e', v', size ∙ p.size, total, keeps ∙ same)

  -- From the empty cache of a capacity above 0, every sequence of puts goes through without a panic.
  -- The cache that it leaves is a well-formed ring, counts every point, and holds what the specification
  -- on lists keeps of the sequence.
  pub put_all_new :
      (n : ℕ) (ds : List A)
      → (c : TsdCache A) × ((new_tsd_cache (suc n) >>= λ c₀. put_all c₀ ds) ≡ some c)
        × IsRing c
        × (c.num ≡ length ds)
        × (contents c ≡ kept (suc n) [] ds)
  unfolding new_tsd_cache empty
  put_all_new n ds =
      let (c, e, v, size, counts, keeps) = put_all_lem (empty n) ds (empty-IsRing n) in
      let total : c.num ≡ length ds = omega arith in
      (
        c,
        e,
        v,
        total,
        keeps ∙ ap (λ xs. kept (suc n) xs ds) (no_contents (empty n) (empty-IsRing n) refl),
      )
