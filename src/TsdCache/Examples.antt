-- ===== src/TsdCache/Examples.antt =====
-- Concrete caches of metrics.
use app_autoscaler.Prelude.{
  ℕ, ◌<◌, ◌≡◌, refl, subst, String, true, some, List, [], ◌∷◌, Holds, inl, inr, arith,
}
use app_autoscaler.Prelude.Int.{pos, ◌<ℤ◌, leb_ℤ}
use app_autoscaler.TsdCache.{
  Tsd, TsdCache, stamp, new_tsd_cache, put, query, binary_search, search, low, high, collect, store,
  insert_at, shift_in, shift, ◌>>=◌,
}
use app_autoscaler.TsdCache.Search.{IsRing, Splits, binary_search-Splits}
use app_autoscaler.TsdCache.Spec.{contents}
use app_autoscaler.TsdCache.Query.{select, query_lem}
use app_autoscaler.TsdCache.Refinement.{Puts, put-Puts}
use app_autoscaler.TsdCache.History.{put_all, put_all_new}
use app_autoscaler.TsdCache.Complete.{query_complete}

record Point : Type 0 where
  at : ℕ
  name : String

instance point_tsd : Tsd Point
point_tsd = record { get_timestamp = λ p. pos p.at; has_labels = λ p labels. true }

abbrev point : ℕ → Point
point n = record { at = n; name = "p" }

-- Out of order, and one more than the capacity of 3.
abbrev points : List Point
points = point 10 ∷ point 30 ∷ point 20 ∷ point 40 ∷ []

filled_by : (new_tsd_cache 3 >>= λ c₀. put_all c₀ points) ≡ some (put_all_new 2 points).0
filled_by = (put_all_new 2 points).1

abbrev filled : TsdCache Point
filled = (put_all_new 2 points).0

abbrev filled_ring : IsRing filled
filled_ring = (put_all_new 2 points).2

-- The four puts, and a query of all that is left.
runs :
    (new_tsd_cache 3 >>= λ c₀. put_all c₀ points >>= λ c. query c (pos 25) (pos 50) [])
    ≡ some (point 30 ∷ point 40 ∷ [], true)
unfolding new_tsd_cache put query binary_search search low high collect store insert_at shift_in
    shift point_tsd
runs = refl

-- A point of the time of the start can be given up while the flag stays positive.
equal_times :
    (new_tsd_cache {A = Point} 1 >>= λ c₀.
    put_all c₀ (record { at = 10; name = "a" } ∷ record { at = 10; name = "b" } ∷ []) >>= λ c.
    query c (pos 10) (pos 11) [])
    ≡ some (record { at = 10; name = "b" } ∷ [], true)
unfolding new_tsd_cache put query binary_search search low high collect store insert_at shift_in
    shift point_tsd
equal_times = refl

put-Puts_example :
    (c' : TsdCache Point) × (put filled (point 35) ≡ some c')
    × Puts filled filled_ring (point 35) c'
put-Puts_example = put-Puts filled filled_ring (point 35)

filled_num : 0 < filled.num
filled_num = omega (arith, (put_all_new 2 points).3)

binary_search-Splits_example :
    (p : ℕ) × (binary_search filled (pos 25) ≡ some p)
    × Splits filled (pos 25) (low filled) (high filled) p
binary_search-Splits_example = binary_search-Splits filled (pos 25) filled_ring filled_num

query_lem_example :
    (oldest : Point) × (rest : List Point) × (contents filled ≡ oldest ∷ rest)
    × (query filled (pos 25) (pos 50) []
        ≡ some (select (pos 25) (pos 50) [] (contents filled), leb_ℤ (stamp oldest) (pos 25)))
query_lem_example = query_lem (pos 25) (pos 50) [] filled filled_ring filled_num

asked :
    ((new_tsd_cache 3 >>= λ c₀. put_all c₀ points) >>= λ c. query c (pos 25) (pos 50) [])
    ≡ some (point 30 ∷ point 40 ∷ [], true)
unfolding new_tsd_cache put query binary_search search low high collect store insert_at shift_in
    shift point_tsd
asked = refl

filled_answers : query filled (pos 25) (pos 50) [] ≡ some (point 30 ∷ point 40 ∷ [], true)
filled_answers =
    subst (λ o. (o >>= λ c. query c (pos 25) (pos 50) []) ≡ some (point 30 ∷ point 40 ∷ [], true))
      filled_by asked

later : (pos 25 <ℤ stamp (point 30)) × (stamp (point 30) <ℤ pos 50)
unfolding point_tsd
later = (omega arith, omega arith)

labelled : point_tsd.has_labels (point 30) [] ≡ true
unfolding point_tsd
labelled = refl

query_complete_example : Holds (point 30) (point 30 ∷ point 40 ∷ [])
query_complete_example =
    query_complete (pos 25) (pos 50) [] 2 points filled (point 30 ∷ point 40 ∷ []) (point 30)
      filled_by filled_answers (inr (inl refl)) later.0 later.1 labelled
