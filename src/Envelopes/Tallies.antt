-- ===== src/Envelopes/Tallies.antt =====
-- What the processor has counted after some envelopes.
use app_autoscaler.Prelude.{
  ℕ, suc, ◌+◌, ◌≤◌, ◌<◌, ◌^◌, String, ◌≡◌, refl, sym, ◌∙◌, inl, inr, Bool, ◌&&◌, Option, none, some,
  List, [], ◌∷◌, str_eq, ◌==◌, ==_iff, if◌then◌else◌, arith, Bool-cases, Holds, length,
}
use app_autoscaler.Prelude.Int.{ℤ, pos, ◌+ℤ◌, ◌-ℤ◌, wrap64, wrap64_id}
use app_autoscaler.Http.Params.{is_not}
use app_autoscaler.Envelopes.{
  Envelope, Message, gauge, timer, other, count_of, add_count, add_to, instance_index,
  EnvelopeProcessor,
}
use app_autoscaler.Envelopes.Counting.{
  Keyed, counts_at, counts_at-add_to, count_of-add_count, add_count-Keyed, Holds-add_count,
}

-- A request more, and its time, with the wrap-around of int64.
abbrev pub count_one : Option ℤ → Bool → ℕ → ℕ
count_one none here n = n
count_one (some t) here n = if here then suc n else n

abbrev pub sum_one : Option ℤ → Bool → ℤ → ℤ
sum_one none here s = s
sum_one (some t) here s = if here then wrap64 (s +ℤ t) else s

pub count_one_le : (t : Option ℤ) (here : Bool) (n : ℕ) → count_one t here n ≤ suc n
count_one_le none here n = omega arith
count_one_le (some t) here n = ground arith

module _ {F : Type 0} where
  -- Whether an envelope is an HTTP request to an instance of an app, and how long the request took.
  abbrev pub duration : Message F → Option ℤ
  duration (gauge g) = none
  duration (timer name start stop) = some (wrap64 (stop -ℤ start))
  duration other = none

  abbrev pub is_at : String → ℕ → Envelope F → Bool
  is_at app i e = str_eq e.source_id app && (instance_index e == i)

  -- The requests to an instance behind `n` of them, and their times behind the sum `s`.
  unfoldable pub requests : String → ℕ → List (Envelope F) → ℕ → ℕ
  requests app i [] n = n
  requests app i (e ∷ es) n = requests app i es (count_one (duration e.message) (is_at app i e) n)

  unfoldable pub total_time : String → ℕ → List (Envelope F) → ℤ → ℤ
  total_time app i [] s = s
  total_time app i (e ∷ es) s = total_time app i es (sum_one (duration e.message) (is_at app i e) s)

  pub requests_le :
      (app : String) (i : ℕ) (es : List (Envelope F)) (n : ℕ) → requests app i es n ≤ n + length es
  unfolding requests
  requests_le app i [] n = omega arith
  requests_le app i (e ∷ es) n =
      let below = requests_le app i es (count_one (duration e.message) (is_at app i e) n) in
      let one = count_one_le (duration e.message) (is_at app i e) n in omega arith

-- The state of a processor says what the numbers are.
pub record Tallied (count : String → ℕ → ℕ) (total : String → ℕ → ℤ) (ep : EnvelopeProcessor)
    : Type 0 where
  pub keyed : (app : String) → Keyed (counts_at app ep.num_requests)
  pub counted :
      (app : String) (i : ℕ) → count_of i (counts_at app ep.num_requests) ≡ pos (count app i)
  pub summed :
      (app : String) (i : ℕ) → count_of i (counts_at app ep.sum_response_times) ≡ total app i
  pub positive :
      (app : String) (i : ℕ) (n : ℤ)
      → Holds (i, n) (counts_at app ep.num_requests)
      → 0 < count app i

count_up : (n : ℕ) → n < 2 ^ 62 → wrap64 (pos n +ℤ pos 1) ≡ pos (suc n)
unfolding ◌+ℤ◌
count_up n h = wrap64_id (pos n +ℤ pos 1) (ground arith) ∙ ground arith

module _ (count : String → ℕ → ℕ) (total : String → ℕ → ℤ) (ep : EnvelopeProcessor)
    (few : (app : String) (i : ℕ) → count app i < 2 ^ 62) (t : Tallied count total ep) (a : String)
    (k : ℕ) (v : ℤ) where
  pub add_to-Keyed : (app : String) → Keyed (counts_at app (add_to a k (pos 1) ep.num_requests))
  add_to-Keyed app = elim (Bool-cases (str_eq a app)) [
    | inl e ↦
        rw (counts_at-add_to a app k (pos 1) ep.num_requests, e)
          (add_count-Keyed k (pos 1) (counts_at app ep.num_requests) (t.keyed app))
    | inr e ↦ rw (counts_at-add_to a app k (pos 1) ep.num_requests, e) (t.keyed app)
  ]

  pub add_counted :
      (app : String) (i : ℕ)
      → count_of i (counts_at app (add_to a k (pos 1) ep.num_requests))
        ≡ pos (if str_eq a app && (k == i) then suc (count app i) else count app i)
  add_counted app i = elim (Bool-cases (str_eq a app)) [
    | inr e ↦ rw (counts_at-add_to a app k (pos 1) ep.num_requests, e) (t.counted app i)
    | inl e ↦ elim (Bool-cases (k == i)) [
      | inl q ↦
          rw
            (
              counts_at-add_to a app k (pos 1) ep.num_requests,
              e,
              count_of-add_count k i (pos 1) (counts_at app ep.num_requests),
              q,
              t.counted app i,
            )
            (count_up (count app i) (few app i))
      | inr q ↦
          rw
            (
              counts_at-add_to a app k (pos 1) ep.num_requests,
              e,
              count_of-add_count k i (pos 1) (counts_at app ep.num_requests),
              q,
            )
            (t.counted app i)
    ]
  ]

  pub add_summed :
      (app : String) (i : ℕ)
      → count_of i (counts_at app (add_to a k v ep.sum_response_times))
        ≡ (if str_eq a app && (k == i) then wrap64 (total app i +ℤ v) else total app i)
  add_summed app i = elim (Bool-cases (str_eq a app)) [
    | inr e ↦ rw (counts_at-add_to a app k v ep.sum_response_times, e) (t.summed app i)
    | inl e ↦ elim (Bool-cases (k == i)) [
      | inl q ↦
          rw
            (
              counts_at-add_to a app k v ep.sum_response_times,
              e,
              count_of-add_count k i v (counts_at app ep.sum_response_times),
              q,
              t.summed app i,
            )
            refl
      | inr q ↦
          rw
            (
              counts_at-add_to a app k v ep.sum_response_times,
              e,
              count_of-add_count k i v (counts_at app ep.sum_response_times),
              q,
            )
            (t.summed app i)
    ]
  ]

  pub add_positive :
      (app : String) (i : ℕ) (n : ℤ)
      → Holds (i, n) (counts_at app (add_to a k (pos 1) ep.num_requests))
      → 0 < (if str_eq a app && (k == i) then suc (count app i) else count app i)
  add_positive app i n h = elim (Bool-cases (str_eq a app)) [
    | inr e ↦
        rw e (t.positive app i n (rw (counts_at-add_to a app k (pos 1) ep.num_requests, e) at h))
    | inl e ↦ elim (Bool-cases (k == i)) [
      | inl q ↦ rw (e, q) (omega arith)
      | inr q ↦
          let h' : Holds (i, n) (add_count k (pos 1) (counts_at app ep.num_requests)) =
            rw (counts_at-add_to a app k (pos 1) ep.num_requests, e) at h in
          elim (Holds-add_count k i (pos 1) n (counts_at app ep.num_requests) h') [
            | inl same ↦ absurd (is_not ((==_iff k i).1 (sym same)) q)
            | inr (m, old) ↦ rw (e, q) (t.positive app i m old)
          ]
    ]
  ]
