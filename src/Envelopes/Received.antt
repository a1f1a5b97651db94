-- ===== src/Envelopes/Received.antt =====
-- The counts after any envelopes.
use app_autoscaler.Prelude.{
  ℕ, ◌+◌, ◌<◌, ◌^◌, String, ◌≡◌, refl, ◌⊎◌, inl, inr, List, [], ◌∷◌, arith, length,
}
use app_autoscaler.Prelude.Int.{ℤ, ◌-ℤ◌, wrap64}
use app_autoscaler.Prelude.Dict.{Dict}
use app_autoscaler.Float.{Float64}
use app_autoscaler.Envelopes.{
  Envelope, Message, gauge, timer, other, GaugeValue, instance_index, EnvelopeProcessor,
  process_envelope, process_http_start_stop, process_all,
}
use app_autoscaler.Envelopes.Tallies.{
  Tallied, duration, is_at, count_one, sum_one, count_one_le, requests, total_time, add_to-Keyed,
  add_counted, add_summed, add_positive,
}

Message-cases :
    {F : Type 0} (m : Message F)
    → ((start stop : ℤ) × (name : String) × (m ≡ timer name start stop))
      ⊎ (((g : Dict (GaugeValue F)) × (m ≡ gauge g)) ⊎ (m ≡ other))
Message-cases (gauge g) = inr (inl (g, refl))
Message-cases (timer name start stop) = inl (start, stop, name, refl)
Message-cases other = inr (inr refl)

-- The numbers after an envelope more.
abbrev pub more_counts : {F : Type 0} → Envelope F → (String → ℕ → ℕ) → String → ℕ → ℕ
more_counts e count app i = count_one (duration e.message) (is_at app i e) (count app i)

abbrev pub more_times : {F : Type 0} → Envelope F → (String → ℕ → ℤ) → String → ℕ → ℤ
more_times e total app i = sum_one (duration e.message) (is_at app i e) (total app i)

abbrev pub envelopes : {F : Type 0} → List (ℤ × Envelope F) → List (Envelope F)
envelopes [] = []
envelopes ((now, e) ∷ es) = e ∷ envelopes es

module _ (fl : Float64) where
  process_envelope-Tallied :
      (count : String → ℕ → ℕ) (total : String → ℕ → ℤ) (now : ℤ) (e : Envelope fl.F)
      (ep : EnvelopeProcessor)
      → ((app : String) (i : ℕ) → count app i < 2 ^ 62)
      → Tallied count total ep
      → Tallied (more_counts e count) (more_times e total) (process_envelope fl now e ep).0
  unfolding process_envelope process_http_start_stop
  process_envelope-Tallied count total now e ep few t = elim (Message-cases e.message) [
    | inr (inl (g, p)) ↦ rw (process_envelope, p) t
    | inr (inr p) ↦ rw (process_envelope, p) t
    | inl (start, stop, name, p) ↦
        let v = wrap64 (stop -ℤ start) in
        rw (process_envelope, p)
          (record {
            keyed = add_to-Keyed count total ep few t e.source_id (instance_index e) v;
            counted = add_counted count total ep few t e.source_id (instance_index e) v;
            summed = add_summed count total ep few t e.source_id (instance_index e) v;
            positive = add_positive count total ep few t e.source_id (instance_index e) v;
          })
  ]

  pub process_all-Tallied :
      (count : String → ℕ → ℕ) (total : String → ℕ → ℤ) (es : List (ℤ × Envelope fl.F))
      (ep : EnvelopeProcessor)
      → ((app : String) (i : ℕ) → count app i + length es < 2 ^ 62)
      → Tallied count total ep
      → Tallied
          (λ app i. requests app i (envelopes es) (count app i))
          (λ app i. total_time app i (envelopes es) (total app i))
          (process_all fl es ep).0
  unfolding process_all requests total_time
  process_all-Tallied count total [] ep few t = t
  process_all-Tallied count total ((now, e) ∷ es) ep few t =
      process_all-Tallied (more_counts e count) (more_times e total) es
        (process_envelope fl now e ep).0
        (λ app i.
          let one = count_one_le (duration e.message) (is_at app i e) (count app i) in
          let room = few app i in omega arith)
        (process_envelope-Tallied count total now e ep
          (λ app i. let room = few app i in omega arith) t)
