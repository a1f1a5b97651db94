-- ===== src/AppPoller/Polled.antt =====
-- What a poller has after any number of polls.
use app_autoscaler.Prelude.{
  ◌⊎◌, inl, inr, ℕ, zero, suc, ◌+◌, ◌≤◌, ◌<◌, ◌==◌, arith, String, ◌≡◌, refl, sym, ap, ◌∙◌, subst,
  Bool, true, false, Option, some, List, [], ◌∷◌, ◌++◌, if◌then◌else◌, some_inj, Bool-cases,
}
use mathlib.Core.List.{append-nil, append_assoc}
use app_autoscaler.Prelude.Int.{ℤ, pos, ◌+ℤ◌, wrap64_id, InInt64}
use app_autoscaler.Float.{Float64}
use app_autoscaler.Models.{Error, Result, ok, err, AppInstanceMetric, LabelMap}
use app_autoscaler.TsdCache.{TsdCache, ◌>>=◌}
use app_autoscaler.ScalingEngine.Limits.{Result-cases}
use app_autoscaler.TsdCache.Filled.{Filled, put-Filled}
use app_autoscaler.TsdCache.Sound.{Answers, query-Answers}
use app_autoscaler.InstanceMetrics.{instance_metric_tsd}
use app_autoscaler.AppPoller.{
  ContainerEnvelope, AppPoller, retry, get_metrics_from_container_envelopes, take_metrics,
  poll_metric, poller_answer,
}

-- What metrics leave of a poller.
record Takes (n : ℕ) (ms : List AppInstanceMetric) (p p' : AppPoller) : Type 0 where
  app : p'.app_id ≡ p.app_id
  persists : p'.is_metrics_persistency_supported ≡ p.is_metrics_persistency_supported
  sends : p'.sent ≡ (if p.is_metrics_persistency_supported then p.sent ++ ms else p.sent)
  fills : (ds : List AppInstanceMetric) → Filled n ds p.cache → Filled n (ds ++ ms) p'.cache

sends_nothing : (b : Bool) (xs : List AppInstanceMetric) → xs ≡ (if b then xs ++ [] else xs)
sends_nothing true xs = sym (append-nil xs)
sends_nothing false xs = refl

sends_both :
    (b : Bool) (xs ys zs us : List AppInstanceMetric)
    → us ≡ (if b then xs ++ ys else xs)
    → (if b then us ++ zs else us) ≡ (if b then xs ++ (ys ++ zs) else xs)
sends_both true xs ys zs us e = ap (λ w. w ++ zs) e ∙ append_assoc xs ys zs
sends_both false xs ys zs us e = e

Takes-nothing : (n : ℕ) (p : AppPoller) → Takes n [] p p
Takes-nothing n p = record {
  app = refl;
  persists = refl;
  sends = sends_nothing p.is_metrics_persistency_supported p.sent;
  fills = λ ds f. subst (λ z. Filled n z p.cache) (sym (append-nil ds)) f;
}

Takes-trans :
    (n : ℕ) (ms ns : List AppInstanceMetric) (a b c : AppPoller)
    → Takes n ms a b
    → Takes n ns b c
    → Takes n (ms ++ ns) a c
Takes-trans n ms ns a b c f g = record {
  app = g.app ∙ f.app;
  persists = g.persists ∙ f.persists;
  sends =
      g.sends
      ∙ ap (λ z. if z then b.sent ++ ns else b.sent) f.persists
      ∙ sends_both a.is_metrics_persistency_supported a.sent ms ns b.sent f.sends;
  fills = λ ds h.
      subst (λ z. Filled n z c.cache) (append_assoc ds ms ns) (g.fills (ds ++ ms) (f.fills ds h));
}

take_metrics_lem :
    (n : ℕ) (ds ms : List AppInstanceMetric) (p : AppPoller)
    → Filled n ds p.cache
    → (p' : AppPoller) × (take_metrics ms p ≡ some p') × Takes n ms p p'
unfolding take_metrics
take_metrics_lem n ds [] p h = (p, refl, Takes-nothing n p)
take_metrics_lem n ds (m ∷ ms) p h =
    let (c, e, h') = put-Filled n ds p.cache m h in
    let p₁ : AppPoller = record p {
      cache = c;
      sent = if p.is_metrics_persistency_supported then p.sent ++ m ∷ [] else p.sent;
    } in
    let one : Takes n (m ∷ []) p p₁ = record {
      app = refl;
      persists = refl;
      sends = refl;
      fills = λ ds' f.
          let (c', e', f') = put-Filled n ds' p.cache m f in
          subst (Filled n (ds' ++ m ∷ [])) (same c' c (sym e' ∙ e)) f';
    } in
    let (p', e', rest) = take_metrics_lem n (ds ++ m ∷ []) ms p₁ h' in
    (p', rw e e', Takes-trans n (m ∷ []) ms p p₁ p' one rest)
  where
    same : (x y : TsdCache AppInstanceMetric) → some x ≡ some y → x ≡ y
    same x y e = some_inj e

module _ (fl : Float64) where
  -- The clock's time and the answers of a poll.
  abbrev pub Poll : Type 0
  Poll = ℤ × (ℕ → Result (List (ContainerEnvelope fl.F)))

  -- Whether the answer is an error.
  abbrev pub Fails : Result (List (ContainerEnvelope fl.F)) → Type 0
  Fails r = (e : Error) × (r ≡ err e)

  -- The metrics of a poll: those of the first of its attempts 0, 1 and 2 that succeeds, or none if all fail.
  pub IsPolled : String → Poll → List AppInstanceMetric → Type 0
  IsPolled app (now, ask) ms =
      ((k : ℕ) × (k < 3)
        × ((j : ℕ) → j < k → Fails (ask j))
        × ((es : List (ContainerEnvelope fl.F)) × (ask k ≡ ok es)
            × (ms ≡ get_metrics_from_container_envelopes fl now app es)))
      ⊎ (((j : ℕ) → j < 3 → Fails (ask j)) × (ms ≡ []))

  -- Those of several polls, one after the other.
  pub ArePolled : String → List Poll → List AppInstanceMetric → Type 0
  ArePolled app [] ms = ms ≡ []
  ArePolled app (poll ∷ polls) ms =
      (first : List AppInstanceMetric) × (more : List AppInstanceMetric) × IsPolled app poll first
      × ArePolled app polls more
      × (ms ≡ first ++ more)

  -- The polls of startPollMetrics.
  abbrev pub poll_all : List Poll → AppPoller → Option AppPoller
  poll_all [] p = some p
  poll_all ((now, ask) ∷ polls) p = poll_metric fl now ask p >>= λ p'. poll_all polls p'

  -- The loop of the attempts, from any attempt on.
  retry_lem :
      (n attempt : ℕ) (ask : ℕ → Result (List (ContainerEnvelope fl.F)))
      → ((k : ℕ) × (attempt ≤ k)
          × (k ≤ attempt + n)
          × ((j : ℕ) → attempt ≤ j → j < k → Fails (ask j))
          × ((es : List (ContainerEnvelope fl.F)) × (ask k ≡ ok es)
              × (retry n attempt ask ≡ ok es)))
        ⊎ (((j : ℕ) → attempt ≤ j → j ≤ attempt + n → Fails (ask j)) × Fails (retry n attempt ask))
  unfolding retry
  retry_lem zero attempt ask = elim (Result-cases (ask attempt)) [
    | inr (es, q) ↦
        inl (attempt, omega arith, omega arith, λ j lo hi. absurd (omega arith), (es, q, q))
    | inl (e, q) ↦ inr (
      λ j lo hi. let same : attempt ≡ j = omega arith in (e, subst (λ z. ask z ≡ err e) same q),
      (e, q),
    )
  ]
  retry_lem (suc n) attempt ask = elim (Result-cases (ask attempt)) [
    | inr (es, q) ↦ inl (
      attempt,
      omega arith,
      omega arith,
      λ j lo hi. absurd (omega arith),
      (es, q, rw (retry, q) refl),
    )
    | inl (e, q) ↦ elim (retry_lem n (suc attempt) ask) [
      | inl (k, lo, hi, failed, (es, found, r)) ↦ inl (
        k,
        omega arith,
        omega arith,
        λ j lo' hi'. earlier {k = k} failed j e q lo' hi',
        (es, found, rw (retry, q) r),
      )
      | inr (failed, (e', r)) ↦ inr (
        λ j lo' hi'.
            earlier {k = suc (attempt + suc n)} (λ i a b. failed i a (omega arith)) j e q lo'
              (omega arith),
        (e', rw (retry, q) r),
      )
    ]
  ]
    where
      earlier :
          {k : ℕ}
          → ((i : ℕ) → suc attempt ≤ i → i < k → Fails (ask i))
          → (j : ℕ) (e : Error) → ask attempt ≡ err e
          → attempt ≤ j
          → j < k
          → Fails (ask j)
      earlier {k} failed j e q lo hi = elim (Bool-cases (j == attempt)) [
        | inl same ↦ (e, subst (λ z. ask z ≡ err e) (ground arith) q)
        | inr other ↦ failed j (ground arith) hi
      ]

  poll_lem :
      (n : ℕ) (ds : List AppInstanceMetric) (now : ℤ)
      (ask : ℕ → Result (List (ContainerEnvelope fl.F))) (p : AppPoller)
      → Filled n ds p.cache
      → (p' : AppPoller) × (ms : List AppInstanceMetric) × (poll_metric fl now ask p ≡ some p')
        × IsPolled p.app_id (now, ask) ms
        × Takes n ms p p'
  unfolding poll_metric IsPolled
  poll_lem n ds now ask p h = elim (retry_lem 2 0 ask) [
    | inl (k, lo, hi, failed, (es, found, r)) ↦
        let ms = get_metrics_from_container_envelopes fl now p.app_id es in
        let (p', e, t) = take_metrics_lem n ds ms p h in
        (
          p',
          ms,
          rw (poll_metric, r) e,
          inl (k, omega arith, λ j lt. failed j (omega arith) lt, (es, found, refl)),
          t,
        )
    | inr (failed, (e, r)) ↦ (
      p,
      [],
      rw (poll_metric, r) refl,
      inr (λ j lt. failed j (omega arith) (omega arith), refl),
      Takes-nothing n p,
    )
  ]

  run_polls :
      (n : ℕ) (ds : List AppInstanceMetric) (polls : List Poll) (p : AppPoller)
      → Filled n ds p.cache
      → (p' : AppPoller) × (ms : List AppInstanceMetric) × (poll_all polls p ≡ some p')
        × ArePolled p.app_id polls ms
        × Takes n ms p p'
  unfolding ArePolled
  run_polls n ds [] p h = (p, [], refl, refl, Takes-nothing n p)
  run_polls n ds ((now, ask) ∷ polls) p h =
      let (p₁, first, e, polled, t) = poll_lem n ds now ask p h in
      let (p', more, e', rest, ts) = run_polls n (ds ++ first) polls p₁ (t.fills ds h) in
      (
        p',
        first ++ more,
        rw e e',
        (first, more, polled, subst (λ z. ArePolled z polls more) t.app rest, refl),
        Takes-trans n first more p p₁ p' t ts,
      )

  -- From an empty cache of a capacity above 0, any number of polls goes through without a panic. The metrics of
  -- a poll are those of the envelopes of the first of its three attempts that succeeds, and none if all fail. The
  -- poller sends the metrics of all the polls on, in their order, if metrics are saved, and none otherwise. A
  -- query to an end whose next int64 does not overflow answers, and if its flag is positive, with the polled
  -- metrics that are asked for, in the order of their timestamps, of which it may miss some at the
  -- start itself.
  pub poll_all_lem :
      (n : ℕ) (polls : List Poll) (p : AppPoller) (start end : ℤ) (labels : LabelMap)
      → Filled n [] p.cache
      → InInt64 (end +ℤ pos 1)
      → (p' : AppPoller) × (ms : List AppInstanceMetric) × (poll_all polls p ≡ some p')
        × ArePolled p.app_id polls ms
        × (p'.sent ≡ (if p.is_metrics_persistency_supported then p.sent ++ ms else p.sent))
        × ((found : List AppInstanceMetric) × (hit : Bool) × (poller_answer start end labels p'
              ≡ some (found, hit))
            × (hit ≡ true → Answers start (end +ℤ pos 1) labels ms found))
  unfolding poller_answer
  poll_all_lem n polls p start end labels h small =
      let (p', ms, e, polled, t) = run_polls n [] polls p h in
      let (found, hit, q, answers) =
        query-Answers start (end +ℤ pos 1) labels n ms p'.cache (t.fills [] h) in
      (
        p',
        ms,
        e,
        polled,
        t.sends,
        (found, hit, rw (poller_answer, wrap64_id (end +ℤ pos 1) small) q, answers),
      )
