-- ===== src/Forwarder/Publish.antt =====
-- Which metrics PublishMetrics of metricsforwarder/server/custom_metrics_handlers.go accepted on.
use app_autoscaler.Prelude.{
  ℕ, String, ◌≡◌, refl, ap, sym, ◌∙◌, subst, true, false, ◌⊎◌, inl, inr, none, some, List, [], ◌∷◌,
  arith, Bool-cases, Option, Option-cases, some_inj, Holds,
}
use app_autoscaler.Prelude.Dict.{Dict, lookup, insert}
use app_autoscaler.Models.{Error, ok, CustomMetricCredentials}
use app_autoscaler.ScalingEngine.Limits.{Result-cases}
use app_autoscaler.Forwarder.{
  Metric, Checked, accepted, panicked, rejected, MetricsConsumer, CustomMetric, Body, unreadable,
  malformed, null, decoded, Request, Backend, Caches, contains, standard_metrics,
  validate_credentials, check_names, allowed_types, get_metrics, forward, publish_body,
  publish_fresh, publish_metrics,
}

-- A metric whose name is none of the standard ones, and is among the allowed types.
pub record IsAllowed (types : List String) (m : Metric) : Type 0 where
  pub named : contains m.name types ≡ true
  pub custom : contains m.name standard_metrics ≡ false

pub Checked-cases :
    (r : Checked) → (r ≡ accepted) ⊎ ((r ≡ panicked) ⊎ ((e : Error) × (r ≡ rejected e)))
Checked-cases accepted = inl refl
Checked-cases panicked = inr (inl refl)
Checked-cases (rejected e) = inr (inr (e, refl))

check_names_sound :
    (types : List String) (ms : List (Option Metric)) (m : Metric)
    → check_names types ms ≡ accepted
    → Holds (some m) ms
    → IsAllowed types m
unfolding check_names
check_names_sound types [] m e h = absurd h
check_names_sound types (none ∷ xs) m e h = ground arith
check_names_sound types (some x ∷ xs) m e h = elim (Bool-cases (contains x.name standard_metrics)) [
  | inl s ↦ let impossible = rw (check_names, s) at e in ground arith
  | inr s ↦ elim (Bool-cases (contains x.name types)) [
    | inr a ↦ let impossible = rw (check_names, s, a) at e in ground arith
    | inl a ↦ elim h [
      | inl same ↦ subst (IsAllowed types) (sym (some_inj same)) (record { named = a; custom = s })
      | inr k ↦ check_names_sound types xs m (rw (check_names, s, a) at e) k
    ]
  ]
]

Holds-get_metrics :
    (app : String) (i : ℕ) (ms : List (Option Metric)) (out : List CustomMetric) (x : CustomMetric)
    → get_metrics app i ms ≡ some out
    → Holds x out
    → Holds (some x.metric) ms × (x.app_guid ≡ app)
unfolding get_metrics
Holds-get_metrics app i [] out x e h = absurd (subst (Holds x) (sym (some_inj e)) h)
Holds-get_metrics app i (none ∷ ms) out x e h = ground arith
Holds-get_metrics app i (some m ∷ ms) out x e h = elim (Option-cases (get_metrics app i ms)) [
  | inl p ↦ let impossible = rw (get_metrics, p) at e in ground arith
  | inr (rest, p) ↦ elim (subst (Holds x) (sym (some_inj (rw (get_metrics, p) at e))) h) [
    | inl same ↦ (inl (ap (λ z. some z.metric) same), ap (λ z. z.app_guid) same)
    | inr k ↦ let (among, for_app) = Holds-get_metrics app i ms rest x p k in (inr among, for_app)
  ]
]

-- The metric is one of the body, for the app of the request, and of a type that is allowed.
pub record Admitted (b : Backend) (app : String) (body : Body) (c : Caches) (x : CustomMetric)
    : Type 0 where
  pub consumer : MetricsConsumer
  pub types : List String
  pub reads : body ≡ decoded consumer
  pub among : Holds (some x.metric) consumer.custom_metrics
  pub for_app : x.app_guid ≡ app
  pub types_are : (allowed_types b app c).1 ≡ ok types
  pub allowed : IsAllowed types x.metric

forward_emits :
    (c : Caches) (ms : List CustomMetric) (x : CustomMetric)
    → Holds x (forward c ms).emitted
    → Holds x ms
forward_emits c [] x h = absurd h
forward_emits c (m ∷ ms) x h = h

publish_body_sound :
    (b : Backend) (app : String) (body : Body) (c : Caches) (x : CustomMetric)
    → Holds x (publish_body b app body c).emitted
    → Admitted b app body c x
unfolding publish_body
publish_body_sound b app unreadable c x h = absurd h
publish_body_sound b app malformed c x h = absurd h
publish_body_sound b app null c x h = elim (Result-cases (allowed_types b app c).1) [
  | inl (e, p) ↦ absurd (rw (publish_body, p) at h)
  | inr (types, p) ↦ absurd (rw (publish_body, p) at h)
]
publish_body_sound b app (decoded m) c x h = elim (Result-cases (allowed_types b app c).1) [
  | inl (e, p) ↦ absurd (rw (publish_body, p) at h)
  | inr (types, p) ↦ elim (Checked-cases (check_names types m.custom_metrics)) [
    | inr (inr (e, q)) ↦ absurd (rw (publish_body, p, q) at h)
    | inr (inl q) ↦ absurd (rw (publish_body, p, q) at h)
    | inl q ↦ elim (Option-cases (get_metrics app m.instance_index m.custom_metrics)) [
      | inl g ↦ absurd (rw (publish_body, p, q, g) at h)
      | inr (out, g) ↦
          let k = forward_emits (allowed_types b app c).0 out x (rw (publish_body, p, q, g) at h) in
          let (among, for_app) =
            Holds-get_metrics app m.instance_index m.custom_metrics out x g k in
          record {
            consumer = m;
            types = types;
            reads = refl;
            among = among;
            for_app = for_app;
            types_are = p;
            allowed = check_names_sound types m.custom_metrics x.metric q among;
          }
    ]
  ]
]

-- Credentials of the app, from the cache or else from the database, that match those of the request.
pub record Authorised (b : Backend) (r : Request) (c : Caches) : Type 0 where
  pub username : String
  pub password : String
  pub credentials : CustomMetricCredentials
  pub shown : r.basic_auth ≡ some (username, password)
  pub known :
      (lookup r.app_id c.credential_cache ≡ some credentials)
      ⊎ (b.credentials r.app_id ≡ ok credentials)
  pub valid : validate_credentials b username password credentials ≡ true

module _ (b : Backend) (r : Request) where
  -- The cache of the credentials does not matter to the types.
  pub allowed_types_same :
      (c : Caches) (creds : Dict CustomMetricCredentials)
      → (allowed_types b r.app_id (record c { credential_cache = creds })).1
        ≡ (allowed_types b r.app_id c).1
  unfolding allowed_types
  allowed_types_same c creds = elim (Option-cases (lookup r.app_id c.allowed_metric_cache)) [
    | inr (types, p) ↦ rw (allowed_types, p) refl
    | inl p ↦ elim (Result-cases (b.policy r.app_id)) [
      | inl (e, q) ↦ rw (allowed_types, p, q) refl
      | inr (none, q) ↦ rw (allowed_types, p, q) refl
      | inr (some policy, q) ↦ rw (allowed_types, p, q) refl
    ]
  ]

  publish_fresh_sound :
      (username password : String) (c : Caches) (x : CustomMetric)
      → r.basic_auth ≡ some (username, password)
      → Holds x (publish_fresh b r username password c).emitted
      → Authorised b r c × Admitted b r.app_id r.body c x
  unfolding publish_fresh
  publish_fresh_sound username password c x shown h = elim (Result-cases (b.credentials r.app_id)) [
    | inl (e, p) ↦ absurd (rw (publish_fresh, p) at h)
    | inr (creds, p) ↦ elim (Bool-cases (validate_credentials b username password creds)) [
      | inr v ↦ absurd (rw (publish_fresh, p, v) at h)
      | inl v ↦
          let stored = insert r.app_id creds c.credential_cache in
          let a =
            publish_body_sound b r.app_id r.body (record c { credential_cache = stored }) x
              (rw (publish_fresh, p, v) at h) in
          (
            record {
              username = username;
              password = password;
              credentials = creds;
              shown = shown;
              known = inr p;
              valid = v;
            },
            record {
              consumer = a.consumer;
              types = a.types;
              reads = a.reads;
              among = a.among;
              for_app = a.for_app;
              types_are = sym (allowed_types_same c stored) ∙ a.types_are;
              allowed = a.allowed;
            },
          )
    ]
  ]

  -- Every metric that `PublishMetrics` emits is one of the request's body, for the request's app. The
  -- request shows credentials that match those of the app in the cache or in the database; and the
  -- metric's name is not a standard one, and is among the types that the cache, or else the policy of
  -- the app, allows.
  pub publish_sound :
      (c : Caches) (x : CustomMetric)
      → Holds x (publish_metrics b r c).emitted
      → Authorised b r c × Admitted b r.app_id r.body c x
  unfolding publish_metrics
  publish_sound c x h = elim (Option-cases r.basic_auth) [
    | inl p ↦ absurd (rw (publish_metrics, p) at h)
    | inr ((username, password), p) ↦ elim (Option-cases (lookup r.app_id c.credential_cache)) [
      | inl q ↦ publish_fresh_sound username password c x p (rw (publish_metrics, p, q) at h)
      | inr (creds, q) ↦ elim (Bool-cases (validate_credentials b username password creds)) [
        | inr v ↦ publish_fresh_sound username password c x p (rw (publish_metrics, p, q, v) at h)
        | inl v ↦ (
          record {
            username = username;
            password = password;
            credentials = creds;
            shown = p;
            known = inl q;
            valid = v;
          },
          publish_body_sound b r.app_id r.body c x (rw (publish_metrics, p, q, v) at h),
        )
      ]
    ]
  ]
