-- ===== src/Gateway/Accounts.antt =====
-- The account of an emitter: what it has written, what waits for it, and what is in the channel for it.
use app_autoscaler.Prelude.{
  ℕ, suc, ◌%◌, String, ◌≡◌, refl, sym, ap, ◌∙◌, subst, inl, inr, Bool, true, false, List, [], ◌∷◌,
  ◌++◌, ◌==◌, str_eq, eq_iff, if◌then◌else◌, arith, Bool-cases, Holds, List-cases,
}
use mathlib.Core.List.{append_assoc}
use app_autoscaler.Prelude.Dict.{Dict}
use app_autoscaler.Hash.{fnv_hash}
use app_autoscaler.Models.{ok, err}
use app_autoscaler.Envelopes.{Envelope}
use app_autoscaler.InstanceMetrics.{own_apps}
use app_autoscaler.MetricsServer.{is_in}
use app_autoscaler.Gateway.{
  filter_envelopes, EnvelopeEmitter, Gateway, Move, retrieved, streamed, dispatched, emitted,
  pinged, accept, change, emit,
}

-- Whether the app falls to the index, of `suc n`.
abbrev pub falls_to : ℕ → ℕ → String → Bool
falls_to n i app = (fnv_hash app % suc n) == i

-- The collector of a node takes the apps that fall to its index.
pub own_apps_lem :
    (n i : ℕ) (app : String) (apps : List String)
    → falls_to n i app ≡ true
    → is_in app apps ≡ true
    → is_in app (own_apps n i apps) ≡ true
own_apps_lem n i app [] h k = ground arith
own_apps_lem n i app (a ∷ apps) h k = elim (Bool-cases (str_eq a app)) [
  | inl same ↦
      let h' : falls_to n i a ≡ true =
        subst (λ z. falls_to n i z ≡ true) (sym ((eq_iff a app).0 same)) h in
      rw (h', same) refl
  | inr different ↦
      let below = own_apps_lem n i app apps h (rw different at k) in
      elim (Bool-cases (falls_to n i a)) [ inl t ↦ rw (t, different) below | inr t ↦ rw t below ]
]

module _ {F : Type 0} where
  -- The envelopes of the apps that fall to an index.
  abbrev pub for_emitter : ℕ → ℕ → List (Envelope F) → List (Envelope F)
  for_emitter n i [] = []
  for_emitter n i (e ∷ es) =
      let rest = for_emitter n i es in if falls_to n i e.source_id then e ∷ rest else rest

  -- The apps after a move, and what it sends to the channel.
  abbrev pub next_apps : Move F → Dict Bool → Dict Bool
  next_apps (retrieved (ok apps')) apps = apps'
  next_apps (retrieved (err e)) apps = apps
  next_apps (streamed es) apps = apps
  next_apps dispatched apps = apps
  next_apps (emitted i) apps = apps
  next_apps (pinged i) apps = apps

  abbrev pub sent : Move F → Dict Bool → List (Envelope F)
  sent (retrieved r) apps = []
  sent (streamed es) apps = filter_envelopes apps es
  sent dispatched apps = []
  sent (emitted i) apps = []
  sent (pinged i) apps = []

  -- The envelopes that pass the nozzles in a run, with the apps that were known to each.
  abbrev pub passed : Dict Bool → List (Move F) → List (Envelope F)
  passed apps [] = []
  passed apps (m ∷ ms) = sent m apps ++ passed (next_apps m apps) ms

  -- What an emitter has written, what waits for it, and what is still in the channel for it.
  abbrev pub account : ℕ → ℕ → Gateway F → List (Envelope F)
  account n i g = ((g.emitters i).written ++ (g.emitters i).queue) ++ for_emitter n i g.channel

  pub for_emitter-append :
      (n i : ℕ) (xs ys : List (Envelope F))
      → for_emitter n i (xs ++ ys) ≡ for_emitter n i xs ++ for_emitter n i ys
  for_emitter-append n i [] ys = refl
  for_emitter-append n i (x ∷ xs) ys = elim (Bool-cases (falls_to n i x.source_id)) [
    | inl h ↦ rw h (ap (λ z. x ∷ z) (for_emitter-append n i xs ys))
    | inr h ↦ rw h (for_emitter-append n i xs ys)
  ]

  pub Holds-for_emitter :
      (n i : ℕ) (e : Envelope F) (es : List (Envelope F))
      → Holds e (for_emitter n i es)
      → Holds e es × (falls_to n i e.source_id ≡ true)
  Holds-for_emitter n i e [] h = elim h [ ]
  Holds-for_emitter n i e (x ∷ xs) h = elim (Bool-cases (falls_to n i x.source_id)) [
    | inl t ↦ elim (rw t at h) [
      | inl q ↦ (inl q, subst (λ z. falls_to n i z.source_id ≡ true) (sym q) t)
      | inr k ↦ let (g, s) = Holds-for_emitter n i e xs k in (inr g, s)
    ]
    | inr t ↦ let (g, s) = Holds-for_emitter n i e xs (rw t at h) in (inr g, s)
  ]

  -- What a move makes of a gateway.
  pub record Moved (n : ℕ) (m : Move F) (g g' : Gateway F) : Type 0 where
    pub num : g'.emitter_num ≡ suc n
    pub apps : g'.app_ids ≡ next_apps m g.app_ids
    pub given : (i : ℕ) → account n i g' ≡ account n i g ++ for_emitter n i (sent m g.app_ids)

  -- The dispatcher's round moves an envelope from the channel to the queue of its emitter.
  pub accept_lem :
      (n i : ℕ) (e : Envelope F) (es : List (Envelope F)) (em : EnvelopeEmitter F)
      → ((change (fnv_hash e.source_id % suc n) (accept e) (λ j. em) i).written
            ++ (change (fnv_hash e.source_id % suc n) (accept e) (λ j. em) i).queue)
          ++ for_emitter n i es
        ≡ (em.written ++ em.queue) ++ for_emitter n i (e ∷ es)
  accept_lem n i e es em = elim (Bool-cases (falls_to n i e.source_id)) [
    | inl h ↦
        let h' : (i == (fnv_hash e.source_id % suc n)) ≡ true = ground arith in
        rw (change, h', h)
          (ap (λ z. z ++ for_emitter n i es) (sym (append_assoc em.written em.queue (e ∷ [])))
            ∙ append_assoc (em.written ++ em.queue) (e ∷ []) (for_emitter n i es))
    | inr h ↦
        let h' : (i == (fnv_hash e.source_id % suc n)) ≡ false = ground arith in
        rw (change, h', h) refl
  ]

  emit_lem :
      (em : EnvelopeEmitter F) → (emit em).written ++ (emit em).queue ≡ em.written ++ em.queue
  emit_lem em = elim (List-cases em.queue) [
    | inl e ↦ rw (emit, e) (ap (λ z. em.written ++ z) e)
    | inr (x, es, e) ↦ rw (emit, e) (append_assoc em.written (x ∷ []) es)
  ]

  pub change_lem :
      (k i : ℕ) (ems : ℕ → EnvelopeEmitter F)
      → (change k emit ems i).written ++ (change k emit ems i).queue
        ≡ (ems i).written ++ (ems i).queue
  change_lem k i ems = elim (Bool-cases (i == k)) [
    | inl e ↦ rw (change, e) (emit_lem (ems i))
    | inr e ↦ rw (change, e) refl
  ]
