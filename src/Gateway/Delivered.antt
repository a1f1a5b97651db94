-- ===== src/Gateway/Delivered.antt =====
-- Which envelopes each emitter gets in any run of the gateway, and that its node takes their apps.
use app_autoscaler.Prelude.{
  ℕ, suc, ◌%◌, String, ◌≡◌, refl, sym, ap, ◌∙◌, subst, inl, inr, true, some, List, [], ◌∷◌, ◌++◌,
  Holds, Holds-append, List-cases,
}
use mathlib.Core.List.{append-nil, append_assoc}
use app_autoscaler.Hash.{fnv_hash}
use app_autoscaler.Models.{ok, err}
use app_autoscaler.Envelopes.{Envelope}
use app_autoscaler.InstanceMetrics.{own_apps}
use app_autoscaler.MetricsServer.{is_in}
use app_autoscaler.Gateway.{
  filter_envelopes, get_emitter, Gateway, Move, retrieved, streamed, dispatched, emitted, pinged,
  retrieve_app_ids, accept, change, next, dispatch, emit, move, move_all,
}
use app_autoscaler.Gateway.Accounts.{
  own_apps_lem, for_emitter, next_apps, sent, passed, account, for_emitter-append,
  Holds-for_emitter, Moved, accept_lem, change_lem,
}

module _ {F : Type 0} where
  dispatch_lem :
      (n : ℕ) (g : Gateway F)
      → g.emitter_num ≡ suc n
      → (g' : Gateway F) × (dispatch g ≡ some g') × Moved n dispatched g g'
  unfolding dispatch get_emitter
  dispatch_lem n g v = elim (List-cases g.channel) [
    | inl e ↦ (
      g,
      subst (λ z. next z g ≡ some g) (sym e) refl,
      record { num = v; apps = refl; given = λ i. sym (append-nil (account n i g)) },
    )
    | inr (x, es, e) ↦
        let k = fnv_hash x.source_id % suc n in
        (
          record g { channel = es; emitters = change k (accept x) g.emitters },
          subst
              (λ z.
                next z g
                ≡ some (record g { channel = es; emitters = change k (accept x) g.emitters }))
              (sym e) (rw (next, v) refl),
          record {
            num = v;
            apps = refl;
            given = λ i.
                accept_lem n i x es (g.emitters i)
                ∙ ap (λ z. ((g.emitters i).written ++ (g.emitters i).queue) ++ for_emitter n i z)
                    (sym e)
                ∙ sym (append-nil (account n i g));
          },
        )
  ]

  move_lem :
      (n : ℕ) (m : Move F) (g : Gateway F)
      → g.emitter_num ≡ suc n
      → (g' : Gateway F) × (move m g ≡ some g') × Moved n m g g'
  unfolding move retrieve_app_ids
  move_lem n (retrieved (ok apps)) g v = (
    record g { app_ids = apps },
    refl,
    record { num = v; apps = refl; given = λ i. sym (append-nil (account n i g)) },
  )
  move_lem n (retrieved (err e)) g v =
      (g, refl, record { num = v; apps = refl; given = λ i. sym (append-nil (account n i g)) })
  move_lem n (streamed es) g v = (
    record g { channel = g.channel ++ filter_envelopes g.app_ids es },
    refl,
    record {
      num = v;
      apps = refl;
      given = λ i.
          ap (λ z. ((g.emitters i).written ++ (g.emitters i).queue) ++ z)
            (for_emitter-append n i g.channel (filter_envelopes g.app_ids es))
          ∙ sym (
              append_assoc ((g.emitters i).written ++ (g.emitters i).queue)
                (for_emitter n i g.channel) (for_emitter n i (filter_envelopes g.app_ids es)));
    },
  )
  move_lem n dispatched g v = dispatch_lem n g v
  move_lem n (emitted k) g v = (
    record g { emitters = change k emit g.emitters },
    refl,
    record {
      num = v;
      apps = refl;
      given = λ i.
          ap (λ z. z ++ for_emitter n i g.channel) (change_lem k i g.emitters)
          ∙ sym (append-nil (account n i g));
    },
  )
  move_lem n (pinged k) g v =
      (g, refl, record { num = v; apps = refl; given = λ i. sym (append-nil (account n i g)) })

  run_lem :
      (n : ℕ) (ms : List (Move F)) (g : Gateway F)
      → g.emitter_num ≡ suc n
      → (g' : Gateway F) × (move_all ms g ≡ some g')
        × ((i : ℕ) → account n i g' ≡ account n i g ++ for_emitter n i (passed g.app_ids ms))
  unfolding move_all
  run_lem n [] g v = (g, refl, λ i. sym (append-nil (account n i g)))
  run_lem n (m ∷ ms) g v =
      let (g₁, e, a) = move_lem n m g v in
      let (g', f, given) = run_lem n ms g₁ a.num in
      (
        g',
        rw (move_all, e) f,
        λ i.
            given i
            ∙ ap (λ z. account n i g₁ ++ for_emitter n i (passed z ms)) a.apps
            ∙ ap (λ z. z ++ for_emitter n i (passed (next_apps m g.app_ids) ms)) (a.given i)
            ∙ append_assoc (account n i g) (for_emitter n i (sent m g.app_ids))
                (for_emitter n i (passed (next_apps m g.app_ids) ms))
            ∙ ap (λ z. account n i g ++ z)
                (sym
                  (for_emitter-append n i (sent m g.app_ids) (passed (next_apps m g.app_ids) ms))),
      )

  -- Let a gateway have at least one emitter, and nothing in its channel and its queues, and let nothing be written.
  -- Any run of its loops, in any order, goes through without a panic. What an emitter has written, what waits
  -- in its queue, and what is in the channel for it are then the envelopes that passed the nozzles and
  -- whose apps fall to its index, each of them once and in the order in which they passed. A collector with the
  -- same index among as many nodes of the metrics server takes the app of every envelope that the
  -- emitter has written, if the app is among those that it reads.
  pub move_all_lem :
      (n : ℕ) (ms : List (Move F)) (g : Gateway F)
      → g.emitter_num ≡ suc n
      → g.channel ≡ []
      → ((i : ℕ) → g.emitters i ≡ record { queue = []; written = [] })
      → (g' : Gateway F) × (move_all ms g ≡ some g')
        × ((i : ℕ) → account n i g' ≡ for_emitter n i (passed g.app_ids ms))
        × ((i : ℕ) (e : Envelope F) (apps : List String)
            → Holds e (g'.emitters i).written
            → is_in e.source_id apps ≡ true
            → is_in e.source_id (own_apps n i apps) ≡ true)
  move_all_lem n ms g v empty idle =
      let (g', r, given) = run_lem n ms g v in
      let all : (i : ℕ) → account n i g' ≡ for_emitter n i (passed g.app_ids ms) = λ i.
        given i
        ∙ ap (λ z. z ++ for_emitter n i (passed g.app_ids ms))
            (ap (λ z. ((g.emitters i).written ++ (g.emitters i).queue) ++ for_emitter n i z) empty
              ∙ ap (λ z. (z.written ++ z.queue) ++ []) (idle i)) in
      (
        g',
        r,
        all,
        λ i e apps h k.
            let em = g'.emitters i in
            let h₁ : Holds e (account n i g') =
              (Holds-append e (em.written ++ em.queue) (for_emitter n i g'.channel)).1
                (inl ((Holds-append e em.written em.queue).1 (inl h))) in
            let (_, t) =
              Holds-for_emitter n i e (passed g.app_ids ms) (subst (Holds e) (all i) h₁) in
            own_apps_lem n i e.source_id apps t k,
      )
