-- ===== src/Gateway/Examples.antt =====
-- A gateway with two emitters.
use app_autoscaler.Prelude.{ℕ, String, ◌≡◌, refl, true, some, none, List, [], ◌∷◌, ◌++◌, Holds}
use app_autoscaler.Prelude.Int.{pos}
use app_autoscaler.Prelude.Dict.{lookup}
use app_autoscaler.Strconv.{bytes}
use app_autoscaler.Hash.{fnv_hash}
use app_autoscaler.Models.{ok, err, bad_conn}
use app_autoscaler.Envelopes.{Envelope, gauge, timer}
use app_autoscaler.InstanceMetrics.{own_apps}
use app_autoscaler.MetricsServer.{is_in}
use app_autoscaler.Gateway.{
  Gateway, Move, retrieved, streamed, dispatched, emitted, pinged, filter_envelopes, get_emitter,
  retrieve_app_ids, dispatch, move, move_all,
}
use app_autoscaler.Gateway.Accounts.{passed, for_emitter, account}
use app_autoscaler.Gateway.Delivered.{move_all_lem}

abbrev request : String → ℕ → Envelope ℕ
request app t = record {
  source_id = app;
  instance_id = "0";
  timestamp = pos t;
  origin = "";
  message = timer "http" (pos 1) (pos t);
}

-- A gauge of the platform that the autoscaler does not use.
abbrev unused : Envelope ℕ
unused = record {
  source_id = "a";
  instance_id = "0";
  timestamp = pos 5;
  origin = "";
  message = gauge (("disk", record { unit = "B"; value = 7 }) ∷ []);
}

abbrev moves : List (Move ℕ)
moves =
    retrieved (ok (("a", true) ∷ ("b", true) ∷ []))
    ∷ streamed (request "a" 2 ∷ unused ∷ request "c" 3 ∷ request "b" 4 ∷ request "a" 6 ∷ [])
    ∷ dispatched
    ∷ retrieved (err bad_conn)
    ∷ emitted 0
    ∷ emitted 1
    ∷ dispatched
    ∷ pinged 0
    ∷ []

abbrev idle_gateway : Gateway ℕ
idle_gateway = record {
  app_ids = [];
  channel = [];
  emitter_num = 2;
  emitters = λ i. record { queue = []; written = [] };
}

moves_pass : passed idle_gateway.app_ids moves ≡ request "a" 2 ∷ request "b" 4 ∷ request "a" 6 ∷ []
unfolding filter_envelopes lookup
moves_pass = refl

moves_run :
    (elim (move_all moves idle_gateway) [ none ↦ [] | some g ↦ (g.emitters 0).written ])
      ++ (elim (move_all moves idle_gateway) [ none ↦ [] | some g ↦ (g.emitters 1).written ])
    ≡ request "a" 2 ∷ []
unfolding move_all move filter_envelopes retrieve_app_ids dispatch get_emitter lookup fnv_hash bytes
moves_run = refl

move_all_lem_example :
    (g' : Gateway ℕ) × (move_all moves idle_gateway ≡ some g')
    × ((i : ℕ) → account 1 i g' ≡ for_emitter 1 i (passed idle_gateway.app_ids moves))
    × ((i : ℕ) (e : Envelope ℕ) (apps : List String)
        → Holds e (g'.emitters i).written
        → is_in e.source_id apps ≡ true
        → is_in e.source_id (own_apps 1 i apps) ≡ true)
move_all_lem_example = move_all_lem 1 moves idle_gateway refl refl (λ i. refl)
