-- ===== src/Gateway.antt =====
-- metricsgateway/nozzle.go, dispatcher.go, emitter.go and appManager.go: the nozzles pass the envelopes of
-- some apps on to a channel, the dispatcher takes them off it, and gives each to the emitter of its app,
-- which writes it to a node of the metrics server. A round of one of the loops is a move, and a run is any
-- sequence of moves. A send on a channel waits until there is room; here a round takes place when it has
-- room, and so the queues have no bound. The envelopes that an emitter gave to its connection are a log,
-- whether or not the connection took them, since the loop drops the error.
pub mod Accounts
pub mod Delivered
mod Examples
use app_autoscaler.Prelude.{
  ℕ, zero, suc, ◌%◌, String, Bool, true, false, ◌||◌, Option, none, some, List, [], ◌∷◌, ◌++◌, ◌==◌,
  str_eq, if◌then◌else◌,
}
use app_autoscaler.Prelude.Dict.{Dict, lookup}
use app_autoscaler.Hash.{fnv_hash}
use app_autoscaler.Models.{Result, ok, err}
use app_autoscaler.TsdCache.{◌>>=◌}
use app_autoscaler.Envelopes.{Envelope, GaugeValue, gauge, timer, other}

-- METRICS_FORWARDER_ORIGIN
abbrev pub metrics_forwarder_origin : String
metrics_forwarder_origin = "autoscaler_metrics_forwarder"

module _ {F : Type 0} where
  abbrev is_container : Dict (GaugeValue F) → Bool
  is_container metrics = elim (lookup "memory_quota" metrics) [ none ↦ false | some quota ↦ true ]

  -- Whether filterEnvelopes sends an envelope of one of the apps.
  abbrev pub is_wanted : Envelope F → Bool
  is_wanted e = elim e.message [
    | gauge metrics ↦ is_container metrics || str_eq e.origin metrics_forwarder_origin
    | timer name start stop ↦ str_eq name "http"
    | other ↦ false
  ]

  -- The envelopes that filterEnvelopes sends, with what GetAppIDs answers.
  unfoldable pub filter_envelopes : Dict Bool → List (Envelope F) → List (Envelope F)
  filter_envelopes apps [] = []
  filter_envelopes apps (e ∷ es) =
      let rest = filter_envelopes apps es in
      elim (lookup e.source_id apps) [
        | none ↦ rest
        | some b ↦ if is_wanted e then e ∷ rest else rest
      ]

-- getEmitter, for fewer than 2 ^ 32 emitters; `none` is the panic of a division by 0.
unfoldable pub get_emitter : ℕ → String → Option ℕ
get_emitter zero app = none
get_emitter (suc n) app = some (fnv_hash app % suc n)

pub record EnvelopeEmitter (F : Type 0) : Type 0 where
  pub queue : List (Envelope F)
  pub written : List (Envelope F)

pub record Gateway (F : Type 0) : Type 0 where
  pub app_ids : Dict Bool
  pub channel : List (Envelope F)
  pub emitter_num : ℕ
  pub emitters : ℕ → EnvelopeEmitter F

pub data Move (F : Type 0) : Type 0 where
  retrieved : Result (Dict Bool) → Move F
  streamed : List (Envelope F) → Move F
  dispatched : Move F
  emitted : ℕ → Move F
  pinged : ℕ → Move F

module _ {F : Type 0} where
  -- A round of startAppIDsRetrieve.
  unfoldable pub retrieve_app_ids : Result (Dict Bool) → Gateway F → Gateway F
  retrieve_app_ids (err e) g = g
  retrieve_app_ids (ok apps) g = record g { app_ids = apps }

  -- Accept
  abbrev pub accept : Envelope F → EnvelopeEmitter F → EnvelopeEmitter F
  accept e em = record em { queue = em.queue ++ e ∷ [] }

  abbrev pub change :
      ℕ → (EnvelopeEmitter F → EnvelopeEmitter F) → (ℕ → EnvelopeEmitter F) → ℕ → EnvelopeEmitter F
  change i f emitters j = if j == i then f (emitters j) else emitters j

  -- What dispatch does with what it finds in the channel.
  abbrev pub next : List (Envelope F) → Gateway F → Option (Gateway F)
  next [] g = some g
  next (e ∷ es) g = get_emitter g.emitter_num e.source_id >>= λ i.
      some (record g { channel = es; emitters = change i (accept e) g.emitters })

  -- A round of dispatch, which waits if there is nothing in the channel.
  unfoldable pub dispatch : Gateway F → Option (Gateway F)
  dispatch g = next g.channel g

  -- A round of startEmitEnvelope, which waits if there is nothing in the queue.
  abbrev pub emit : EnvelopeEmitter F → EnvelopeEmitter F
  emit em = elim em.queue [
    | [] ↦ em
    | e ∷ es ↦ record { queue = es; written = em.written ++ e ∷ [] }
  ]

  unfoldable pub move : Move F → Gateway F → Option (Gateway F)
  unfolding filter_envelopes retrieve_app_ids dispatch
  move (retrieved r) g = some (retrieve_app_ids r g)
  move (streamed es) g = some (record g { channel = g.channel ++ filter_envelopes g.app_ids es })
  move dispatched g = dispatch g
  move (emitted i) g = some (record g { emitters = change i emit g.emitters })
  move (pinged i) g = some g

  unfoldable pub move_all : List (Move F) → Gateway F → Option (Gateway F)
  unfolding move
  move_all [] g = some g
  move_all (m ∷ ms) g = move m g >>= λ g'. move_all ms g'
