-- ===== src/Http.antt =====
-- What the servers use of net/http: the parameters of a query string, and responses. The parsing of start,
-- end and order is the one of scalingengine/server/scaling_handler.go, metricscollector/server/metric_handler.go
-- and eventgenerator/server/eventgen_handler.go, which have the same lines for it. The encoding of a value
-- in JSON is given, as `encode`.
pub mod Params
use app_autoscaler.Prelude.{
  ℕ, String, Bool, true, false, Option, none, some, List, [], ◌∷◌, ◌++◌, str_eq, if◌then◌else◌,
}
use app_autoscaler.Prelude.Int.{ℤ}
use app_autoscaler.Prelude.Dict.{Dict, lookup, insert}
use app_autoscaler.Strconv.{◌⧺◌, parse_int, eq_upper}
use app_autoscaler.Models.{Result, ok, err}
use app_autoscaler.EngineDb.{OrderType, asc, desc}

-- url.Values
abbrev pub Query : Type 0
Query = Dict (List String)

abbrev pub found_or_none : Option (List String) → List String
found_or_none none = []
found_or_none (some values) = values

-- r.URL.Query()[key]
unfoldable pub param : String → Query → List String
param key q = found_or_none (lookup key q)

-- Values.Add
unfoldable pub add_param : String → String → Query → Query
add_param key value q = insert key (found_or_none (lookup key q) ++ value ∷ []) q

-- An error response has a code and a message (models.ErrorResponse). `panics` is a crash of the handler.
pub data Response : Type 0 where
  refused : ℕ → String → String → Response
  answered : ℕ → String → Response
  redirected : String → Query → Response  -- to a host, with the path of the request
  panics : Response

abbrev pub status : Response → Option ℕ
status (refused n code text) = some n
status (answered n body) = some n
status (redirected host q) = some 302
status panics = none

-- A value from the query string, or the message of the refusal.
pub data Checked {ℓ} (A : Type ℓ) : Type ℓ where
  good : A → Checked A
  bad : String → Checked A

infixl 5 ◌>>=◌
abbrev pub ◌>>=◌ {ℓ κ} : {A : Type ℓ} {B : Type κ} → Checked A → (A → Checked B) → Checked B
good a >>= f = f a
bad text >>= f = bad text

-- The parameters start and end.
unfoldable pub time_param : String → ℤ → List String → Checked ℤ
time_param name default [] = good default
time_param name default (s ∷ []) = elim (parse_int 64 s) [
  | none ↦ bad ("Error parsing " ⧺ name ⧺ " time")
  | some t ↦ good t
]
time_param name default (s ∷ t ∷ more) = bad ("Incorrect " ⧺ name ⧺ " parameter in query string")

abbrev pub order_message : String → String
order_message quote =
    "Incorrect order parameter in query string, the value can only be " ⧺ quote ⧺ "ASC" ⧺ quote
    ⧺ " or " ⧺ quote ⧺ "DESC" ⧺ quote

-- The parameter order. Two of the handlers quote the words that they allow.
unfoldable pub order_param : String → OrderType → List String → Checked OrderType
order_param quote default [] = good default
order_param quote default (s ∷ []) =
    if eq_upper s "DESC"
    then good desc
    else if eq_upper s "ASC"
    then good asc
    else bad (order_message quote)
order_param quote default (s ∷ t ∷ more) = bad "Incorrect order parameter in query string"

-- WriteJSONResponse with a status of 400, or the rest of the handler.
abbrev pub or_refuse {ℓ} : {A : Type ℓ} → Checked A → (A → Response) → Response
or_refuse (bad text) handle = refused 400 "Bad-Request" text
or_refuse (good a) handle = handle a

-- json.Marshal and Write, with the message of the refusal.
unfoldable pub write_json {ℓ} : {A : Type ℓ} → (A → Option String) → String → A → Response
write_json encode text a = elim (encode a) [
  | none ↦ refused 500 "Interal-Server-Error" text
  | some body ↦ answered 200 body
]
