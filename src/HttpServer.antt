-- ===== src/HttpServer.antt =====
-- guac_http/src/counterparty_server.rs: the routes, which decode a request, call the handler and
-- turn its outcome into a response. actix and serde are not in the repository: a request arrives
-- decoded, and a response is its status with the value that it carries.
pub mod Safety
use guac_rs.Prelude.{ℕ, Option, none, some, String, List, [], ◌∷◌}
use guac_rs.External.{Uint256, Address, Signature, Num, Clarity}
use guac_rs.Types.{
  NewChannelTx, ReDrawTx, UpdateTx, Message, GuacError, forbidden, update_too_old, Error, guac,
}
use guac_rs.Outcome.{Outcome, ok, err, panic, Action}
use guac_rs.Node.{CounterpartyApi}

-- A request: the path, and the body that the route decodes.
pub data Request : Type 0 where
  propose_channel : Address → NewChannelTx → Request
  propose_re_draw : Address → ReDrawTx → Request
  notify_channel_opened : Address → Request
  notify_re_draw : Address → Request
  receive_payment : Address → UpdateTx → Request

pub data Json : Type 0 where
  signature : Signature → Json
  null : Json
  number : Uint256 → Json

pub data HttpResponse : Type 0 where
  ok_json : Json → HttpResponse  -- 200
  forbidden_body : Message → HttpResponse  -- 403
  conflict_json : Uint256 → HttpResponse  -- 409
  internal_server_error : HttpResponse  -- 500

unfoldable pub convert_error : Error → HttpResponse
convert_error (guac (forbidden message)) = forbidden_body message
convert_error (guac (update_too_old correct_seq)) = conflict_json correct_seq
convert_error _ = internal_server_error

-- `HttpResponse::Ok().json(res)` for each type of result
abbrev pub signature_json : Signature → Json
signature_json = signature

abbrev pub unit_json : Unit {0} → Json
unit_json _ = null

abbrev pub sequence_json : Option Uint256 → Json
sequence_json none = null
sequence_json (some seq) = number seq

-- The `then` of every route; a panic leaves the request without a response.
abbrev pub respond : {A : Type 0} → (A → Json) → Outcome A → Option HttpResponse
respond json (ok a) = some (ok_json (json a))
respond json (err e) = some (convert_error e)
respond json panic = none

abbrev pub answer : {S A : Type 0} → (A → Json) → Action S A → S → Option HttpResponse × S
answer json m s = let (r, s') = m s in (respond json r, s')

-- The routes of `init_server`; every handler is called with an empty url.
unfoldable pub serve : {S : Type 0} → CounterpartyApi S → Request → S → Option HttpResponse × S
serve api (propose_channel from tx) = answer signature_json (api.propose_channel from "" tx)
serve api (propose_re_draw from tx) = answer signature_json (api.propose_re_draw from "" tx)
serve api (notify_channel_opened from) = answer unit_json (api.notify_channel_opened from "")
serve api (notify_re_draw from) = answer unit_json (api.notify_re_draw from "")
serve api (receive_payment from tx) = answer sequence_json (api.receive_payment from "" tx)

-- The server over a sequence of requests, whoever sent them.
unfoldable pub serve_all : {S : Type 0} → CounterpartyApi S → List Request → S → S
serve_all api [] s = s
serve_all api (request ∷ rest) s = serve_all api rest (serve api request s).1

abbrev pub sender : Request → Address
sender (propose_channel from tx) = from
sender (propose_re_draw from tx) = from
sender (notify_channel_opened from) = from
sender (notify_re_draw from) = from
sender (receive_payment from tx) = from
