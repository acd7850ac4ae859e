-- ===== src/HttpClient/Wire.antt =====
-- The client against the server: guac_http/src/counterparty_client.rs calls the routes of
-- guac_http/src/counterparty_server.rs.
use guac_rs.Prelude.{ℕ, ◌≡◌, refl, ◌≢◌, Option, none, some, String, arith}
use guac_rs.External.{Uint256, Address, Signature}
use guac_rs.Types.{NewChannelTx, ReDrawTx, UpdateTx, Error, http_error, foreign}
use guac_rs.Outcome.{Outcome, Action, ok, err, panic}
use guac_rs.Node.{CounterpartyApi}
use guac_rs.HttpServer.{
  Request, Json, HttpResponse, ok_json, forbidden_body, conflict_json, internal_server_error,
  convert_error, signature_json, sequence_json, serve, respond, unit_json,
}
use guac_rs.HttpClient.{
  read_json, read_other, ClientResponse, Network, Serde, as_client, read_result, read_nothing,
  exchange, propose_channel, propose_re_draw, notify_channel_opened, notify_re_draw,
  receive_payment,
}

-- How a response of the server arrives.
abbrev pub arrived : HttpResponse → ClientResponse
arrived (ok_json json) = record { status = 200; body = read_json json }
arrived (forbidden_body message) = record { status = 403; body = read_other }
arrived (conflict_json seq) = record { status = 409; body = read_json (Json.number seq) }
arrived internal_server_error = record { status = 500; body = read_other }

-- A server that breaks off leaves the client with some error of the connection.
abbrev pub carried : {W : Type 0} → ℕ → Option HttpResponse × W → Outcome ClientResponse × W
carried broken (some response, w) = (ok (arrived response), w)
carried broken (none, w) = (err (foreign broken), w)

-- The url leads to a server that answers with `api`.
pub record Reaches {W SocketAddr : Type 0} (network : Network W SocketAddr)
    (api : CounterpartyApi W) (url : String) : Type 0 where
  pub address : SocketAddr
  pub broken : ℕ
  pub parses : network.parse url ≡ ok address
  pub connects : (w : W) → network.connect address w ≡ (ok tt, w)
  pub posts :
      (request : Request) (w : W)
      → network.post address request w ≡ carried broken (serve api request w)

-- Documented behaviour of serde: what was written is read back.
pub record ReadsBack (serde : Serde) : Type 0 where
  pub signature_back : (s : Signature) → serde.signature_of (signature_json s) ≡ some s
  pub sequence_back : (r : Option Uint256) → serde.sequence_of (sequence_json r) ≡ some r

-- What a call over HTTP gives, by what the call of the handler gives.
abbrev pub Carries : {A W : Type 0} → Outcome A × W → Outcome A × W → Type 0
Carries (ok a, w) over_http = over_http ≡ (ok a, w)
Carries (err e, w) over_http =
    (over_http ≡ (err (http_error (arrived (convert_error e)).status), w))
    × ((arrived (convert_error e)).status ≢ 200)
Carries (panic, w) (r, w') = ((n : ℕ) × (r ≡ err (foreign n))) × (w' ≡ w)

-- An action on what another action gave.
abbrev then_read : {W A B : Type 0} → (A → Action W B) → Outcome A × W → Outcome B × W
then_read next p = elim p.0 [ ok a ↦ next a p.1 | err e ↦ (err e, p.1) | panic ↦ (panic, p.1) ]

Carries-then_read :
    {W A B : Type 0} (p : Outcome B × W) (next : A → Action W B) {q r : Outcome A × W}
    → q ≡ r
    → Carries p (then_read next r)
    → Carries p (then_read next q)
Carries-then_read p next e h = rw e h

convert_error_refuses : (e : Error) → (arrived (convert_error e)).status ≢ 200
unfolding convert_error
convert_error_refuses e = ground arith

-- The client reads what the route wrote.
read_result-Carries :
    {W A : Type 0} (broken : ℕ) (json : A → Json) (decode : Json → Option A)
    → ((a : A) → decode (json a) ≡ some a)
    → (p : Outcome A × W)
    → Carries p (then_read (read_result decode) (carried broken (respond json p.0, p.1)))
read_result-Carries broken json decode back (ok a, w) = rw (back a) refl
read_result-Carries broken json decode back (err e, w) = ground (arith, convert_error_refuses e)
read_result-Carries broken json decode back (panic, w) = ((broken, refl), refl)

-- The same for the routes whose result says nothing.
read_nothing-Carries :
    {W : Type 0} (broken : ℕ) (p : Outcome (Unit {0}) × W)
    → Carries p (then_read read_nothing (carried broken (respond unit_json p.0, p.1)))
read_nothing-Carries broken (ok a, w) = refl
read_nothing-Carries broken (err e, w) = ground (arith, convert_error_refuses e)
read_nothing-Carries broken (panic, w) = ((broken, refl), refl)

module _ {W SocketAddr : Type 0} (network : Network W SocketAddr) (serde : Serde)
    (api : CounterpartyApi W) (url : String) (reaches : Reaches network api url) where
  exchange-carried :
      (request : Request) (w : W)
      → exchange network serde url request w ≡ carried reaches.broken (serve api request w)
  exchange-carried request w =
      ground (arith, reaches.parses, reaches.connects w, reaches.posts request w)

  module _ (back : ReadsBack serde) (from : Address) where
    propose_channel-Carries :
        (tx : NewChannelTx) (w : W)
        → Carries (api.propose_channel from "" tx w) (propose_channel network serde from url tx w)
    unfolding propose_channel serve
    propose_channel-Carries tx w =
        let p = api.propose_channel from "" tx w in
        Carries-then_read p (read_result serde.signature_of)
          (exchange-carried (Request.propose_channel from tx) w)
          (read_result-Carries reaches.broken signature_json serde.signature_of back.signature_back
            p)

    propose_re_draw-Carries :
        (tx : ReDrawTx) (w : W)
        → Carries (api.propose_re_draw from "" tx w) (propose_re_draw network serde from url tx w)
    unfolding propose_re_draw serve
    propose_re_draw-Carries tx w =
        let p = api.propose_re_draw from "" tx w in
        Carries-then_read p (read_result serde.signature_of)
          (exchange-carried (Request.propose_re_draw from tx) w)
          (read_result-Carries reaches.broken signature_json serde.signature_of back.signature_back
            p)

    pub receive_payment-Carries :
        (tx : UpdateTx) (w : W)
        → Carries (api.receive_payment from "" tx w) (receive_payment network serde from url tx w)
    unfolding receive_payment serve
    receive_payment-Carries tx w =
        let p = api.receive_payment from "" tx w in
        Carries-then_read p (read_result serde.sequence_of)
          (exchange-carried (Request.receive_payment from tx) w)
          (read_result-Carries reaches.broken sequence_json serde.sequence_of back.sequence_back p)

    notify_channel_opened-Carries :
        (w : W)
        → Carries
            (api.notify_channel_opened from "" w)
            (notify_channel_opened network serde from url w)
    unfolding notify_channel_opened serve
    notify_channel_opened-Carries w =
        let p = api.notify_channel_opened from "" w in
        Carries-then_read p read_nothing (exchange-carried (Request.notify_channel_opened from) w)
          (read_nothing-Carries reaches.broken p)

    notify_re_draw-Carries :
        (w : W) → Carries (api.notify_re_draw from "" w) (notify_re_draw network serde from url w)
    unfolding notify_re_draw serve
    notify_re_draw-Carries w =
        let p = api.notify_re_draw from "" w in
        Carries-then_read p read_nothing (exchange-carried (Request.notify_re_draw from) w)
          (read_nothing-Carries reaches.broken p)

  -- Given that serde reads back what it wrote and that the url leads to a server that answers with
  -- the handlers `api` (a response that breaks off is an error of the connection): each of the five
  -- calls of the client leaves the world as the handler called directly leaves it. It returns the
  -- handler's result if there is one; it fails with the status of the response, which is not 200,
  -- if the handler fails; and it fails with an error of the connection if the handler panics.
  pub as_client-Carries :
      ReadsBack serde
      → (from : Address) (n : NewChannelTx) (r : ReDrawTx) (u : UpdateTx) (w : W)
      → let client = as_client network serde in
        Carries (api.propose_channel from "" n w) (client.propose_channel from url n w)
        × Carries (api.propose_re_draw from "" r w) (client.propose_re_draw from url r w)
        × Carries (api.notify_channel_opened from "" w) (client.notify_channel_opened from url w)
        × Carries (api.notify_re_draw from "" w) (client.notify_re_draw from url w)
        × Carries (api.receive_payment from "" u w) (client.receive_payment from url u w)
  as_client-Carries back from n r u w = (
    propose_channel-Carries back from n w,
    propose_re_draw-Carries back from r w,
    notify_channel_opened-Carries back from w,
    notify_re_draw-Carries back from w,
    receive_payment-Carries back from u w,
  )
