-- ===== src/HttpClient.antt =====
-- guac_http/src/counterparty_client.rs: the calls of the other node over HTTP. The network and serde
-- are not in the repository: they are arguments. A request is sent with its path and its body.
pub mod Wire
use guac_rs.Prelude.{ℕ, Option, String, ◌==◌, if◌then◌else◌}
use guac_rs.External.{Uint256, Address, Signature}
use guac_rs.Types.{NewChannelTx, ReDrawTx, UpdateTx, Error, http_error, foreign}
use guac_rs.Outcome.{Outcome, Action, pure, raise, lift, or_raise, ◌>>=◌, ◌>>◌}
use guac_rs.Node.{CounterpartyApi}
use guac_rs.HttpServer.{Request, Json}

-- What comes of reading a body: JSON, something else, or an error of the connection.
pub data Body : Type 0 where
  read_json : Json → Body
  read_other : Body
  unreadable : ℕ → Body

-- A response as it arrives, with what reading its body gives.
pub record ClientResponse : Type 0 where
  pub status : ℕ
  pub body : Body

-- `SocketAddr::from_str`, `TcpStream::connect`, and a POST over the connection.
pub record Network (W SocketAddr : Type 0) : Type 0 where
  pub parse : String → Outcome SocketAddr
  pub connect : SocketAddr → Action W (Unit {0})
  pub post : SocketAddr → Request → Action W ClientResponse

-- How serde reads the types of the results.
pub record Serde : Type 0 where
  pub signature_of : Json → Option Signature
  pub sequence_of : Json → Option (Option Uint256)

-- The error that a status other than 200 is turned into, once the body has been read.
abbrev refusal : ℕ → Body → Error
refusal status (unreadable n) = foreign n
refusal status (read_json json) = http_error status
refusal status read_other = http_error status

abbrev pub verify_client_error : {W : Type 0} → ClientResponse → Action W ClientResponse
verify_client_error response =
    if response.status == 200 then pure response else raise (refusal response.status response.body)

-- `response.json()`
abbrev read_body : {W A : Type 0} → (Json → Option A) → Body → Action W A
read_body decode (read_json json) = or_raise (decode json) (foreign 0)
read_body decode read_other = raise (foreign 0)
read_body decode (unreadable n) = raise (foreign n)

-- What follows the response of a call with a result, and of one without.
abbrev pub read_result : {W A : Type 0} → (Json → Option A) → ClientResponse → Action W A
read_result decode answer = do response ← verify_client_error answer; read_body decode response.body

abbrev pub read_nothing : {W : Type 0} → ClientResponse → Action W (Unit {0})
read_nothing answer = do _ ← verify_client_error answer; pure tt

module _ {W SocketAddr : Type 0} (network : Network W SocketAddr) (serde : Serde) where
  -- What every call begins with.
  abbrev pub exchange : String → Request → Action W ClientResponse
  exchange to_url request = do
    to_url ← lift (network.parse to_url)
    network.connect to_url
    network.post to_url request

  unfoldable pub propose_channel : Address → String → NewChannelTx → Action W Signature
  propose_channel from_address to_url new_channel_tx = do
    answer ← exchange to_url (Request.propose_channel from_address new_channel_tx)
    read_result serde.signature_of answer

  unfoldable pub propose_re_draw : Address → String → ReDrawTx → Action W Signature
  propose_re_draw from_address to_url re_draw_tx = do
    answer ← exchange to_url (Request.propose_re_draw from_address re_draw_tx)
    read_result serde.signature_of answer

  unfoldable pub notify_channel_opened : Address → String → Action W (Unit {0})
  notify_channel_opened from_address to_url = do
    answer ← exchange to_url (Request.notify_channel_opened from_address)
    read_nothing answer

  unfoldable pub notify_re_draw : Address → String → Action W (Unit {0})
  notify_re_draw from_address to_url = do
    answer ← exchange to_url (Request.notify_re_draw from_address)
    read_nothing answer

  unfoldable pub receive_payment : Address → String → UpdateTx → Action W (Option Uint256)
  receive_payment from_address to_url update_tx = do
    answer ← exchange to_url (Request.receive_payment from_address update_tx)
    read_result serde.sequence_of answer

  -- `impl CounterpartyApi for CounterpartyClient`
  abbrev pub as_client : CounterpartyApi W
  as_client = record {
    propose_channel = propose_channel;
    propose_re_draw = propose_re_draw;
    notify_channel_opened = notify_channel_opened;
    notify_re_draw = notify_re_draw;
    receive_payment = receive_payment;
  }
