-- ===== src/Web3/JsonRpc.antt =====
-- web3/src/jsonrpc: a request to an Ethereum node, its number, and the node's answer. The transport
-- (actix) and serde are not in the repository: they are arguments.
use guac_rs.Prelude.{
  ℕ, ◌+◌, ◌-◌, ◌%◌, ◌^◌, ◌==◌, ◌&&◌, ◌⊎◌, inl, inr, Bool, if◌then◌else◌, Option, String, List,
}
use guac_rs.External.{Uint256, Address, Bytes}
use guac_rs.Types.{foreign, rpc_error}
use guac_rs.Outcome.{ok, panic, Action, pure, raise, or_raise, ◌>>=◌}
use guac_rs.Web3.Types.{Log, NewFilter, TransactionRequest, TransactionResponse}

-- The parameters that the methods are called with.
pub data Params : Type 0 where
  texts : List String → Params
  filters : List NewFilter → Params
  transactions : List TransactionRequest → Params

pub record Request (T : Type 0) : Type 0 where
  pub id : ℕ
  pub jsonrpc : String
  pub method : String
  pub params : T

-- `Request::new`
abbrev pub new_request : {T : Type 0} → ℕ → String → T → Request T
new_request id method params = record { id = id; jsonrpc = "2.0"; method = method; params = params }

-- `code` is the bit pattern of an `i64`.
pub record RpcError (E : Type 0) : Type 0 where
  pub code : ℕ
  pub message : String
  pub error_data : Option E

pub data ResponseData (R E : Type 0) : Type 0 where
  error : RpcError E → ResponseData R E
  success : R → ResponseData R E

abbrev pub into_result : {R E : Type 0} → ResponseData R E → R ⊎ RpcError E
into_result (success result) = inl result
into_result (error e) = inr e

pub record Response (R E : Type 0) : Type 0 where
  pub id : E
  pub jsonrpc : String
  pub response_data : ResponseData R E

-- The client's state: its counter, an `u64`, and what the transport acts on.
pub record Rpc (W : Type 0) : Type 0 where
  pub id_counter : ℕ
  pub world : W

pub record HttpClient : Type 0 where
  pub url : String

-- A POST of a request; an error is one of the connection or the end of the second it may take.
pub record Wire (W Reply : Type 0) : Type 0 where
  pub post : String → Request Params → Action W Reply

-- How serde reads an answer with each type of result.
pub record Decoders (Reply Value : Type 0) : Type 0 where
  pub uint_of : Reply → Option (Response Uint256 Value)
  pub bool_of : Reply → Option (Response Bool Value)
  pub text_of : Reply → Option (Response String Value)
  pub data_of : Reply → Option (Response Bytes Value)
  pub addresses_of : Reply → Option (Response (List Address) Value)
  pub logs_of : Reply → Option (Response (List Log) Value)
  pub transaction_of : Reply → Option (Response (Option TransactionResponse) Value)

-- `*value += 1`: past the last `u64` a build with overflow checks panics, any other wraps around.
unfoldable pub next_id : {W : Type 0} → Bool → Action (Rpc W) ℕ
next_id checked s =
    if checked && (s.id_counter == 2 ^ 64 - 1)
    then (panic, s)
    else (ok ((s.id_counter + 1) % 2 ^ 64), record s { id_counter = (s.id_counter + 1) % 2 ^ 64 })

abbrev on_wire : {W A : Type 0} → Action W A → Action (Rpc W) A
on_wire m s = let (r, world) = m s.world in (r, record s { world = world })

abbrev returned : {S R E : Type 0} → R ⊎ RpcError E → Action S R
returned (inl result) = pure result
returned (inr e) = raise (rpc_error e.code e.message)

-- A call of `request_method` takes the number and builds the request at once; the future that it
-- returns sends the request when it is awaited.
unfoldable pub prepare : {W : Type 0} → Bool → String → Params → Action (Rpc W) (Request Params)
prepare checked method params = do id ← next_id checked; pure (new_request id method params)

module _ {W Reply Value R : Type 0} (wire : Wire W Reply) (client : HttpClient)
    (decode : Reply → Option (Response R Value)) where
  unfoldable pub send_request : Request Params → Action (Rpc W) R
  send_request payload = do
    reply ← on_wire (wire.post client.url payload)
    res ← or_raise (decode reply) (foreign 0)
    returned (into_result res.response_data)

  unfoldable pub request_method : Bool → String → Params → Action (Rpc W) (Action (Rpc W) R)
  request_method checked method params = do
    payload ← prepare checked method params
    pure (send_request payload)

-- A call whose future is awaited at once.
unfoldable pub awaited : {S A : Type 0} → Action S (Action S A) → Action S A
awaited m = do future ← m; future
