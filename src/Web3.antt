-- ===== src/Web3.antt =====
-- web3/src/client.rs: the methods of an Ethereum node. `Web3` is what a client of the node can ask for,
-- and `over` asks for it over JSON-RPC.
pub mod Types
pub mod JsonRpc
pub mod Ids
use guac_rs.Prelude.{ℕ, Bool, Option, none, some, String, append_text, List, [], ◌∷◌}
use guac_rs.External.{Uint256, Address, Bytes}
use guac_rs.Outcome.{Action}
use Types.{Hex, Log, NewFilter, TransactionRequest, TransactionResponse}
use JsonRpc.{
  Params, texts, filters, transactions, Rpc, HttpClient, Wire, Decoders, Response, request_method,
  awaited,
}

-- `eth_get_filter_changes` is one of the requests that its stream makes, one a second.
pub record Web3 (W : Type 0) : Type 0 where
  pub eth_accounts : Action W (List Address)
  pub net_version : Action W String
  pub eth_new_filter : NewFilter → Action W Uint256
  pub eth_uninstall_filter : Uint256 → Action W Bool
  pub eth_get_filter_changes : Uint256 → Action W (List Log)
  pub eth_get_logs : NewFilter → Action W (List Log)
  pub eth_get_transaction_count : Address → Action W Uint256
  pub eth_gas_price : Action W Uint256
  pub eth_get_balance : Address → Action W Uint256
  pub eth_send_transaction : List TransactionRequest → Action W Uint256
  pub eth_call : TransactionRequest → Action W Bytes
  pub eth_block_number : Action W Uint256
  pub eth_send_raw_transaction : Bytes → Action W Uint256
  pub eth_get_transaction_by_hash : Uint256 → Action W (Option TransactionResponse)
  pub evm_snapshot : Action W Uint256
  pub evm_revert : Uint256 → Action W Uint256

-- `Web3::new`, and the body of each method. A method here is called and its future awaited at one
-- moment; where the code makes several futures before it awaits the first, as in
-- `send_raw_transaction`, their numbers are taken in the order of the calls instead (Ids).
module _ {W Reply Value : Type 0} (hex : Hex) (checked : Bool) (wire : Wire W Reply)
    (decoders : Decoders Reply Value) where
  abbrev asking :
      HttpClient
      → {R : Type 0} → (Reply → Option (Response R Value))
      → String
      → Params
      → Action (Rpc W) R
  asking client decode method params =
      awaited (request_method wire client decode checked method params)

  abbrev pub over : HttpClient → Web3 (Rpc W)
  over client =
      let uint = asking client decoders.uint_of in
      let logs = asking client decoders.logs_of in
      record {
        eth_accounts = asking client decoders.addresses_of "eth_accounts" (texts []);
        net_version = asking client decoders.text_of "net_version" (texts []);
        eth_new_filter = λ new_filter. uint "eth_newFilter" (filters (new_filter ∷ []));
        eth_uninstall_filter = λ filter.
            asking client decoders.bool_of "eth_uninstallFilter"
              (texts (hex.lower_hex filter ∷ []));
        eth_get_filter_changes =
            λ filter. logs "eth_getFilterChanges" (texts (hex.lower_hex filter ∷ []));
        eth_get_logs = λ new_filter. logs "eth_getLogs" (filters (new_filter ∷ []));
        eth_get_transaction_count = λ address.
            uint "eth_getTransactionCount" (texts (hex.address_text address ∷ "latest" ∷ []));
        eth_gas_price = uint "eth_gasPrice" (texts []);
        eth_get_balance =
            λ address. uint "eth_getBalance" (texts (hex.address_text address ∷ "latest" ∷ []));
        eth_send_transaction = λ requests. uint "eth_sendTransaction" (transactions requests);
        eth_call = λ transaction.
            asking client decoders.data_of "eth_call" (transactions (transaction ∷ []));
        eth_block_number = uint "eth_blockNumber" (texts []);
        eth_send_raw_transaction = λ bytes.
            uint "eth_sendRawTransaction"
              (texts (append_text "0x" (hex.bytes_to_hex_str bytes) ∷ []));
        eth_get_transaction_by_hash = λ hash.
            asking client decoders.transaction_of "eth_getTransactionByHash"
              (texts (hex.lower_hex_66 hash ∷ []));
        evm_snapshot = uint "evm_snapshot" (texts []);
        evm_revert = λ snapshot_id. uint "evm_revert" (texts (hex.lower_hex_66 snapshot_id ∷ []));
      }
