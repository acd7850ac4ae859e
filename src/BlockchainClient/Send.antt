-- ===== src/BlockchainClient/Send.antt =====
-- guac_http/src/blockchain_client.rs: calls of the contract that are sent as transactions.
use guac_rs.Prelude.{ℕ, Option, none, some, String, List, [], ◌∷◌}
use guac_rs.External.{Uint256, Address, Signature, Bytes}
use guac_rs.Types.{NewChannelTx, ReDrawTx}
use guac_rs.Task.{Task, done, then, just, join, Order}
use guac_rs.Outcome.{panic}
use guac_rs.Web3.{Web3}
use guac_rs.BlockchainClient.Contract.{Abi, Transaction}

-- The contract, and the account that pays.
pub record BlockchainClient : Type 0 where
  pub contract_address : Address
  pub own_address : Address
  pub secret : ℕ

-- The transaction of a call, before it is signed.
abbrev pub transaction_of :
    BlockchainClient → Address → Bytes → Uint256 → Uint256 → Uint256 → Transaction
transaction_of self to_address payload value gas_price nonce = record {
  to = to_address;
  nonce = nonce;
  gas_price = gas_price;
  gas_limit = 6721975;
  value = value;
  call_data = payload;
  signature = none;
}

-- `none` is a transaction that has no bytes.
abbrev pub submit : {W : Type 0} → Web3 W → Option Bytes → Task W Uint256
submit web3 none = done panic
submit web3 (some bytes) = just (web3.eth_send_raw_transaction bytes)

module _ {Token : Type 0} (abi : Abi Token) where
  -- The two signatures of a transaction, as the contract takes them; `none` is an `expect` that fails.
  abbrev pub with_signatures :
      Option Signature → Option Signature → (Token → Token → List Token) → Option (List Token)
  with_signatures (some s0) (some s1) tokens =
      some (tokens (abi.vec (abi.into_bytes s0)) (abi.vec (abi.into_bytes s1)))
  with_signatures _ _ tokens = none

  abbrev pub new_channel_tokens : NewChannelTx → Option (List Token)
  new_channel_tokens tx = with_signatures tx.signature_0 tx.signature_1 (λ s0 s1.
      abi.address tx.address_0
      ∷ abi.address tx.address_1
      ∷ abi.uint tx.balance_0
      ∷ abi.uint tx.balance_1
      ∷ abi.uint tx.expiration
      ∷ abi.uint tx.settling_period_length
      ∷ s0
      ∷ s1
      ∷ [])

  abbrev pub re_draw_tokens : ReDrawTx → Option (List Token)
  re_draw_tokens tx = with_signatures tx.signature_0 tx.signature_1 (λ s0 s1.
      abi.bytes tx.channel_id
      ∷ abi.uint tx.sequence_number
      ∷ abi.uint tx.old_balance_0
      ∷ abi.uint tx.old_balance_1
      ∷ abi.uint tx.new_balance_0
      ∷ abi.uint tx.new_balance_1
      ∷ abi.uint tx.expiration
      ∷ s0
      ∷ s1
      ∷ [])

  abbrev encoded : String → Option (List Token) → Option Bytes
  encoded signature none = none
  encoded signature (some tokens) = some (abi.encode_call signature tokens)

  abbrev pub new_channel_payload : NewChannelTx → Option Bytes
  new_channel_payload tx =
      encoded "depositThenNewChannel(address,address,uint256,uint256,uint256,uint256,bytes,bytes)"
        (new_channel_tokens tx)

  abbrev pub deposit_payload : ReDrawTx → Option Bytes
  deposit_payload tx =
      encoded
        "depositThenRedraw(bytes32,uint256,uint256,uint256,uint256,uint256,uint256,bytes,bytes)"
        (re_draw_tokens tx)

  abbrev withdraw_tokens : Uint256 → Option (List Token) → Option (List Token)
  withdraw_tokens amount none = none
  withdraw_tokens amount (some tokens) = some (abi.uint amount ∷ tokens)

  abbrev pub withdraw_payload : Uint256 → ReDrawTx → Option Bytes
  withdraw_payload amount tx =
      encoded
        "redrawThenWithdraw(uint256,bytes32,uint256,uint256,uint256,uint256,uint256,uint256,bytes,bytes)"
        (withdraw_tokens amount (re_draw_tokens tx))

  module _ {W : Type 0} (web3 : Web3 W) (self : BlockchainClient) where
    unfoldable pub send_raw_transaction : Order → Address → Bytes → Uint256 → Task W Uint256
    send_raw_transaction order to_address payload value =
        then
          (join order (just web3.eth_gas_price)
            (just (web3.eth_get_transaction_count self.own_address)))
          (λ props.
            let transaction = transaction_of self to_address payload value props.0 props.1 in
            submit web3 (abi.to_bytes (abi.sign transaction self.secret (some 1))))
