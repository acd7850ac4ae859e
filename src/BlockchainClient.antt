-- ===== src/BlockchainClient.antt =====
-- guac_http/src/blockchain_client.rs: the client of the chain. Its requests are tasks; where two run
-- at once, an `Order` says whose request is answered next.
pub mod Contract
pub mod Events
pub mod Send
pub mod Polling
pub mod Waiting
pub mod Tally
pub mod Lookup
pub mod Bounds
pub mod Confirm
use guac_rs.Prelude.{ℕ, Bool, true, Option, none, some, String, List, [], ◌∷◌, ◌==◌, length}
use guac_rs.External.{Uint256, Address, Bytes, Clarity}
use guac_rs.Types.{NewChannelTx, ReDrawTx, bail}
use guac_rs.Outcome.{Outcome, ok, panic, Action, pure, ensure, ◌>>=◌, ◌>>◌}
use guac_rs.Task.{Task, done, call, then, just, join, finish, settle, Order}
use guac_rs.Node.{BlockchainApi}
use guac_rs.Web3.{Web3}
use guac_rs.Web3.Types.{Hex, Log, TransactionRequest}
use Contract.{Abi}
use Events.{address_word, check_for_event, wait_for_event}
use Send.{
  BlockchainClient, new_channel_payload, deposit_payload, withdraw_payload, send_raw_transaction,
}

-- How long the model looks at a poll that goes on, and in which order answers come: those of a call
-- and of the event it waits for, and those of the price and of the nonce.
pub record Timing : Type 0 where
  pub polls : ℕ
  pub outer : Order
  pub inner : Order

-- The id that a `ChannelOpened` event carries.
abbrev pub id_of : {S : Type 0} → Log → Action S Bytes
id_of response = do
  ensure (length response.log_data == 32) (bail "Invalid data length in ChannelOpened event")
  pure response.log_data

abbrev pub id_if_found : {S : Type 0} → Option Log → Action S (Option Bytes)
id_if_found none = pure none
id_if_found (some response) = do id ← id_of response; pure (some id)

module _ {Token W : Type 0} (lib : Clarity) (hex : Hex) (abi : Abi Token) (web3 : Web3 W)
    (timing : Timing) (self : BlockchainClient) where
  -- The request that reads the balance, once price and nonce are known.
  abbrev balance_request : Bytes → Uint256 × Uint256 → TransactionRequest
  balance_request payload props = record {
    from = self.own_address;
    to = some self.contract_address;
    nonce = some props.1;
    gas = none;
    gas_price = some props.0;
    value = some 0;
    request_data = some payload;
  }

  unfoldable pub balance_of : Task W Uint256
  balance_of =
      let payload = abi.encode_call "balanceOf(address)" (abi.address self.own_address ∷ []) in
      then
        (join timing.inner (just web3.eth_gas_price)
          (just (web3.eth_get_transaction_count self.own_address)))
        (λ props.
          call (web3.eth_call (balance_request payload props))
            (λ bytes. done (ok (lib.uint_of_bytes bytes))))

  -- A transaction that calls the contract, together with the wait for the event that it causes.
  unfoldable pub call_and_wait :
      Option Bytes
      → Uint256
      → String
      → Option (List Bytes)
      → Option (List Bytes)
      → Task W (Uint256 × Log)
  call_and_wait none amount event topic1 topic2 = done panic
  call_and_wait (some payload) amount event topic1 topic2 =
      join timing.outer
        (send_raw_transaction abi web3 self timing.inner self.contract_address payload amount)
        (wait_for_event hex abi self.contract_address web3 timing.polls event topic1 topic2)

  unfoldable pub deposit_then_new_channel : Uint256 → NewChannelTx → Task W Bytes
  deposit_then_new_channel amount tx =
      then
        (call_and_wait (new_channel_payload abi tx) amount "ChannelOpened(address,address,bytes32)"
          (some (address_word lib tx.address_0 ∷ [])) (some (address_word lib tx.address_1 ∷ [])))
        (λ res. finish (id_of res.1))

  unfoldable pub deposit_then_re_draw : Uint256 → ReDrawTx → Task W (Unit {0})
  deposit_then_re_draw amount tx =
      then
        (call_and_wait (deposit_payload abi tx) amount "ChannelReDrawn(bytes32)"
          (some (tx.channel_id ∷ [])) none)
        (λ res. done (ok tt))

  unfoldable pub re_draw_then_withdraw : Uint256 → ReDrawTx → Task W (Unit {0})
  re_draw_then_withdraw amount tx =
      then
        (call_and_wait (withdraw_payload abi amount tx) amount "ChannelReDrawn(bytes32)"
          (some (tx.channel_id ∷ [])) none)
        (λ res. done (ok tt))

  unfoldable pub check_for_open : Address → Address → Action W (Option Bytes)
  check_for_open address_0 address_1 = do
    res ←
        check_for_event hex abi self.contract_address web3 "ChannelOpened(address,address,bytes32)"
          (some (address_word lib address_0 ∷ [])) (some (address_word lib address_1 ∷ []))
    id_if_found res

  unfoldable pub check_for_re_draw : Bytes → Action W (Unit {0})
  check_for_re_draw channel_id = do
    _ ←
        check_for_event hex abi self.contract_address web3 "ChannelReDrawn(bytes32)"
          (some (channel_id ∷ [])) none
    pure tt

  unfoldable pub quick_deposit : Uint256 → Task W (Unit {0})
  quick_deposit value =
      then
        (send_raw_transaction abi web3 self timing.inner self.contract_address
          (abi.encode_call "quickDeposit()" []) value)
        (λ tx. done (ok tt))

  -- `impl BlockchainApi for BlockchainClient`
  abbrev pub as_blockchain : BlockchainApi W
  as_blockchain = record {
    balance_of = settle balance_of;
    check_for_open = check_for_open;
    check_for_re_draw = check_for_re_draw;
    quick_deposit = λ value. settle (quick_deposit value);
    get_current_block = web3.eth_block_number;
    deposit_then_new_channel = λ amount tx. settle (deposit_then_new_channel amount tx);
    deposit_then_re_draw = λ amount tx. settle (deposit_then_re_draw amount tx);
    re_draw_then_withdraw = λ amount tx. settle (re_draw_then_withdraw amount tx);
  }
