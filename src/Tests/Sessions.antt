-- ===== src/Tests/Sessions.antt =====
-- The sessions of two users, with 100 deposited by each.
use guac_rs.Prelude.{ℕ, ◌+◌, true, none, [], ◌∷◌}
use guac_rs.External.{Address}
use guac_rs.Types.{foreign}
use guac_rs.Outcome.{ok, err}
use guac_rs.Node.{BlockchainApi, CounterpartyApi, Guac, Node}
use guac_rs.Web3.{Web3}
use guac_rs.BlockchainClient.{as_blockchain}
use guac_rs.Session.Shares.{Shares}
use guac_rs.Tests.Samples.{lib, word, alice_keys, bob_keys, silent}
use guac_rs.Tests.Ethereum.{hex, abi, timing, opening_log}

-- An Ethereum node that takes what it is sent, and has the event for it at once.
abbrev node : Web3 ℕ
node = record {
  eth_accounts = λ w. (ok (5 ∷ []), w);
  net_version = λ w. (ok "1", w);
  eth_new_filter = λ filter w. (ok 1, w);
  eth_uninstall_filter = λ filter w. (ok true, w);
  eth_get_filter_changes = λ filter w. (ok (opening_log ∷ []), w);
  eth_get_logs = λ filter w. (ok (opening_log ∷ []), w);
  eth_get_transaction_count = λ address w. (ok w, w);
  eth_gas_price = λ w. (ok 20, w);
  eth_get_balance = λ address w. (ok 1000, w);
  eth_send_transaction = λ requests w. (ok 7, w + 1);
  eth_call = λ request w. (ok (word 1000), w);
  eth_block_number = λ w. (ok 70, w);
  eth_send_raw_transaction = λ bytes w. (ok 7, w + 1);
  eth_get_transaction_by_hash = λ hash w. (ok none, w);
  evm_snapshot = λ w. (ok 1, w);
  evm_revert = λ snapshot w. (ok 1, w);
}

-- The program's client of the chain, over it.
abbrev chain_client : Address → BlockchainApi ℕ
chain_client own =
    as_blockchain lib hex abi node timing
      (record { contract_address = 3; own_address = own; secret = own })

abbrev guac_1 : Guac ℕ
guac_1 = record {
  blockchain_client = chain_client 5;
  counterparty_client = silent;
  crypto = alice_keys;
}

abbrev guac_2 : Guac ℕ
guac_2 = record {
  blockchain_client = chain_client 9;
  counterparty_client = silent;
  crypto = bob_keys;
}

abbrev nobody : CounterpartyApi (Node ℕ)
nobody = record {
  propose_channel = λ from url tx w. (err (foreign 0), w);
  propose_re_draw = λ from url tx w. (err (foreign 0), w);
  notify_channel_opened = λ from url w. (err (foreign 0), w);
  notify_re_draw = λ from url w. (err (foreign 0), w);
  receive_payment = λ from url tx w. (err (foreign 0), w);
}
