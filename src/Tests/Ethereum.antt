-- ===== src/Tests/Ethereum.antt =====
-- A sample Ethereum node, and what its client needs that is not in the repository.
use guac_rs.Prelude.{
  ℕ, ◌+◌, refl, true, false, none, some, List, [], ◌∷◌, ◌==◌, if◌then◌else◌, arith,
}
use guac_rs.External.{Address}
use guac_rs.Outcome.{ok}
use guac_rs.Web3.{Web3}
use guac_rs.Web3.Types.{Hex, Log}
use guac_rs.BlockchainClient.{Timing}
use guac_rs.BlockchainClient.Contract.{Abi}
use guac_rs.BlockchainClient.Events.{address_word, bytes_to_data}
use guac_rs.BlockchainClient.Send.{BlockchainClient}
use guac_rs.BlockchainClient.Tally.{Tally}
use guac_rs.Tests.Samples.{lib, head, word}

abbrev pub hex : Hex
hex = record {
  bytes_to_hex_str = λ bytes. if head bytes == 0 then "00" else "01";
  hex_str_to_bytes = λ text. some [];
  address_text = λ address. "0x05";
  lower_hex = λ n. "0x1";
  lower_hex_66 = λ n. "0x01";
}

abbrev pub abi : Abi ℕ
abi = record {
  address = λ a. a;
  uint = λ n. n;
  vec = head;
  bytes = head;
  encode_call = λ signature tokens. tokens;
  derive_signature = λ signature. word 1;
  into_bytes = λ signature. signature ∷ [];
  sign = λ transaction secret network. record transaction { signature = some secret };
  to_bytes = λ transaction. some transaction.call_data;
}

-- A chain: its logs, and how many transactions it was sent.
abbrev pub Ledger : Type 0
Ledger = List Log × ℕ

abbrev pub at_address : List Address → List Log → List Log
at_address [] logs = []
at_address (a ∷ _) [] = []
at_address (a ∷ rest) (log ∷ logs) =
    let others = at_address (a ∷ rest) logs in if log.address == a then log ∷ others else others

abbrev pub web3 : Web3 Ledger
web3 = record {
  eth_accounts = λ w. (ok (5 ∷ []), w);
  net_version = λ w. (ok "1", w);
  eth_new_filter = λ filter w. (ok 1, w);
  eth_uninstall_filter = λ id w. (ok true, w);
  eth_get_filter_changes = λ id w. (ok w.0, w);
  eth_get_logs = λ filter w. (ok (at_address filter.address w.0), w);
  eth_get_transaction_count = λ address w. (ok w.1, w);
  eth_gas_price = λ w. (ok 20, w);
  eth_get_balance = λ address w. (ok 1000, w);
  eth_send_transaction = λ requests w. (ok 7, (w.0, w.1 + 1));
  eth_call = λ request w. (ok (word 1000), w);
  eth_block_number = λ w. (ok 70, w);
  eth_send_raw_transaction = λ bytes w. (ok 7, (w.0, w.1 + 1));
  eth_get_transaction_by_hash = λ hash w. (ok none, w);
  evm_snapshot = λ w. (ok 1, w);
  evm_revert = λ id w. (ok 1, w);
}

abbrev pub timing : Timing
timing = record { polls = 3; outer = λ n. true; inner = λ n. false }

abbrev pub client : BlockchainClient
client = record { contract_address = 3; own_address = 5; secret = 5 }

-- The event of the opening of a channel of 5 and 9, with the id `word 6`, and one of another
-- contract.
abbrev pub opening_log : Log
opening_log = record {
  removed = none;
  log_index = some 0;
  transaction_index = some 0;
  transaction_hash = none;
  block_hash = none;
  block_number = some 70;
  address = 3;
  log_data = word 6;
  topics =
      bytes_to_data hex (abi.derive_signature "ChannelOpened(address,address,bytes32)")
      ∷ bytes_to_data hex (address_word lib 5)
      ∷ bytes_to_data hex (address_word lib 9)
      ∷ [];
  type_ = none;
}

abbrev pub other_log : Log
other_log = record opening_log { address = 4; log_data = [] }

abbrev pub ledger : Ledger
ledger = (other_log ∷ opening_log ∷ [], 0)

abbrev pub sending : Tally web3 (λ w. w.1) 1 0 0
sending = record {
  raw = λ bytes w. refl;
  filter = λ f w. omega arith;
  removal = λ id w. omega arith;
  poll = λ id w. omega arith;
  logs = λ f w. omega arith;
  block = λ w. omega arith;
  price = λ w. omega arith;
  nonce = λ a w. omega arith;
}
