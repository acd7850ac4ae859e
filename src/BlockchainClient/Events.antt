-- ===== src/BlockchainClient/Events.antt =====
-- guac_http/src/blockchain_client.rs: looking for the events of the contract and waiting for them.
use guac_rs.Prelude.{
  ℕ, zero, suc, Bool, Option, none, some, String, append_text, List, [], ◌∷◌, map,
}
use guac_rs.External.{Uint256, Address, Bytes, Clarity}
use guac_rs.Types.{bail}
use guac_rs.Outcome.{ok, Action, pure, ensure, or_panic, ◌>>=◌, ◌>>◌}
use guac_rs.Task.{Task, waiting, done, call, then, finish}
use guac_rs.Web3.{Web3}
use guac_rs.Web3.Types.{Hex, Log, NewFilter}
use guac_rs.BlockchainClient.Contract.{Abi}

abbrev pub bytes_to_data : Hex → Bytes → String
bytes_to_data hex s = append_text "0x" (hex.bytes_to_hex_str s)

-- `data[12..].copy_from_slice(&address.as_bytes())`
abbrev pub address_word : Clarity → Address → Bytes
address_word lib address = 0 ∷ 0 ∷ 0 ∷ 0 ∷ 0 ∷ 0 ∷ 0 ∷ 0 ∷ 0 ∷ 0 ∷ 0 ∷ 0 ∷ lib.address_bytes address

-- A topic of a filter: any of some values, or none asked for.
abbrev topic : Hex → Option (List Bytes) → Option (List (Option String))
topic hex none = none
topic hex (some values) = some (map (λ val. some (bytes_to_data hex val)) values)

abbrev pub first : List Log → Option Log
first [] = none
first (log ∷ _) = some log

-- The first log of a poll, or what comes later.
abbrev pub head_or : {W : Type 0} → Task W (Option Log) → List Log → Task W (Option Log)
head_or later [] = later
head_or later (log ∷ _) = done (ok (some log))

abbrev pub removed : {W : Type 0} → Option Log → Bool → Task W (Option Log)
removed head r = finish (do ensure r (bail "Unable to properly uninstall filter"); pure head)

abbrev pub expect_log : {W : Type 0} → Option Log → Task W Log
expect_log maybe_log = finish (or_panic maybe_log)

module _ {W : Type 0} (web3 : Web3 W) where
  -- The head of the stream `eth_get_filter_changes`: the first log of the first poll that brings
  -- any. The code polls for ever; the model looks at `polls` polls.
  unfoldable pub stream_head : ℕ → Uint256 → Task W (Option Log)
  stream_head zero filter_id = waiting
  stream_head (suc polls) filter_id =
      call (web3.eth_get_filter_changes filter_id) (head_or (stream_head polls filter_id))

  abbrev pub uninstall : Uint256 → Option Log → Task W (Option Log)
  uninstall filter_id head = call (web3.eth_uninstall_filter filter_id) (removed head)

  -- What is done with a filter.
  abbrev pub await_head : ℕ → Uint256 → Task W (Option Log)
  await_head polls filter_id = then (stream_head polls filter_id) (uninstall filter_id)

module _ {Token : Type 0} (hex : Hex) (abi : Abi Token) (contract_address : Address) where
  abbrev pub event_filter :
      String → Option (List Bytes) → Option (List Bytes) → Option String → Option String → NewFilter
  event_filter event topic1 topic2 from_block to_block = record {
    from_block = from_block;
    to_block = to_block;
    address = contract_address ∷ [];
    topics = some (
        some (some (bytes_to_data hex (abi.derive_signature event)) ∷ [])
        ∷ topic hex topic1
        ∷ topic hex topic2
        ∷ []);
  }

  module _ {W : Type 0} (web3 : Web3 W) where
    unfoldable pub check_for_event :
        String → Option (List Bytes) → Option (List Bytes) → Action W (Option Log)
    check_for_event event topic1 topic2 = do
      logs ← web3.eth_get_logs (event_filter event topic1 topic2 none none)
      pure (first logs)

    unfoldable pub get_event :
        ℕ
        → String
        → Option (List Bytes)
        → Option (List Bytes)
        → Option String
        → Option String
        → Task W Log
    get_event polls event topic1 topic2 from_block to_block =
        then
          (call (web3.eth_new_filter (event_filter event topic1 topic2 from_block to_block))
            (await_head web3 polls))
          expect_log

    unfoldable pub wait_for_event :
        ℕ → String → Option (List Bytes) → Option (List Bytes) → Task W Log
    unfolding get_event
    wait_for_event polls event topic1 topic2 = get_event polls event topic1 topic2 none none
