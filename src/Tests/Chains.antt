-- ===== src/Tests/Chains.antt =====
-- The client of the chain against a sample Ethereum node.
use guac_rs.Prelude.{ℕ, ◌+◌, ◌≡◌, ◌≤◌, ◌↔◌, inl, inr, refl, true, none, some, List, [], ◌∷◌, arith}
use guac_rs.Types.{foreign, other_re_drawing, open_channel}
use guac_rs.Outcome.{ok, err}
use guac_rs.Storage.{lookup, insert}
use guac_rs.Node.{CounterpartyApi, Guac, Node}
use guac_rs.CounterpartyApi.{notify_re_draw}
use guac_rs.ChannelManager.ReDraw.{re_draw_to}
use guac_rs.Task.{run}
use guac_rs.Task.Count.{Counted}
use guac_rs.Web3.{Web3, over as over_rpc}
use guac_rs.Web3.Types.{Log}
use guac_rs.Web3.JsonRpc.{
  Params, filters, Rpc, Response, success, Decoders, request_method, prepare, send_request, next_id,
  awaited,
}
use guac_rs.BlockchainClient.{
  deposit_then_new_channel, deposit_then_re_draw, re_draw_then_withdraw, quick_deposit,
  check_for_open, as_blockchain,
}
use guac_rs.BlockchainClient.Events.{event_filter, get_event}
use guac_rs.BlockchainClient.Waiting.{IsAwaited, get_event-awaits}
use guac_rs.BlockchainClient.Tally.{calls-Counted}
use guac_rs.BlockchainClient.Lookup.{
  IsLogged, IsLookup, take, skip, end, asked, check_for_open-IsLookup,
}
use guac_rs.BlockchainClient.Confirm.{notify_re_draw_unconfirmed}
use guac_rs.ChannelManager.Opening.{opening_tx}
use guac_rs.History.{Event, fills, withdraws, pays, after_all, over}
use guac_rs.Spending.{IsQuiet}
use guac_rs.Spending.Ledger.{attempted, succeeded, history_sends_once}
use guac_rs.Tests.Samples.{alice_keys, num, lib, alice_channel, bob_channel, bob_keys}
use guac_rs.Tests.Ethereum.{
  hex, abi, Ledger, web3, timing, client, opening_log, other_log, ledger, sending, at_address,
}

calls-Counted_example :
    let tx = opening_tx true 5 9 100 70 in
    let re_draw = re_draw_to alice_channel 40 70 in
    Counted
      (λ w. w.1)
      1
      ledger
      (run (deposit_then_new_channel lib hex abi web3 timing client 100 tx) ledger)
    × Counted
        (λ w. w.1)
        1
        ledger
        (run (deposit_then_re_draw lib hex abi web3 timing client 100 re_draw) ledger)
    × Counted
        (λ w. w.1)
        1
        ledger
        (run (re_draw_then_withdraw lib hex abi web3 timing client 100 re_draw) ledger)
    × Counted (λ w. w.1) 1 ledger (run (quick_deposit lib hex abi web3 timing client 100) ledger)
calls-Counted_example =
    calls-Counted hex abi web3 (λ w. w.1) sending lib timing client 100 (opening_tx true 5 9 100 70)
      (re_draw_to alice_channel 40 70) ledger

get_event-awaits_example :
    let filter = event_filter hex abi 3 "ChannelReDrawn(bytes32)" none none none none in
    (run (get_event hex abi 3 web3 3 "ChannelReDrawn(bytes32)" none none none none) ledger
      ≡ (some (ok other_log), ledger))
    ↔ IsAwaited web3 3 filter ledger other_log ledger
get_event-awaits_example =
    get_event-awaits hex abi 3 web3 3 "ChannelReDrawn(bytes32)" none none none none ledger ledger
      other_log

-- The same node over JSON-RPC: an answer is the logs of the latest block at the address asked for.
abbrev asked_for : Params → List Log → List Log
asked_for (filters (filter ∷ _)) logs = at_address filter.address logs
asked_for params logs = []

abbrev answered : {R : Type 0} → R → Response R ℕ
answered result = record { id = 1; jsonrpc = "2.0"; response_data = success result }

abbrev decoders : Decoders (List Log) ℕ
decoders = record {
  uint_of = λ reply. none;
  bool_of = λ reply. none;
  text_of = λ reply. none;
  data_of = λ reply. none;
  addresses_of = λ reply. none;
  logs_of = λ reply. some (answered reply);
  transaction_of = λ reply. none;
}

abbrev node : Web3 (Rpc Ledger)
node =
    over_rpc hex true (record { post = λ url request w. (ok (asked_for request.params w.0), w) })
      decoders (record { url = "" })

abbrev started : Rpc Ledger
started = record { id_counter = 0; world = ledger }

node-IsLogged : IsLogged node (asked lib hex abi node timing client 5 9) started ledger.0
unfolding request_method prepare send_request next_id awaited
node-IsLogged no_start no_end = record {
  found = opening_log ∷ [];
  answers = refl;
  selected =
      skip (λ m. elim m.0 [ inl e ↦ omega (arith, e) | inr h ↦ absurd h ])
        (take (inl refl, (inl refl, (inl refl, (inl refl, tt)))) end);
}

check_for_open-IsLookup_example :
    let (r, w') = check_for_open lib hex abi node timing client 5 9 started in
    IsLookup lib hex abi 3 5 9 ledger.0 r
    × (w' ≡ (node.eth_get_logs (asked lib hex abi node timing client 5 9) started).1)
check_for_open-IsLookup_example =
    check_for_open-IsLookup lib hex abi node timing client 5 9 ledger.0 started node-IsLogged

-- Bob's node, which has signed a re-draw of Alice's that no event confirms.
abbrev unconfirmed : Node Ledger
unconfirmed = record {
  storage = (5, other_re_drawing (re_draw_to alice_channel 40 70) bob_channel) ∷ [];
  world = ([], 0);
}

abbrev nobody : CounterpartyApi Ledger
nobody = record {
  propose_channel = λ from url tx w. (err (foreign 0), w);
  propose_re_draw = λ from url tx w. (err (foreign 0), w);
  notify_channel_opened = λ from url w. (err (foreign 0), w);
  notify_re_draw = λ from url w. (err (foreign 0), w);
  receive_payment = λ from url tx w. (err (foreign 0), w);
}

notify_re_draw_unconfirmed_example :
    let self : Guac Ledger = record {
      blockchain_client = as_blockchain lib hex abi web3 timing client;
      counterparty_client = nobody;
      crypto = bob_keys;
    } in
    notify_re_draw num lib self 5 "" unconfirmed ≡ (
      ok tt,
      record unconfirmed {
        storage =
            insert 5
              (open_channel
                (record bob_channel { balance_0 = 40; balance_1 = 20; sequence_number = 5 }))
              unconfirmed.storage;
      },
    )
notify_re_draw_unconfirmed_example =
    notify_re_draw_unconfirmed num lib hex abi web3 timing client nobody bob_keys 5 ""
      (re_draw_to alice_channel 40 70) bob_channel unconfirmed ([], 0) (unfold lookup in refl) refl

-- A counterparty, at address 9, that signs everything.
abbrev willing : CounterpartyApi Ledger
willing = record {
  propose_channel = λ from url tx w. (ok 9, w);
  propose_re_draw = λ from url tx w. (ok 9, w);
  notify_channel_opened = λ from url w. (ok tt, w);
  notify_re_draw = λ from url w. (ok tt, w);
  receive_payment = λ from url tx w. (ok none, w);
}

willing-IsQuiet : IsQuiet willing (λ w. w.1)
willing-IsQuiet = record {
  channel = λ a url tx w. refl;
  re_draw = λ a url tx w. refl;
  opened = λ a url w. refl;
  re_drawn = λ a url w. refl;
  payment = λ a url tx w. refl;
}

-- Alice opens a channel and refills it, pays, and withdraws from a channel that she does not have.
abbrev spending : List Event
spending = fills 9 "" 100 ∷ fills 9 "" 10 ∷ pays 9 "" 3 ∷ withdraws 4 "" 5 ∷ []

history_sends_once_example :
    let self : Guac Ledger = record {
      blockchain_client = as_blockchain lib hex abi web3 timing client;
      counterparty_client = willing;
      crypto = alice_keys;
    } in
    let n : Node Ledger = record { storage = []; world = (opening_log ∷ [], 0) } in
    let after = (after_all num lib self spending n).world.1 in
    (0 + over num lib self (succeeded num lib self) spending n ≤ after)
    × (after ≤ 0 + over num lib self attempted spending n)
history_sends_once_example =
    history_sends_once num lib hex abi web3 (λ w. w.1) sending timing client willing alice_keys
      willing-IsQuiet spending (record { storage = []; world = (opening_log ∷ [], 0) })
