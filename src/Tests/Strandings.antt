-- ===== src/Tests/Strandings.antt =====
-- Alice's node, with entries that wait for ever.
use guac_rs.Prelude.{ℕ, ◌≡◌, refl, true, List, [], ◌∷◌, arith}
use guac_rs.Types.{creating, foreign}
use guac_rs.Outcome.{ok, err}
use guac_rs.Storage.{lookup}
use guac_rs.Node.{CounterpartyApi, Guac, Node}
use guac_rs.ChannelManager.{fill_channel}
use guac_rs.ChannelManager.Opening.{opening_tx}
use guac_rs.HttpServer
use guac_rs.History.{Event, served, fills, withdraws, pays, checks, after_all, over}
use guac_rs.History.Waiting.{succeeds}
use guac_rs.History.Stuck.{Left, history_stays_stuck}
use guac_rs.History.Lost.{lost_notice_strands}
use guac_rs.Tests.Samples.{num, num-IsExact, lib, alice_keys, chain}

-- A counterparty at address 9 that signs, and then cannot be reached any more.
abbrev leaving : CounterpartyApi ℕ
leaving = record {
  propose_channel = λ from url tx sent. (ok 9, sent);
  propose_re_draw = λ from url tx sent. (ok 9, sent);
  notify_channel_opened = λ from url sent. (err (foreign 0), sent);
  notify_re_draw = λ from url sent. (err (foreign 0), sent);
  receive_payment = λ from url tx sent. (err (foreign 0), sent);
}

abbrev left_alone : Guac ℕ
left_alone = record {
  blockchain_client = chain;
  counterparty_client = leaving;
  crypto = alice_keys;
}

-- She tries again, and the other node calls.
abbrev attempts : List Event
attempts =
    fills 9 "" 100
    ∷ served (HttpServer.notify_channel_opened 9)
    ∷ withdraws 9 "" 5
    ∷ pays 9 "" 3
    ∷ checks 9
    ∷ []

abbrev waiting_node : Node ℕ
waiting_node = record { storage = (9, creating (opening_tx true 5 9 100 70) true) ∷ []; world = 1 }

history_stays_stuck_example :
    Left 9
      (creating (opening_tx true 5 9 100 70) true)
      (after_all num lib left_alone attempts waiting_node)
      (over num lib left_alone (succeeds num lib left_alone 9) attempts waiting_node)
history_stays_stuck_example =
    history_stays_stuck num lib left_alone 9 attempts waiting_node
      (creating (opening_tx true 5 9 100 70) true) refl (unfold lookup in refl)

abbrev newcomer : Node ℕ
newcomer = record { storage = []; world = 0 }

lost_notice_strands_example :
    let (r, n') = fill_channel num lib left_alone 9 "" 100 newcomer in
    (r ≡ err (foreign 0))
    × Left 9
        (creating (opening_tx true 5 9 100 70) true)
        (after_all num lib left_alone attempts n')
        (over num lib left_alone (succeeds num lib left_alone 9) attempts n')
lost_notice_strands_example =
    lost_notice_strands num num-IsExact lib left_alone 9 "" 100 70 newcomer 0 0 1 1 9
      (1 ∷ 2 ∷ 3 ∷ []) (foreign 0) attempts (unfold lookup in refl) (omega arith) refl refl refl
      refl refl
