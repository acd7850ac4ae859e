-- ===== src/BlockchainClient/Confirm.antt =====
-- What `check_for_re_draw` (guac_http/src/blockchain_client.rs) makes of its answer, and the handler
-- `notify_re_draw` (guac_core/src/counterparty_api.rs) of that.
use guac_rs.Prelude.{◌≡◌, none, some, String, List, [], ◌∷◌}
use guac_rs.External.{Address, Num, Clarity}
use guac_rs.Types.{Channel, ReDrawTx, other_re_drawing, open_channel}
use guac_rs.Outcome.{ok, pure, bind_ok}
use guac_rs.Crypto.{Crypto}
use guac_rs.Storage.{lookup, insert}
use guac_rs.Node.{CounterpartyApi, Guac, Node}
use guac_rs.Web3.{Web3}
use guac_rs.Web3.Types.{Hex, Log, NewFilter}
use guac_rs.CounterpartyApi.{notify_re_draw}
use guac_rs.CounterpartyApi.Answers.{notify_re_draw_opens}
use guac_rs.BlockchainClient.Contract.{Abi}
use guac_rs.BlockchainClient.Events.{event_filter, first, check_for_event}
use guac_rs.BlockchainClient.Send.{BlockchainClient}
use guac_rs.BlockchainClient.{Timing, check_for_re_draw, as_blockchain}

module _ {W Token : Type 0} (num : Num) (lib : Clarity) (hex : Hex) (abi : Abi Token)
    (web3 : Web3 W) (timing : Timing) (client : BlockchainClient) where
  -- The filter for the event of a re-draw.
  abbrev pub re_draw_filter : Channel → NewFilter
  re_draw_filter c =
      event_filter hex abi client.contract_address "ChannelReDrawn(bytes32)"
        (some (c.channel_id ∷ [])) none none none

  check_for_re_draw_answered :
      (c : Channel) (logs : List Log) (w w' : W)
      → web3.eth_get_logs (re_draw_filter c) w ≡ (ok logs, w')
      → check_for_re_draw lib hex abi web3 timing client c.channel_id w ≡ (ok tt, w')
  unfolding check_for_re_draw check_for_event
  check_for_re_draw_answered c logs w w' e =
      bind_ok
        (check_for_event hex abi client.contract_address web3 "ChannelReDrawn(bytes32)"
          (some (c.channel_id ∷ [])) none)
        (λ _. pure tt)
        (bind_ok (web3.eth_get_logs (re_draw_filter c)) (λ logs. pure (first logs)) e)

  -- If the caller has proposed a re-draw of the channel, and the Ethereum node answers that there
  -- is no event of a re-draw of it, then `notify_re_draw`, over the client of the chain, succeeds
  -- and stores the channel open with the balances and the number of that re-draw.
  pub notify_re_draw_unconfirmed :
      (counterparty_client : CounterpartyApi W) (crypto : Crypto) (from : Address) (url : String)
      → (tx : ReDrawTx) (c : Channel) (n : Node W) (w : W)
      → lookup from n.storage ≡ some (other_re_drawing tx c)
      → web3.eth_get_logs (re_draw_filter c) n.world ≡ (ok [], w)
      → let self : Guac W = record {
        blockchain_client = as_blockchain lib hex abi web3 timing client;
        counterparty_client = counterparty_client;
        crypto = crypto;
      } in
        notify_re_draw num lib self from url n ≡ (
          ok tt,
          record {
            storage =
                insert from
                  (open_channel (record c {
                    balance_0 = tx.new_balance_0;
                    balance_1 = tx.new_balance_1;
                    sequence_number = tx.sequence_number;
                  }))
                  n.storage;
            world = w;
          },
        )
  notify_re_draw_unconfirmed counterparty_client crypto from url tx c n w found answered =
      notify_re_draw_opens num lib
        (record {
          blockchain_client = as_blockchain lib hex abi web3 timing client;
          counterparty_client = counterparty_client;
          crypto = crypto;
        })
        from url tx c w n found (check_for_re_draw_answered c [] n.world w answered)
