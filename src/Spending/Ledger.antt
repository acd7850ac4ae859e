-- ===== src/Spending/Ledger.antt =====
-- The transactions of a node over a whole history (guac_core/src/channel_manager.rs,
-- counterparty_api.rs and guac_http/src/blockchain_client.rs together).
use guac_rs.Prelude.{ℕ, ◌+◌, ◌≡◌, ◌≤◌, ap, List, [], ◌∷◌, arith}
use guac_rs.External.{Num, Clarity}
use guac_rs.Outcome.{Outcome, ok, err, panic}
use guac_rs.Crypto.{Crypto}
use guac_rs.Node.{CounterpartyApi, Guac, Node}
use guac_rs.ChannelManager.{fill_channel, withdraw}
use guac_rs.History.{Event, served, fills, withdraws, pays, checks, after, after_all, over, done}
use guac_rs.Web3.{Web3}
use guac_rs.Web3.Types.{Hex}
use guac_rs.BlockchainClient.{Timing, as_blockchain}
use guac_rs.BlockchainClient.Contract.{Abi}
use guac_rs.BlockchainClient.Send.{BlockchainClient}
use guac_rs.BlockchainClient.Tally.{Tally}
use guac_rs.Spending.{Once, Spends, IsQuiet}
use guac_rs.Spending.Calls.{
  fill_channel-Once, withdraw-Once, make_payment-quiet, check_accrual-quiet,
}
use guac_rs.Spending.Requests.{serve-quiet}
use guac_rs.Spending.Chain.{as_blockchain-Spends}

-- A call that may send a transaction, and one that did all it should.
abbrev pub attempted : {W : Type 0} → Event → Node W → ℕ
attempted (fills their url amount) n = 1
attempted (withdraws their url amount) n = 1
attempted _ n = 0

module _ (num : Num) (lib : Clarity) {W : Type 0} (self : Guac W) where
  unfoldable pub succeeded : Event → Node W → ℕ
  succeeded (fills their url amount) n = done 1 (fill_channel num lib self their url amount n).0
  succeeded (withdraws their url amount) n = done 1 (withdraw num lib self their url amount n).0
  succeeded _ n = 0

-- What one call of that kind does to the count.
Once-bounds :
    {A : Type 0} (before after : ℕ) (r : Outcome A)
    → Once before r after
    → (before + done 1 r ≤ after) × (after ≤ before + 1)
Once-bounds before after (ok a) h = (omega arith, omega arith)
Once-bounds before after (err e) h = (omega arith, omega arith)
Once-bounds before after panic h = (omega arith, omega arith)

same-bounds : (before after : ℕ) → after ≡ before → (before + 0 ≤ after) × (after ≤ before + 0)
same-bounds before after e = (omega arith, omega arith)

module _ (num : Num) (lib : Clarity) {W : Type 0} (self : Guac W) (count : W → ℕ)
    (spends : Spends self.blockchain_client count)
    (quiet : IsQuiet self.counterparty_client count) where
  event-bounds :
      (event : Event) (n : Node W)
      → let after = count (after num lib self event n).world in
        (count n.world + succeeded num lib self event n ≤ after)
        × (after ≤ count n.world + attempted event n)
  unfolding after succeeded
  event-bounds (served request) n =
      same-bounds _ _ (serve-quiet num lib self count spends request n)
  event-bounds (fills their url amount) n =
      Once-bounds _ _ _ (fill_channel-Once num lib self count spends quiet their url amount n)
  event-bounds (withdraws their url amount) n =
      Once-bounds _ _ _ (withdraw-Once num lib self count spends quiet their url amount n)
  event-bounds (pays their url amount) n =
      same-bounds _ _ (make_payment-quiet num lib self count spends quiet their url amount n)
  event-bounds (checks their) n = same-bounds _ _ (ap count (check_accrual-quiet their n))

  history-bounds :
      (events : List Event) (n : Node W)
      → let after = count (after_all num lib self events n).world in
        (count n.world + over num lib self (succeeded num lib self) events n ≤ after)
        × (after ≤ count n.world + over num lib self attempted events n)
  unfolding after_all over
  history-bounds [] n = (omega arith, omega arith)
  history-bounds (event ∷ rest) n =
      let (least, most) = event-bounds event n in
      let (least', most') = history-bounds rest (after num lib self event n) in
      (omega (arith, least, least'), omega (arith, most, most'))

module _ {W Token : Type 0} (num : Num) (lib : Clarity) (hex : Hex) (abi : Abi Token)
    (web3 : Web3 W) (count : W → ℕ) (tally : Tally web3 count 1 0 0) (timing : Timing)
    (client : BlockchainClient) where
  -- Given a count in the world that goes up by one with each raw transaction that the Ethereum node
  -- is handed and with no other request of the client of the chain, and a client of the other nodes
  -- whose calls leave it as it is: over any sequence of requests that a node serves and of calls
  -- that its user makes, the count goes up by at least one for each `fill_channel` and `withdraw`
  -- that succeeds, and by at most one for each that is called. Payments, checks and the requests of
  -- others send nothing.
  pub history_sends_once :
      (counterparty_client : CounterpartyApi W) (crypto : Crypto)
      → IsQuiet counterparty_client count
      → (events : List Event) (n : Node W)
      → let self : Guac W = record {
        blockchain_client = as_blockchain lib hex abi web3 timing client;
        counterparty_client = counterparty_client;
        crypto = crypto;
      } in
        let after = count (after_all num lib self events n).world in
        (count n.world + over num lib self (succeeded num lib self) events n ≤ after)
        × (after ≤ count n.world + over num lib self attempted events n)
  history_sends_once counterparty_client crypto quiet =
      history-bounds num lib
        (record {
          blockchain_client = as_blockchain lib hex abi web3 timing client;
          counterparty_client = counterparty_client;
          crypto = crypto;
        })
        count (as_blockchain-Spends lib hex abi web3 count tally timing client) quiet
