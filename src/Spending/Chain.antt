-- ===== src/Spending/Chain.antt =====
-- The client of the chain (guac_http/src/blockchain_client.rs) is one whose calls send one transaction
-- each.
use guac_rs.Prelude.{ℕ, ◌+◌, ◌≡◌, Option, none, some, arith}
use guac_rs.External.{Address, Bytes, Clarity}
use guac_rs.Outcome.{Outcome, ok, err, panic}
use guac_rs.Task.{Task, run, settle}
use guac_rs.Task.Count.{Counted}
use guac_rs.Web3.{Web3}
use guac_rs.Web3.Types.{Hex}
use guac_rs.BlockchainClient.Contract.{Abi}
use guac_rs.BlockchainClient.Events.{check_for_event}
use guac_rs.BlockchainClient.Send.{BlockchainClient}
use guac_rs.BlockchainClient.{Timing, as_blockchain, check_for_open, check_for_re_draw}
use guac_rs.BlockchainClient.Tally.{
  Tally, deposit_then_new_channel-Counted, deposit_then_re_draw-Counted,
  re_draw_then_withdraw-Counted,
}
use guac_rs.Spending.{Once, Spends}

module _ {W : Type 0} (count : W → ℕ) where
  settled :
      {A : Type 0} (w : W) (p : Option (Outcome A) × W)
      → Counted count (1 + (0 + 0)) w p
      → Once (count w) (elim p.0 [ none ↦ panic | some r ↦ r ]) (count p.1)
  settled w (some (ok a), w') h = omega arith
  settled w (some (err e), w') h = omega arith
  settled w (some panic, w') h = omega arith
  settled w (none, w') h = omega arith

  settle-Once :
      {A : Type 0} (t : Task W A) (w : W)
      → Counted count (1 + (0 + 0)) w (run t w)
      → let (r, w') = settle t w in Once (count w) r (count w')
  unfolding settle
  settle-Once t w h = settled w (run t w) h

module _ {W Token : Type 0} (lib : Clarity) (hex : Hex) (abi : Abi Token) (web3 : Web3 W)
    (count : W → ℕ) (tally : Tally web3 count 1 0 0) (timing : Timing)
    (self : BlockchainClient) where
  check_for_open-quiet :
      (a b : Address) (w : W)
      → count (check_for_open lib hex abi web3 timing self a b w).1 ≡ count w
  unfolding check_for_open check_for_event
  check_for_open-quiet a b w = grind (arith, tally.logs)

  check_for_re_draw-quiet :
      (id : Bytes) (w : W) → count (check_for_re_draw lib hex abi web3 timing self id w).1 ≡ count w
  unfolding check_for_re_draw check_for_event
  check_for_re_draw-quiet id w = grind (arith, tally.logs)

  pub as_blockchain-Spends : Spends (as_blockchain lib hex abi web3 timing self) count
  as_blockchain-Spends = record {
    looks_open = check_for_open-quiet;
    looks_re_draw = check_for_re_draw-quiet;
    looks_block = λ w. omega (arith, tally.block w);
    opens = λ amount tx w.
        settle-Once count _ w
          (deposit_then_new_channel-Counted hex abi web3 count tally lib timing self amount tx w);
    deposits = λ amount tx w.
        settle-Once count _ w
          (deposit_then_re_draw-Counted hex abi web3 count tally lib timing self amount tx w);
    withdraws = λ amount tx w.
        settle-Once count _ w
          (re_draw_then_withdraw-Counted hex abi web3 count tally lib timing self amount tx w);
  }
