-- ===== src/Session.antt =====
-- The sessions of two users (guac_http/src/lib.rs, the tests): each node is called by its own user, and
-- its requests reach the other node's handlers.
pub mod Chain
pub mod Shares
pub mod Story
use guac_rs.Prelude.{String}
use guac_rs.External.{Uint256, Num, Clarity}
use guac_rs.Outcome.{Action, ok, err, panic, ◌>>◌}
use guac_rs.Node.{CounterpartyApi, Guac, Node}
use guac_rs.ChannelManager.{fill_channel, withdraw, make_payment}
use guac_rs.TwoParty.{connected}

-- The two nodes as the second one sees them.
abbrev pub flipped : {W : Type 0} → Node (Node W) → Node (Node W)
flipped n = record {
  storage = n.world.storage;
  world = record { storage = n.storage; world = n.world.world };
}

-- A call of the second node's user.
abbrev pub by_second : {W A : Type 0} → Action (Node (Node W)) A → Action (Node (Node W)) A
by_second m n = let (r, n') = m (flipped n) in (r, flipped n')

-- `then(move |_| …)`: an error is passed over, a panic is not.
abbrev pub whatever : {W A : Type 0} → Action W A → Action W (Unit {0})
whatever m n = let (r, n') = m n in (elim r [ ok _ ↦ ok tt | err _ ↦ ok tt | panic ↦ panic ], n')

module _ (num : Num) (lib : Clarity) {W : Type 0} (guac_1 guac_2 : Guac W) where
  abbrev pub first : Guac (Node W)
  first = connected num lib guac_1.crypto guac_2

  abbrev pub second : Guac (Node W)
  second = connected num lib guac_2.crypto guac_1

  unfoldable pub make_and_fill_channel : Uint256 → Action (Node (Node W)) (Unit {0})
  make_and_fill_channel deposit = do
    fill_channel num lib first guac_2.crypto.own_address "[::1]:8882" deposit
    by_second (fill_channel num lib second guac_1.crypto.own_address "[::1]:8881" deposit)

  unfoldable pub refill_channel : Uint256 → Uint256 → Uint256 → Action (Node (Node W)) (Unit {0})
  refill_channel deposit payment more = do
    make_and_fill_channel deposit
    make_payment num lib first guac_2.crypto.own_address "[::1]:8882" payment
    fill_channel num lib first guac_2.crypto.own_address "[::1]:8882" more

  unfoldable pub withdraw_channel :
      Uint256 → Uint256 → Uint256 → Uint256 → Action (Node (Node W)) (Unit {0})
  withdraw_channel deposit payment mine theirs = do
    make_and_fill_channel deposit
    make_payment num lib first guac_2.crypto.own_address "[::1]:8882" payment
    withdraw num lib first guac_2.crypto.own_address "[::1]:8882" mine
    by_second (withdraw num lib second guac_1.crypto.own_address "[::1]:8881" theirs)

  -- A payment of the second user that nobody answers, whatever comes of it, and one of the first;
  -- `nobody` is the client at a wrong address.
  unfoldable pub payment_after_loss :
      CounterpartyApi (Node W) → Uint256 → Uint256 → Uint256 → Action (Node (Node W)) (Unit {0})
  payment_after_loss nobody deposit lost payment = do
    make_and_fill_channel deposit
    whatever (
        by_second (
          make_payment num lib (record second { counterparty_client = nobody })
            guac_1.crypto.own_address "[::1]:8883" lost))
    make_payment num lib first guac_2.crypto.own_address "[::1]:8882" payment
