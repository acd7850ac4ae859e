-- ===== src/ChannelManager/Pay.antt =====
-- `Guac::make_payment` (guac_core/src/channel_manager.rs), by the state of the counterparty.
use guac_rs.Prelude.{Option, none, some, String}
use guac_rs.External.{Uint256, Address, Num, Clarity}
use guac_rs.Types.{Channel, Counterparty, open_channel, UpdateTx, error, wrong_state, guac}
use guac_rs.Outcome.{Action, pure, raise, ◌>>=◌}
use guac_rs.Crypto.{eth_sign, update_fingerprint}
use guac_rs.Node.{Guac, Node, on_world, on_clone, write}
use guac_rs.ChannelManager.Sign.{sign_update}
use guac_rs.Channel

module _ (num : Num) (lib : Clarity) {W : Type 0} (self : Guac W) where
  open self use {counterparty_client, crypto}

  -- The update is signed and sent.
  abbrev pub send : String → Channel → UpdateTx → Action (Node W) (Option Uint256)
  send their_url channel update_tx = do
    let my_signature =
        eth_sign lib crypto (update_fingerprint lib update_tx crypto.contract_address)
    on_world (
        counterparty_client.receive_payment crypto.own_address their_url
          (sign_update channel.i_am_0 my_signature update_tx))

  abbrev pub agree : Option Uint256 → Action (Node W) (Unit {0})
  agree (some _) = raise (guac (error "Sequence number disagreement"))
  agree none = pure tt

  -- What follows the counterparty's answer to the first update; `channel` is the paying clone.
  abbrev pub answered :
      Address → String → Uint256 → Channel → Option Uint256 → Action (Node W) (Unit {0})
  answered their_address their_url amount channel (some current_seq) = do
    (update_tx, channel') ← on_clone (Channel.make_payment num amount (some current_seq)) channel
    res ← send their_url channel' update_tx
    agree res
  answered their_address their_url amount channel none = write their_address (open_channel channel)

  abbrev pub pay_at : Address → String → Uint256 → Counterparty → Action (Node W) (Unit {0})
  pay_at their_address their_url amount (open_channel channel) = do
    (update_tx, channel') ← on_clone (Channel.make_payment num amount none) channel
    res ← send their_url channel' update_tx
    answered their_address their_url amount channel' res
  pay_at their_address their_url amount counterparty =
      raise (guac (wrong_state "make payment" counterparty "Open"))
