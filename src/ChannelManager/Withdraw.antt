-- ===== src/ChannelManager/Withdraw.antt =====
-- `Guac::withdraw` (guac_core/src/channel_manager.rs), by the state of the counterparty.
use guac_rs.Prelude.{none, some, String, if◌then◌else◌}
use guac_rs.External.{Uint256, Address, Signature, Num, Clarity}
use guac_rs.Types.{Channel, Counterparty, re_drawing, open_channel, ReDrawTx, try_again_later, guac}
use guac_rs.Outcome.{Action, raise, or_panic, ◌>>=◌, ◌>>◌}
use guac_rs.Crypto.{eth_sign, re_draw_fingerprint}
use guac_rs.Node.{Guac, Node, on_world, write}
use guac_rs.ChannelManager.Sign.{verify, sign_re_draw}

-- What follows the counterparty's signature on a re-draw.
module _ (lib : Clarity) {W : Type 0} (self : Guac W) where
  open self use {blockchain_client, counterparty_client, crypto}

  unfoldable pub withdraw_signed :
      Address → String → Uint256 → Channel → ReDrawTx → Signature → Action (Node W) (Unit {0})
  withdraw_signed their_address their_url amount channel re_draw_tx their_signature = do
    let fingerprint = re_draw_fingerprint lib re_draw_tx crypto.contract_address
    verify lib their_address their_signature fingerprint
    write their_address (re_drawing re_draw_tx channel)
    let my_signature = eth_sign lib crypto fingerprint
    on_world (
        blockchain_client.re_draw_then_withdraw amount
          (sign_re_draw channel.i_am_0 my_signature their_signature re_draw_tx))
    on_world (counterparty_client.notify_re_draw crypto.own_address their_url)
    write their_address (
        open_channel (record channel {
          balance_0 = re_draw_tx.new_balance_0;
          balance_1 = re_draw_tx.new_balance_1;
        }))

module _ (num : Num) (lib : Clarity) {W : Type 0} (self : Guac W) where
  open self use {blockchain_client, counterparty_client, crypto}

  abbrev pub withdraw_open : Address → String → Uint256 → Channel → Action (Node W) (Unit {0})
  withdraw_open their_address their_url amount channel = do
    new_balance_0 ←
        or_panic
          (if channel.i_am_0 then num.sub channel.balance_0 amount else some channel.balance_0)
    new_balance_1 ←
        or_panic
          (if channel.i_am_0 then some channel.balance_1 else num.sub channel.balance_1 amount)
    block ← on_world blockchain_client.get_current_block
    sequence_number ← or_panic (num.add channel.sequence_number 1)
    expiration ← or_panic (num.add block 40)
    let re_draw_tx : ReDrawTx = record {
      channel_id = channel.channel_id;
      sequence_number = sequence_number;
      old_balance_0 = channel.balance_0;
      old_balance_1 = channel.balance_1;
      new_balance_0 = new_balance_0;
      new_balance_1 = new_balance_1;
      expiration = expiration;
      signature_0 = none;
      signature_1 = none;
    }
    their_signature ←
        on_world (counterparty_client.propose_re_draw crypto.own_address their_url re_draw_tx)
    withdraw_signed lib self their_address their_url amount channel re_draw_tx their_signature

  abbrev pub withdraw_at : Address → String → Uint256 → Counterparty → Action (Node W) (Unit {0})
  withdraw_at their_address their_url amount (open_channel channel) =
      withdraw_open their_address their_url amount channel
  withdraw_at their_address their_url amount _ = raise (guac try_again_later)
