-- ===== src/ChannelManager/Fill.antt =====
-- `Guac::fill_channel` (guac_core/src/channel_manager.rs), by the state of the counterparty.
use guac_rs.Prelude.{Bool, none, some, String, if◌then◌else◌}
use guac_rs.External.{Uint256, Address, Signature, Num, Clarity}
use guac_rs.Types.{
  Channel, Counterparty, new, creating, re_drawing, open_channel, NewChannelTx, ReDrawTx,
  try_again_later, guac,
}
use guac_rs.Outcome.{Action, raise, or_panic, ◌>>=◌, ◌>>◌}
use guac_rs.Crypto.{eth_sign, new_channel_fingerprint, re_draw_fingerprint}
use guac_rs.Node.{Guac, Node, on_world, write}
use guac_rs.ChannelManager.Sign.{verify, sign_new_channel, sign_re_draw}

-- What follows the counterparty's signature on a re-draw.
module _ (lib : Clarity) {W : Type 0} (self : Guac W) where
  open self use {blockchain_client, counterparty_client, crypto}

  unfoldable pub fill_signed :
      Address → String → Uint256 → Channel → ReDrawTx → Signature → Action (Node W) (Unit {0})
  fill_signed their_address their_url amount channel re_draw_tx their_signature = do
    let fingerprint = re_draw_fingerprint lib re_draw_tx crypto.contract_address
    verify lib their_address their_signature fingerprint
    write their_address (re_drawing re_draw_tx channel)
    let my_signature = eth_sign lib crypto fingerprint
    on_world (
        blockchain_client.deposit_then_re_draw amount
          (sign_re_draw channel.i_am_0 my_signature their_signature re_draw_tx))
    on_world (counterparty_client.notify_re_draw crypto.own_address their_url)
    write their_address (
        open_channel (record channel {
          balance_0 = re_draw_tx.new_balance_0;
          balance_1 = re_draw_tx.new_balance_1;
        }))

module _ (num : Num) (lib : Clarity) {W : Type 0} (self : Guac W) where
  open self use {blockchain_client, counterparty_client, crypto}

  -- A channel with a new counterparty is opened.
  abbrev pub fill_new : Address → String → Uint256 → Bool → Action (Node W) (Unit {0})
  fill_new their_address their_url amount i_am_0 = do
    let my_address = crypto.own_address
    let balance_0 = if i_am_0 then amount else 0
    let balance_1 = if i_am_0 then 0 else amount
    block ← on_world blockchain_client.get_current_block
    expiration ← or_panic (num.add block 40)
    let new_channel_tx : NewChannelTx = record {
      address_0 = if i_am_0 then my_address else their_address;
      address_1 = if i_am_0 then their_address else my_address;
      balance_0 = balance_0;
      balance_1 = balance_1;
      expiration = expiration;
      settling_period_length = 5000;
      signature_0 = none;
      signature_1 = none;
    }
    their_signature ←
        on_world (counterparty_client.propose_channel my_address their_url new_channel_tx)
    let fingerprint = new_channel_fingerprint lib new_channel_tx crypto.contract_address
    verify lib their_address their_signature fingerprint
    let my_signature = eth_sign lib crypto fingerprint
    write their_address (creating new_channel_tx i_am_0)
    channel_id ← on_world (
        blockchain_client.deposit_then_new_channel amount
          (sign_new_channel i_am_0 my_signature their_signature new_channel_tx))
    on_world (counterparty_client.notify_channel_opened my_address their_url)
    write their_address (
        open_channel (record {
          channel_id = channel_id;
          sequence_number = 0;
          balance_0 = balance_0;
          balance_1 = balance_1;
          accrual = 0;
          i_am_0 = i_am_0;
        }))

  -- An open channel is refilled.
  abbrev pub fill_open : Address → String → Uint256 → Channel → Action (Node W) (Unit {0})
  fill_open their_address their_url amount channel = do
    new_balance_0 ←
        or_panic
          (if channel.i_am_0 then num.add channel.balance_0 amount else some channel.balance_0)
    new_balance_1 ←
        or_panic
          (if channel.i_am_0 then some channel.balance_1 else num.add channel.balance_1 amount)
    block ← on_world blockchain_client.get_current_block
    sequence_number ← or_panic (num.add channel.sequence_number 1)
    expiration ← or_panic (num.add block 40)
    let re_draw_tx : ReDrawTx = record {
      channel_id = channel.channel_id;
      sequence_number = sequence_number;
      old_balance_0 = channel.balance_0;
      old_balance_1 = channel.balance_1;
      new_balance_0 = new_balance_0;
      new_balance_1 = new_balance_1;
      expiration = expiration;
      signature_0 = none;
      signature_1 = none;
    }
    their_signature ←
        on_world (counterparty_client.propose_re_draw crypto.own_address their_url re_draw_tx)
    fill_signed lib self their_address their_url amount channel re_draw_tx their_signature

  abbrev pub fill_at : Address → String → Uint256 → Counterparty → Action (Node W) (Unit {0})
  fill_at their_address their_url amount (new i_am_0) =
      fill_new their_address their_url amount i_am_0
  fill_at their_address their_url amount (open_channel channel) =
      fill_open their_address their_url amount channel
  fill_at their_address their_url amount _ = raise (guac try_again_later)
