-- ===== src/Interleave/Steps.antt =====
-- The calls of guac_core/src/channel_manager.rs once more, each action a step: the same blocks as in
-- ChannelManager/Fill, Withdraw and Pay, from the entry that is held to the end.
use guac_rs.Prelude.{Bool, Option, none, some, String, if◌then◌else◌}
use guac_rs.External.{Uint256, Address, Num, Clarity}
use guac_rs.Types.{
  Channel, Counterparty, new, creating, re_drawing, open_channel, NewChannelTx, ReDrawTx,
  try_again_later, guac, wrong_state,
}
use guac_rs.Outcome.{Action, raise, or_panic}
use guac_rs.Crypto.{eth_sign, new_channel_fingerprint, re_draw_fingerprint}
use guac_rs.Node.{Guac, Node, on_world, on_clone, write}
use guac_rs.Task.{Task, call, just}
use guac_rs.ChannelManager.Sign.{verify, sign_new_channel, sign_re_draw}
use guac_rs.ChannelManager.Pay.{send, agree}
use guac_rs.Channel

infixl 5 ◌>>=◌ ◌>>◌
abbrev pub ◌>>=◌ : {W A B : Type 0} → Action W A → (A → Task W B) → Task W B
m >>= next = call m next

abbrev pub ◌>>◌ : {W B : Type 0} → Action W (Unit {0}) → Task W B → Task W B
m >> t = call m (λ _. t)

module _ (num : Num) (lib : Clarity) {W : Type 0} (self : Guac W) (their_address : Address)
    (their_url : String) (amount : Uint256) where
  open self use {blockchain_client, counterparty_client, crypto}

  abbrev pub fill_new_steps : Bool → Task (Node W) (Unit {0})
  fill_new_steps i_am_0 = do
    let my_address = crypto.own_address
    let balance_0 = if i_am_0 then amount else 0
    let balance_1 = if i_am_0 then 0 else amount
    block ← on_world blockchain_client.get_current_block
    expiration ← or_panic (num.add block 40)
    let new_channel_tx : NewChannelTx = record {
      address_0 = if i_am_0 then my_address else their_address;
      address_1 = if i_am_0 then their_address else my_address;
      balance_0 = balance_0;
      balance_1 = balance_1;
      expiration = expiration;
      settling_period_length = 5000;
      signature_0 = none;
      signature_1 = none;
    }
    their_signature ←
        on_world (counterparty_client.propose_channel my_address their_url new_channel_tx)
    let fingerprint = new_channel_fingerprint lib new_channel_tx crypto.contract_address
    verify lib their_address their_signature fingerprint
    let my_signature = eth_sign lib crypto fingerprint
    write their_address (creating new_channel_tx i_am_0)
    channel_id ← on_world (
        blockchain_client.deposit_then_new_channel amount
          (sign_new_channel i_am_0 my_signature their_signature new_channel_tx))
    on_world (counterparty_client.notify_channel_opened my_address their_url)
    just (
        write their_address (
          open_channel (record {
            channel_id = channel_id;
            sequence_number = 0;
            balance_0 = balance_0;
            balance_1 = balance_1;
            accrual = 0;
            i_am_0 = i_am_0;
          })))

  -- What follows the new balances of a re-draw; `submit` is the call of the chain.
  abbrev pub re_draw_steps :
      (ReDrawTx → Action W (Unit {0}))
      → Channel
      → Option Uint256
      → Option Uint256
      → Task (Node W) (Unit {0})
  re_draw_steps submit channel balance_0 balance_1 = do
    new_balance_0 ← or_panic balance_0
    new_balance_1 ← or_panic balance_1
    block ← on_world blockchain_client.get_current_block
    sequence_number ← or_panic (num.add channel.sequence_number 1)
    expiration ← or_panic (num.add block 40)
    let re_draw_tx : ReDrawTx = record {
      channel_id = channel.channel_id;
      sequence_number = sequence_number;
      old_balance_0 = channel.balance_0;
      old_balance_1 = channel.balance_1;
      new_balance_0 = new_balance_0;
      new_balance_1 = new_balance_1;
      expiration = expiration;
      signature_0 = none;
      signature_1 = none;
    }
    their_signature ←
        on_world (counterparty_client.propose_re_draw crypto.own_address their_url re_draw_tx)
    let fingerprint = re_draw_fingerprint lib re_draw_tx crypto.contract_address
    verify lib their_address their_signature fingerprint
    write their_address (re_drawing re_draw_tx channel)
    let my_signature = eth_sign lib crypto fingerprint
    on_world (submit (sign_re_draw channel.i_am_0 my_signature their_signature re_draw_tx))
    on_world (counterparty_client.notify_re_draw crypto.own_address their_url)
    just (
        write their_address (
          open_channel (record channel {
            balance_0 = re_draw_tx.new_balance_0;
            balance_1 = re_draw_tx.new_balance_1;
          })))

  abbrev pub fill_at_steps : Counterparty → Task (Node W) (Unit {0})
  fill_at_steps (new i_am_0) = fill_new_steps i_am_0
  fill_at_steps (open_channel channel) =
      re_draw_steps (blockchain_client.deposit_then_re_draw amount) channel
        (if channel.i_am_0 then num.add channel.balance_0 amount else some channel.balance_0)
        (if channel.i_am_0 then some channel.balance_1 else num.add channel.balance_1 amount)
  fill_at_steps _ = just (raise (guac try_again_later))

  abbrev pub withdraw_at_steps : Counterparty → Task (Node W) (Unit {0})
  withdraw_at_steps (open_channel channel) =
      re_draw_steps (blockchain_client.re_draw_then_withdraw amount) channel
        (if channel.i_am_0 then num.sub channel.balance_0 amount else some channel.balance_0)
        (if channel.i_am_0 then some channel.balance_1 else num.sub channel.balance_1 amount)
  withdraw_at_steps _ = just (raise (guac try_again_later))

  abbrev pub answered_steps : Channel → Option Uint256 → Task (Node W) (Unit {0})
  answered_steps channel (some current_seq) = do
    (update_tx, channel') ← on_clone (Channel.make_payment num amount (some current_seq)) channel
    res ← send num lib self their_url channel' update_tx
    just (agree num lib self res)
  answered_steps channel none = just (write their_address (open_channel channel))

  abbrev pub pay_at_steps : Counterparty → Task (Node W) (Unit {0})
  pay_at_steps (open_channel channel) = do
    (update_tx, channel') ← on_clone (Channel.make_payment num amount none) channel
    res ← send num lib self their_url channel' update_tx
    answered_steps channel' res
  pay_at_steps counterparty = just (raise (guac (wrong_state "make payment" counterparty "Open")))
