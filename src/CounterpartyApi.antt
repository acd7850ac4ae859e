-- ===== src/CounterpartyApi.antt =====
-- guac_core/src/counterparty_api.rs: what a node does when the other node calls it. Each handler
-- reads the counterparty's state and goes on by cases on it in a function of its own.
pub mod Transition
pub mod Effect
pub mod Others
pub mod Answers
pub mod Receipt
use guac_rs.Prelude.{
  Bool, true, false, Option, none, some, String, ltb, leb, not, bytes_eq, ◌==◌, if◌then◌else◌,
}
use guac_rs.External.{Uint256, Address, Signature, Bytes, Num, Clarity}
use guac_rs.Types.{
  Channel, Counterparty, new, other_creating, other_re_drawing, open_channel, NewChannelTx,
  ReDrawTx, UpdateTx, text, with_numbers, with_bytes, forbidden, wrong_state, guac, bail,
  bad_signature,
}
use guac_rs.Outcome.{Action, pure, raise, ensure, or_raise, ◌>>=◌, ◌>>◌}
use guac_rs.Crypto.{eth_sign, new_channel_fingerprint, re_draw_fingerprint, update_fingerprint}
use guac_rs.Storage.{get_counterparty}
use guac_rs.Node.{
  CounterpartyApi, Guac, Node, on_storage, on_world, on_clone, write, check_for_counterparty,
  make_counterparty_if_none,
}
use guac_rs.Channel

module _ {S : Type 0} where
  -- The `forbidden!` checks of `propose_channel`.
  unfoldable pub check_new_channel : Address → Address → Bool → NewChannelTx → Action S (Unit {0})
  check_new_channel my_address from_address i_am_0 tx = do
    if i_am_0
        then (do
          ensure (tx.address_0 == my_address) (
              guac (
                forbidden (
                  with_numbers "Address 0 ({}) should equal my address ({})" tx.address_0
                    my_address)))
          ensure (tx.address_1 == from_address) (
              guac (
                forbidden (
                  with_numbers "Address 1 ({}) should equal your address ({})" tx.address_1
                    from_address))))
        else (do
          ensure (tx.address_1 == my_address) (
              guac (
                forbidden (
                  with_numbers "Address 1 ({}) should equal my address ({})" tx.address_1
                    my_address)))
          ensure (tx.address_0 == from_address) (
              guac (
                forbidden (
                  with_numbers "Address 0 ({}) should equal your address ({})" tx.address_0
                    from_address))))
    ensure ((if i_am_0 then tx.balance_0 else tx.balance_1) == 0)
        (guac (forbidden (text "My balance in proposed channel must be zero.")))
    ensure (tx.settling_period_length == 5000)
        (guac (forbidden (text "I only accept settling periods of 5000 blocks")))

  -- The `forbidden!` checks of `propose_re_draw`.
  unfoldable pub check_re_draw : Channel → ReDrawTx → Action S (Unit {0})
  check_re_draw channel tx = do
    ensure (bytes_eq tx.channel_id channel.channel_id) (
        guac (
          forbidden (
            with_bytes "Channel ID ({:?}) should equal my saved channel ID ({:?})" tx.channel_id
              channel.channel_id)))
    ensure (ltb channel.sequence_number tx.sequence_number) (
        guac (
          forbidden (
            with_numbers "Sequence number ({}) should be higher than {}" tx.sequence_number
              channel.sequence_number)))
    ensure (tx.old_balance_0 == channel.balance_0) (
        guac (
          forbidden
            (with_numbers "Old balance_0 ({}) should equal {}" tx.old_balance_0 channel.balance_0)))
    ensure (tx.old_balance_1 == channel.balance_1) (
        guac (
          forbidden
            (with_numbers "Old balance_1 ({}) should equal {}" tx.old_balance_1 channel.balance_1)))
    if channel.i_am_0
        then ensure (tx.new_balance_0 == channel.balance_0) (
            guac (
              forbidden (
                with_numbers "New balance_0 ({}) should equal my balance ({})" tx.new_balance_0
                  channel.balance_0)))
        else ensure (tx.new_balance_1 == channel.balance_1) (
            guac (
              forbidden (
                with_numbers "New balance_1 ({}) should equal my balance ({})" tx.new_balance_1
                  channel.balance_1)))

module _ (num : Num) (lib : Clarity) {W : Type 0} (self : Guac W) where
  open self use {blockchain_client, crypto}

  abbrev pub propose_channel_at : Address → NewChannelTx → Counterparty → Action (Node W) Signature
  propose_channel_at from_address tx (new i_am_0) = do
    check_new_channel crypto.own_address from_address i_am_0 tx
    write from_address (other_creating tx i_am_0)
    pure (eth_sign lib crypto (new_channel_fingerprint lib tx crypto.contract_address))
  propose_channel_at from_address tx counterparty =
      raise (guac (wrong_state "propose channel" counterparty "New"))

  unfoldable pub propose_channel : Address → String → NewChannelTx → Action (Node W) Signature
  unfolding check_new_channel get_counterparty make_counterparty_if_none
  propose_channel from_address to_url tx = do
    found ← on_storage (get_counterparty from_address)
    counterparty ← make_counterparty_if_none from_address crypto.own_address found
    propose_channel_at from_address tx counterparty

  abbrev pub propose_re_draw_at : Address → ReDrawTx → Counterparty → Action (Node W) Signature
  propose_re_draw_at from_address tx (open_channel channel) = do
    check_re_draw channel tx
    write from_address (other_re_drawing tx channel)
    pure (eth_sign lib crypto (re_draw_fingerprint lib tx crypto.contract_address))
  propose_re_draw_at from_address tx counterparty =
      raise (guac (wrong_state "propose redraw" counterparty "Open"))

  unfoldable pub propose_re_draw : Address → String → ReDrawTx → Action (Node W) Signature
  unfolding check_re_draw get_counterparty check_for_counterparty
  propose_re_draw from_address to_url tx = do
    found ← on_storage (get_counterparty from_address)
    counterparty ← check_for_counterparty found
    propose_re_draw_at from_address tx counterparty

  abbrev open_if_found : Address → NewChannelTx → Bool → Option Bytes → Action (Node W) (Unit {0})
  open_if_found from_address tx i_am_0 (some channel_id) = write from_address (
      open_channel (record {
        channel_id = channel_id;
        sequence_number = 0;
        balance_0 = tx.balance_0;
        balance_1 = tx.balance_1;
        accrual = 0;
        i_am_0 = i_am_0;
      }))
  open_if_found from_address tx i_am_0 none = raise (bail "Cannot confirm that channel was opened")

  abbrev pub notify_channel_opened_at : Address → Counterparty → Action (Node W) (Unit {0})
  notify_channel_opened_at from_address (other_creating tx i_am_0) = do
    let address_0 = if i_am_0 then crypto.own_address else from_address
    let address_1 = if i_am_0 then from_address else crypto.own_address
    maybe_channel_id ← on_world (blockchain_client.check_for_open address_0 address_1)
    open_if_found from_address tx i_am_0 maybe_channel_id
  notify_channel_opened_at from_address counterparty =
      raise (guac (wrong_state "notify channel opened" counterparty "OtherCreating"))

  unfoldable pub notify_channel_opened : Address → String → Action (Node W) (Unit {0})
  unfolding get_counterparty check_for_counterparty
  notify_channel_opened from_address to_url = do
    found ← on_storage (get_counterparty from_address)
    counterparty ← check_for_counterparty found
    notify_channel_opened_at from_address counterparty

  abbrev pub notify_re_draw_at : Address → Counterparty → Action (Node W) (Unit {0})
  notify_re_draw_at from_address (other_re_drawing tx channel) = do
    on_world (blockchain_client.check_for_re_draw channel.channel_id)
    write from_address (
        open_channel (record channel {
          balance_0 = tx.new_balance_0;
          balance_1 = tx.new_balance_1;
          sequence_number = tx.sequence_number;
        }))
  notify_re_draw_at from_address counterparty =
      raise (guac (wrong_state "notify redraw" counterparty "OtherReDrawing"))

  unfoldable pub notify_re_draw : Address → String → Action (Node W) (Unit {0})
  unfolding get_counterparty check_for_counterparty
  notify_re_draw from_address to_url = do
    found ← on_storage (get_counterparty from_address)
    counterparty ← check_for_counterparty found
    notify_re_draw_at from_address counterparty

  abbrev pub receive_payment_at :
      Address → UpdateTx → Counterparty → Action (Node W) (Option Uint256)
  receive_payment_at from_address update_tx (open_channel channel) = do
    their_signature ←
        or_raise (if channel.i_am_0 then update_tx.signature_1 else update_tx.signature_0)
          (guac (forbidden (text "No signature supplied")))
    let fingerprint = update_fingerprint lib update_tx crypto.contract_address
    recovered_address ← or_raise (lib.recover their_signature fingerprint) bad_signature
    ensure (recovered_address == from_address)
        (guac (forbidden (text "Your signature is incorrect")))
    (maybe_seq, channel') ← on_clone (Channel.receive_payment num update_tx) channel
    write from_address (open_channel channel')
    pure maybe_seq
  receive_payment_at from_address update_tx counterparty =
      raise (guac (wrong_state "receive payment" counterparty "Open"))

  unfoldable pub receive_payment : Address → String → UpdateTx → Action (Node W) (Option Uint256)
  unfolding get_counterparty check_for_counterparty
  receive_payment from_address to_url update_tx = do
    found ← on_storage (get_counterparty from_address)
    counterparty ← check_for_counterparty found
    receive_payment_at from_address update_tx counterparty

  -- `impl CounterpartyApi for Guac`
  abbrev pub as_api : CounterpartyApi (Node W)
  as_api = record {
    propose_channel = propose_channel;
    propose_re_draw = propose_re_draw;
    notify_channel_opened = notify_channel_opened;
    notify_re_draw = notify_re_draw;
    receive_payment = receive_payment;
  }
