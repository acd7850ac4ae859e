-- ===== src/Interleave/Requests.antt =====
-- The handlers of guac_core/src/counterparty_api.rs, each action a step, with their results as the
-- server writes them (guac_http/src/counterparty_server.rs).
use guac_rs.Prelude.{Bool, Option, none, some, ◌==◌, if◌then◌else◌}
use guac_rs.External.{Address, Bytes, Num, Clarity}
use guac_rs.Types.{
  Counterparty, new, other_creating, other_re_drawing, open_channel, NewChannelTx, ReDrawTx,
  UpdateTx, text, forbidden, wrong_state, guac, bail, bad_signature,
}
use guac_rs.Outcome.{pure, raise, ensure, or_raise}
use guac_rs.Crypto.{eth_sign, new_channel_fingerprint, re_draw_fingerprint, update_fingerprint}
use guac_rs.Storage.{get_counterparty}
use guac_rs.Node.{Guac, Node, on_storage, on_world, on_clone, write, check_for_counterparty}
use guac_rs.Task.{Task, call, just}
use guac_rs.Channel
use guac_rs.CounterpartyApi.{check_new_channel, check_re_draw}
use guac_rs.HttpServer.{
  Request, propose_channel, propose_re_draw, notify_channel_opened, notify_re_draw, receive_payment,
  Json, signature_json, unit_json, sequence_json,
}
use guac_rs.Interleave.Steps.{◌>>=◌, ◌>>◌}
use guac_rs.Interleave.User.{make_steps}

module _ (num : Num) (lib : Clarity) {W : Type 0} (self : Guac W) where
  open self use {blockchain_client, crypto}

  abbrev pub propose_channel_steps : Address → NewChannelTx → Counterparty → Task (Node W) Json
  propose_channel_steps from tx (new i_am_0) = do
    check_new_channel crypto.own_address from i_am_0 tx
    write from (other_creating tx i_am_0)
    just (
        pure (
          signature_json
            (eth_sign lib crypto (new_channel_fingerprint lib tx crypto.contract_address))))
  propose_channel_steps from tx counterparty =
      just (raise (guac (wrong_state "propose channel" counterparty "New")))

  abbrev pub propose_re_draw_steps : Address → ReDrawTx → Counterparty → Task (Node W) Json
  propose_re_draw_steps from tx (open_channel channel) = do
    check_re_draw channel tx
    write from (other_re_drawing tx channel)
    just (
        pure (
          signature_json
            (eth_sign lib crypto (re_draw_fingerprint lib tx crypto.contract_address))))
  propose_re_draw_steps from tx counterparty =
      just (raise (guac (wrong_state "propose redraw" counterparty "Open")))

  abbrev pub opened_steps : Address → NewChannelTx → Bool → Option Bytes → Task (Node W) Json
  opened_steps from tx i_am_0 (some channel_id) = do
    write from (
        open_channel (record {
          channel_id = channel_id;
          sequence_number = 0;
          balance_0 = tx.balance_0;
          balance_1 = tx.balance_1;
          accrual = 0;
          i_am_0 = i_am_0;
        }))
    just (pure (unit_json tt))
  opened_steps from tx i_am_0 none = just (raise (bail "Cannot confirm that channel was opened"))

  abbrev pub notify_channel_opened_steps : Address → Counterparty → Task (Node W) Json
  notify_channel_opened_steps from (other_creating tx i_am_0) = do
    let address_0 = if i_am_0 then crypto.own_address else from
    let address_1 = if i_am_0 then from else crypto.own_address
    maybe_channel_id ← on_world (blockchain_client.check_for_open address_0 address_1)
    opened_steps from tx i_am_0 maybe_channel_id
  notify_channel_opened_steps from counterparty =
      just (raise (guac (wrong_state "notify channel opened" counterparty "OtherCreating")))

  abbrev pub notify_re_draw_steps : Address → Counterparty → Task (Node W) Json
  notify_re_draw_steps from (other_re_drawing tx channel) = do
    on_world (blockchain_client.check_for_re_draw channel.channel_id)
    write from (
        open_channel (record channel {
          balance_0 = tx.new_balance_0;
          balance_1 = tx.new_balance_1;
          sequence_number = tx.sequence_number;
        }))
    just (pure (unit_json tt))
  notify_re_draw_steps from counterparty =
      just (raise (guac (wrong_state "notify redraw" counterparty "OtherReDrawing")))

  abbrev pub receive_payment_steps : Address → UpdateTx → Counterparty → Task (Node W) Json
  receive_payment_steps from update_tx (open_channel channel) = do
    their_signature ←
        or_raise (if channel.i_am_0 then update_tx.signature_1 else update_tx.signature_0)
          (guac (forbidden (text "No signature supplied")))
    let fingerprint = update_fingerprint lib update_tx crypto.contract_address
    recovered_address ← or_raise (lib.recover their_signature fingerprint) bad_signature
    ensure (recovered_address == from) (guac (forbidden (text "Your signature is incorrect")))
    (maybe_seq, channel') ← on_clone (Channel.receive_payment num update_tx) channel
    write from (open_channel channel')
    just (pure (sequence_json maybe_seq))
  receive_payment_steps from update_tx counterparty =
      just (raise (guac (wrong_state "receive payment" counterparty "Open")))

  abbrev pub proposed_steps : Address → NewChannelTx → Option Counterparty → Task (Node W) Json
  proposed_steps from tx (some counterparty) = propose_channel_steps from tx counterparty
  proposed_steps from tx none = make_steps num lib self from (propose_channel_steps from tx)

  abbrev pub known_steps : Address → (Counterparty → Task (Node W) Json) → Task (Node W) Json
  known_steps from handle = do
    found ← on_storage (get_counterparty from)
    counterparty ← check_for_counterparty found
    handle counterparty

  abbrev pub request_steps : Request → Task (Node W) Json
  request_steps (propose_channel from tx) =
      call (on_storage (get_counterparty from)) (proposed_steps from tx)
  request_steps (propose_re_draw from tx) = known_steps from (propose_re_draw_steps from tx)
  request_steps (notify_channel_opened from) = known_steps from (notify_channel_opened_steps from)
  request_steps (notify_re_draw from) = known_steps from (notify_re_draw_steps from)
  request_steps (receive_payment from tx) = known_steps from (receive_payment_steps from tx)
