-- ===== src/CounterpartyApi/Answers.antt =====
-- When a handler of guac_core/src/counterparty_api.rs says yes: the converse of
-- CounterpartyApi/Effect.
use guac_rs.Prelude.{
  ◌≡◌, ltb, if◌then◌else◌, Bool, Option, none, some, String, arith, bytes_eq_self,
}
use guac_rs.External.{Uint256, Address, Signature, Bytes, Num, Clarity}
use guac_rs.Types.{
  Channel, new, other_creating, other_re_drawing, open_channel, NewChannelTx, ReDrawTx, UpdateTx,
}
use guac_rs.Outcome.{ok}
use guac_rs.Crypto.{eth_sign, new_channel_fingerprint, re_draw_fingerprint, update_fingerprint}
use guac_rs.Storage.{lookup, insert, lookup-insert}
use guac_rs.Node.{Guac, Node}
use guac_rs.Channel
use guac_rs.CounterpartyApi.{
  propose_channel, propose_re_draw, notify_channel_opened, notify_re_draw, receive_payment,
}
use guac_rs.CounterpartyApi.Transition.{IsFair, IsFairReDraw}

module _ (num : Num) (lib : Clarity) {W : Type 0} (self : Guac W) (from : Address) where
  open self use {blockchain_client, crypto}

  -- If an unknown caller proposes a channel that names the two addresses at their ends, owes
  -- nothing from this node and has the settling period 5000, then `propose_channel` returns this
  -- node's signature on its fingerprint and stores the caller as `other_creating` with the
  -- proposal, written after the new entry.
  pub propose_channel_signs :
      (url : String) (tx : NewChannelTx) (n : Node W)
      → lookup from n.storage ≡ none
      → let i_am_0 = ltb crypto.own_address from in
        IsFair crypto.own_address from i_am_0 tx
        → propose_channel num lib self from url tx n ≡ (
          ok (eth_sign lib crypto (new_channel_fingerprint lib tx crypto.contract_address)),
          record n {
            storage = insert from (other_creating tx i_am_0) (insert from (new i_am_0) n.storage);
          },
        )
  unfolding propose_channel
  propose_channel_signs url tx n unknown fair =
      ground (arith, lookup-insert from from (new (ltb crypto.own_address from)) n.storage)

  -- If the caller's channel is open, and the re-draw has its id, a higher number, its present
  -- balances and this node's balance unchanged, then `propose_re_draw` returns this node's
  -- signature on its fingerprint and stores the caller as `other_re_drawing` with the re-draw and
  -- the channel.
  pub propose_re_draw_signs :
      (url : String) (tx : ReDrawTx) (c : Channel) (n : Node W)
      → lookup from n.storage ≡ some (open_channel c)
      → IsFairReDraw c tx
      → propose_re_draw num lib self from url tx n ≡ (
        ok (eth_sign lib crypto (re_draw_fingerprint lib tx crypto.contract_address)),
        record n { storage = insert from (other_re_drawing tx c) n.storage },
      )
  unfolding propose_re_draw
  propose_re_draw_signs url tx c n found fair = ground (arith, bytes_eq_self c.channel_id)

  -- Once the chain shows the channel, it is open.
  pub notify_channel_opened_opens :
      (url : String) (tx : NewChannelTx) (i_am_0 : Bool) (id : Bytes) (w : W) (n : Node W)
      → lookup from n.storage ≡ some (other_creating tx i_am_0)
      → blockchain_client.check_for_open
          (if i_am_0 then crypto.own_address else from)
          (if i_am_0 then from else crypto.own_address)
          n.world
        ≡ (ok (some id), w)
      → notify_channel_opened num lib self from url n ≡ (
        ok tt,
        record {
          storage =
              insert from
                (open_channel (record {
                  channel_id = id;
                  sequence_number = 0;
                  balance_0 = tx.balance_0;
                  balance_1 = tx.balance_1;
                  accrual = 0;
                  i_am_0 = i_am_0;
                }))
                n.storage;
          world = w;
        },
      )
  unfolding notify_channel_opened
  notify_channel_opened_opens url tx i_am_0 id w n found shown = ground arith

  pub notify_re_draw_opens :
      (url : String) (tx : ReDrawTx) (c : Channel) (w : W) (n : Node W)
      → lookup from n.storage ≡ some (other_re_drawing tx c)
      → blockchain_client.check_for_re_draw c.channel_id n.world ≡ (ok tt, w)
      → notify_re_draw num lib self from url n ≡ (
        ok tt,
        record {
          storage =
              insert from
                (open_channel (record c {
                  balance_0 = tx.new_balance_0;
                  balance_1 = tx.new_balance_1;
                  sequence_number = tx.sequence_number;
                }))
                n.storage;
          world = w;
        },
      )
  unfolding notify_re_draw
  notify_re_draw_opens url tx c w n found shown = ground arith

  -- An update with the sender's signature is handed to the channel.
  pub receive_payment_accepts :
      (url : String) (u : UpdateTx) (sig : Signature) (c d : Channel) (r : Option Uint256)
      → (n : Node W) → lookup from n.storage ≡ some (open_channel c)
      → (if c.i_am_0 then u.signature_1 else u.signature_0) ≡ some sig
      → lib.recover sig (update_fingerprint lib u crypto.contract_address) ≡ some from
      → Channel.receive_payment num u c ≡ (ok r, d)
      → receive_payment num lib self from url u n
        ≡ (ok r, record n { storage = insert from (open_channel d) n.storage })
  unfolding receive_payment
  receive_payment_accepts url u sig c d r n found signed recovered taken = ground arith
