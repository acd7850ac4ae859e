-- ===== src/CounterpartyApi/Others.antt =====
-- A handler of guac_core/src/counterparty_api.rs touches no entry but its caller's.
use guac_rs.Prelude.{◌≡◌, ◌≢◌, refl, ltb, String, inl, inr, arith, Option-cases}
use guac_rs.External.{Address, Num, Clarity}
use guac_rs.Types.{
  Counterparty, new, other_creating, other_re_drawing, open_channel, NewChannelTx, ReDrawTx,
  UpdateTx,
}
use guac_rs.Storage.{lookup, lookup-insert, insert}
use guac_rs.Node.{Guac, Node}
use guac_rs.Channel
use guac_rs.CounterpartyApi.{
  propose_channel, propose_channel_at, propose_re_draw, propose_re_draw_at, notify_channel_opened,
  notify_channel_opened_at, notify_re_draw, notify_re_draw_at, receive_payment, receive_payment_at,
  check_new_channel, check_re_draw,
}

module _ (num : Num) (lib : Clarity) {W : Type 0} (self : Guac W) (from k : Address) where
  open self use {crypto}

  propose_channel_at-others :
      (tx : NewChannelTx) (c : Counterparty) (n : Node W)
      → k ≢ from
      → lookup k (propose_channel_at num lib self from tx c n).1.storage ≡ lookup k n.storage
  unfolding check_new_channel
  propose_channel_at-others tx (new i) n ne =
      ground (arith, lookup-insert from k (other_creating tx i) n.storage)
  propose_channel_at-others tx c n ne = refl

  propose_re_draw_at-others :
      (tx : ReDrawTx) (c : Counterparty) (n : Node W)
      → k ≢ from
      → lookup k (propose_re_draw_at num lib self from tx c n).1.storage ≡ lookup k n.storage
  unfolding check_re_draw
  propose_re_draw_at-others tx (open_channel c) n ne =
      ground (arith, lookup-insert from k (other_re_drawing tx c) n.storage)
  propose_re_draw_at-others tx c n ne = refl

  notify_channel_opened_at-others :
      (c : Counterparty) (n : Node W)
      → k ≢ from
      → lookup k (notify_channel_opened_at num lib self from c n).1.storage ≡ lookup k n.storage
  notify_channel_opened_at-others (other_creating tx i) n ne = grind (arith, lookup-insert)
  notify_channel_opened_at-others c n ne = refl

  notify_re_draw_at-others :
      (c : Counterparty) (n : Node W)
      → k ≢ from
      → lookup k (notify_re_draw_at num lib self from c n).1.storage ≡ lookup k n.storage
  notify_re_draw_at-others (other_re_drawing tx c) n ne = grind (arith, lookup-insert)
  notify_re_draw_at-others c n ne = refl

  receive_payment_at-others :
      (u : UpdateTx) (c : Counterparty) (n : Node W)
      → k ≢ from
      → lookup k (receive_payment_at num lib self from u c n).1.storage ≡ lookup k n.storage
  receive_payment_at-others u (open_channel c) n ne =
      ground
        (arith, lookup-insert from k (open_channel (Channel.receive_payment num u c).1) n.storage)
  receive_payment_at-others u c n ne = refl

  pub propose_channel-others :
      (url : String) (tx : NewChannelTx) (n : Node W)
      → k ≢ from
      → lookup k (propose_channel num lib self from url tx n).1.storage ≡ lookup k n.storage
  unfolding propose_channel
  propose_channel-others url tx n ne = elim (Option-cases (lookup from n.storage)) [
    | inl unknown ↦
        let b = ltb crypto.own_address from in
        let created = insert from (new b) n.storage in
        ground (
          arith,
          lookup-insert from from (new b) n.storage,
          lookup-insert from k (new b) n.storage,
          lookup-insert from k (other_creating tx b) created,
        )
    | inr (c, e) ↦ rw e (propose_channel_at-others tx c n ne)
  ]

  pub propose_re_draw-others :
      (url : String) (tx : ReDrawTx) (n : Node W)
      → k ≢ from
      → lookup k (propose_re_draw num lib self from url tx n).1.storage ≡ lookup k n.storage
  unfolding propose_re_draw
  propose_re_draw-others url tx n ne = elim (Option-cases (lookup from n.storage)) [
    | inl unknown ↦ rw unknown
    | inr (c, e) ↦ rw e (propose_re_draw_at-others tx c n ne)
  ]

  pub notify_channel_opened-others :
      (url : String) (n : Node W)
      → k ≢ from
      → lookup k (notify_channel_opened num lib self from url n).1.storage ≡ lookup k n.storage
  unfolding notify_channel_opened
  notify_channel_opened-others url n ne = elim (Option-cases (lookup from n.storage)) [
    | inl unknown ↦ rw unknown
    | inr (c, e) ↦ rw e (notify_channel_opened_at-others c n ne)
  ]

  pub notify_re_draw-others :
      (url : String) (n : Node W)
      → k ≢ from
      → lookup k (notify_re_draw num lib self from url n).1.storage ≡ lookup k n.storage
  unfolding notify_re_draw
  notify_re_draw-others url n ne = elim (Option-cases (lookup from n.storage)) [
    | inl unknown ↦ rw unknown
    | inr (c, e) ↦ rw e (notify_re_draw_at-others c n ne)
  ]

  pub receive_payment-others :
      (url : String) (u : UpdateTx) (n : Node W)
      → k ≢ from
      → lookup k (receive_payment num lib self from url u n).1.storage ≡ lookup k n.storage
  unfolding receive_payment
  receive_payment-others url u n ne = elim (Option-cases (lookup from n.storage)) [
    | inl unknown ↦ rw unknown
    | inr (c, e) ↦ rw e (receive_payment_at-others u c n ne)
  ]
