-- ===== src/Spending/Requests.antt =====
-- What the requests of other nodes make a node send (guac_core/src/counterparty_api.rs): nothing.
use guac_rs.Prelude.{ℕ, ◌≡◌, ltb, refl, inl, inr, arith, Option-cases}
use guac_rs.External.{Address, Num, Clarity}
use guac_rs.Types.{
  Counterparty, new, other_creating, other_re_drawing, open_channel, NewChannelTx, ReDrawTx,
  UpdateTx,
}
use guac_rs.Storage.{lookup, lookup-insert}
use guac_rs.Node.{Guac, Node}
use guac_rs.CounterpartyApi.{
  as_api, propose_channel, propose_channel_at, propose_re_draw, propose_re_draw_at,
  notify_channel_opened, notify_channel_opened_at, notify_re_draw, notify_re_draw_at,
  receive_payment, receive_payment_at, check_new_channel, check_re_draw,
}
use guac_rs.HttpServer
use guac_rs.HttpServer.{serve}
use guac_rs.Spending.{Spends}

module _ (num : Num) (lib : Clarity) {W : Type 0} (self : Guac W) (count : W → ℕ)
    (spends : Spends self.blockchain_client count) (from : Address) where
  propose_channel_at-quiet :
      (tx : NewChannelTx) (c : Counterparty) (n : Node W)
      → count (propose_channel_at num lib self from tx c n).1.world ≡ count n.world
  unfolding check_new_channel
  propose_channel_at-quiet tx (new i) n = ground arith
  propose_channel_at-quiet tx c n = refl

  propose_re_draw_at-quiet :
      (tx : ReDrawTx) (c : Counterparty) (n : Node W)
      → count (propose_re_draw_at num lib self from tx c n).1.world ≡ count n.world
  unfolding check_re_draw
  propose_re_draw_at-quiet tx (open_channel c) n = ground arith
  propose_re_draw_at-quiet tx c n = refl

  notify_channel_opened_at-quiet :
      (c : Counterparty) (n : Node W)
      → count (notify_channel_opened_at num lib self from c n).1.world ≡ count n.world
  notify_channel_opened_at-quiet (other_creating tx i) n = grind (arith, spends.looks_open)
  notify_channel_opened_at-quiet c n = refl

  notify_re_draw_at-quiet :
      (c : Counterparty) (n : Node W)
      → count (notify_re_draw_at num lib self from c n).1.world ≡ count n.world
  notify_re_draw_at-quiet (other_re_drawing tx c) n = grind (arith, spends.looks_re_draw)
  notify_re_draw_at-quiet c n = refl

  receive_payment_at-quiet :
      (u : UpdateTx) (c : Counterparty) (n : Node W)
      → count (receive_payment_at num lib self from u c n).1.world ≡ count n.world
  receive_payment_at-quiet u (open_channel c) n = ground arith
  receive_payment_at-quiet u c n = refl

  propose_channel-quiet :
      (tx : NewChannelTx) (n : Node W)
      → count (propose_channel num lib self from "" tx n).1.world ≡ count n.world
  unfolding propose_channel
  propose_channel-quiet tx n = elim (Option-cases (lookup from n.storage)) [
    | inl unknown ↦
        let b = ltb self.crypto.own_address from in
        ground (arith, lookup-insert from from (new b) n.storage)
    | inr (c, e) ↦ rw e (propose_channel_at-quiet tx c n)
  ]

  propose_re_draw-quiet :
      (tx : ReDrawTx) (n : Node W)
      → count (propose_re_draw num lib self from "" tx n).1.world ≡ count n.world
  unfolding propose_re_draw
  propose_re_draw-quiet tx n = elim (Option-cases (lookup from n.storage)) [
    | inl unknown ↦ rw unknown refl
    | inr (c, e) ↦ rw e (propose_re_draw_at-quiet tx c n)
  ]

  notify_channel_opened-quiet :
      (n : Node W) → count (notify_channel_opened num lib self from "" n).1.world ≡ count n.world
  unfolding notify_channel_opened
  notify_channel_opened-quiet n = elim (Option-cases (lookup from n.storage)) [
    | inl unknown ↦ rw unknown refl
    | inr (c, e) ↦ rw e (notify_channel_opened_at-quiet c n)
  ]

  notify_re_draw-quiet :
      (n : Node W) → count (notify_re_draw num lib self from "" n).1.world ≡ count n.world
  unfolding notify_re_draw
  notify_re_draw-quiet n = elim (Option-cases (lookup from n.storage)) [
    | inl unknown ↦ rw unknown refl
    | inr (c, e) ↦ rw e (notify_re_draw_at-quiet c n)
  ]

  receive_payment-quiet :
      (u : UpdateTx) (n : Node W)
      → count (receive_payment num lib self from "" u n).1.world ≡ count n.world
  unfolding receive_payment
  receive_payment-quiet u n = elim (Option-cases (lookup from n.storage)) [
    | inl unknown ↦ rw unknown refl
    | inr (c, e) ↦ rw e (receive_payment_at-quiet u c n)
  ]

module _ (num : Num) (lib : Clarity) {W : Type 0} (self : Guac W) (count : W → ℕ)
    (spends : Spends self.blockchain_client count) where
  pub serve-quiet :
      (request : HttpServer.Request) (n : Node W)
      → count (serve (as_api num lib self) request n).1.world ≡ count n.world
  unfolding serve
  serve-quiet (HttpServer.propose_channel from tx) n =
      propose_channel-quiet num lib self count spends from tx n
  serve-quiet (HttpServer.propose_re_draw from tx) n =
      propose_re_draw-quiet num lib self count spends from tx n
  serve-quiet (HttpServer.notify_channel_opened from) n =
      notify_channel_opened-quiet num lib self count spends from n
  serve-quiet (HttpServer.notify_re_draw from) n =
      notify_re_draw-quiet num lib self count spends from n
  serve-quiet (HttpServer.receive_payment from u) n =
      receive_payment-quiet num lib self count spends from u n
