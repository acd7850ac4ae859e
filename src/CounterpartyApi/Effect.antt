-- ===== src/CounterpartyApi/Effect.antt =====
-- Each handler of guac_core/src/counterparty_api.rs keeps to the specification.
use guac_rs.Prelude.{◌≡◌, ltb, some, String, inl, inr, arith, bytes_eq-eq, Option-cases}
use guac_rs.External.{Address, Num, Clarity, IsExact}
use guac_rs.Types.{
  Counterparty, new, other_creating, other_re_drawing, open_channel, NewChannelTx, ReDrawTx,
  UpdateTx,
}
use guac_rs.Outcome.{Outcome}
use guac_rs.Storage.{lookup, lookup-insert, insert}
use guac_rs.Node.{Guac, Node}
use guac_rs.Channel
use guac_rs.Channel.Payment.{receive_payment-IsReceipt}
use guac_rs.CounterpartyApi.{
  propose_channel, propose_channel_at, propose_re_draw, propose_re_draw_at, notify_channel_opened,
  notify_channel_opened_at, notify_re_draw, notify_re_draw_at, receive_payment, receive_payment_at,
  check_new_channel, check_re_draw,
}
use guac_rs.CounterpartyApi.Transition.{Effect}

module _ (num : Num) (lib : Clarity) {W : Type 0} (self : Guac W) where
  open self use {crypto}

  -- What the outcome of a call of `from` says, begun at `n`: the specification for its own entry,
  -- and nothing new for any other.
  abbrev pub Keeps : {A : Type 0} → Address → Node W → Outcome A × Node W → Type 0
  Keeps from n (r, n') =
      Effect crypto.own_address from r (lookup from n.storage) (lookup from n'.storage)

  propose_channel_at-Keeps :
      (from : Address) (tx : NewChannelTx) (c : Counterparty) (n : Node W)
      → lookup from n.storage ≡ some c
      → Keeps from n (propose_channel_at num lib self from tx c n)
  unfolding check_new_channel
  propose_channel_at-Keeps from tx (new i) n e =
      ground (arith, lookup-insert from from (other_creating tx i) n.storage)
  propose_channel_at-Keeps from tx c n e = ground arith

  propose_re_draw_at-Keeps :
      (from : Address) (tx : ReDrawTx) (c : Counterparty) (n : Node W)
      → lookup from n.storage ≡ some c
      → Keeps from n (propose_re_draw_at num lib self from tx c n)
  unfolding check_re_draw
  propose_re_draw_at-Keeps from tx (open_channel c) n e = ground (
    arith,
    lookup-insert from from (other_re_drawing tx c) n.storage,
    bytes_eq-eq tx.channel_id c.channel_id,
  )
  propose_re_draw_at-Keeps from tx c n e = ground arith

  notify_channel_opened_at-Keeps :
      (from : Address) (c : Counterparty) (n : Node W)
      → lookup from n.storage ≡ some c
      → Keeps from n (notify_channel_opened_at num lib self from c n)
  notify_channel_opened_at-Keeps from (other_creating tx i) n e = grind (arith, lookup-insert)
  notify_channel_opened_at-Keeps from c n e = ground arith

  notify_re_draw_at-Keeps :
      (from : Address) (c : Counterparty) (n : Node W)
      → lookup from n.storage ≡ some c
      → Keeps from n (notify_re_draw_at num lib self from c n)
  notify_re_draw_at-Keeps from (other_re_drawing tx c) n e = grind (arith, lookup-insert)
  notify_re_draw_at-Keeps from c n e = ground arith

  module _ (exact : IsExact num) where
    receive_payment_at-Keeps :
        (from : Address) (u : UpdateTx) (c : Counterparty) (n : Node W)
        → lookup from n.storage ≡ some c
        → Keeps from n (receive_payment_at num lib self from u c n)
    receive_payment_at-Keeps from u (open_channel c) n e = ground (
      arith,
      receive_payment-IsReceipt num exact c u,
      lookup-insert from from (open_channel (Channel.receive_payment num u c).1) n.storage,
    )
    receive_payment_at-Keeps from u c n e = ground arith

module _ (num : Num) (lib : Clarity) {W : Type 0} (self : Guac W) where
  open self use {crypto}

  -- A call of `propose_channel` that succeeds makes one of the moves of the caller's entry that the
  -- specification allows the other side (from `new`, only to `other_creating` with a proposal that
  -- names the two addresses at their ends, owes nothing from this node and has the settling period
  -- 5000; an unknown caller counts as `new`). A call that fails or panics leaves the entry as it
  -- was, except that an unknown caller may have become `new`.
  pub propose_channel-Keeps :
      (from : Address) (url : String) (tx : NewChannelTx) (n : Node W)
      → Keeps num lib self from n (propose_channel num lib self from url tx n)
  unfolding propose_channel
  propose_channel-Keeps from url tx n = elim (Option-cases (lookup from n.storage)) [
    | inl unknown ↦
        let b = ltb crypto.own_address from in
        let created = insert from (new b) n.storage in
        ground (
          arith,
          lookup-insert from from (new b) n.storage,
          lookup-insert from from (other_creating tx b) created,
        )
    | inr (c, e) ↦ rw e (rw e at (propose_channel_at-Keeps num lib self from tx c n e))
  ]

  -- A call of `propose_re_draw` that succeeds makes one of the moves of the caller's entry that the
  -- specification allows the other side (from an open channel, to `other_re_drawing` of the same
  -- channel only with a re-draw of its id, a higher number, its present balances, and this node's
  -- balance unchanged). A call that fails or panics leaves the entry as it was, except that an
  -- unknown caller may have become `new`.
  pub propose_re_draw-Keeps :
      (from : Address) (url : String) (tx : ReDrawTx) (n : Node W)
      → Keeps num lib self from n (propose_re_draw num lib self from url tx n)
  unfolding propose_re_draw
  propose_re_draw-Keeps from url tx n = elim (Option-cases (lookup from n.storage)) [
    | inl unknown ↦ rw unknown (rw unknown tt)
    | inr (c, e) ↦ rw e (rw e at (propose_re_draw_at-Keeps num lib self from tx c n e))
  ]

  -- A call of `notify_channel_opened` that succeeds makes one of the moves of the caller's entry
  -- that the specification allows the other side (from `other_creating`, only to an open channel
  -- with the balances of the proposal, number 0, no accrual and this node at its end). A call that
  -- fails or panics leaves the entry as it was, except that an unknown caller may have become
  -- `new`.
  pub notify_channel_opened-Keeps :
      (from : Address) (url : String) (n : Node W)
      → Keeps num lib self from n (notify_channel_opened num lib self from url n)
  unfolding notify_channel_opened
  notify_channel_opened-Keeps from url n = elim (Option-cases (lookup from n.storage)) [
    | inl unknown ↦ rw unknown (rw unknown tt)
    | inr (c, e) ↦ rw e (rw e at (notify_channel_opened_at-Keeps num lib self from c n e))
  ]

  -- A call of `notify_re_draw` that succeeds makes one of the moves of the caller's entry that the
  -- specification allows the other side (from `other_re_drawing`, only to the same channel, open,
  -- with the new balances and the number of the re-draw). A call that fails or panics leaves the
  -- entry as it was, except that an unknown caller may have become `new`.
  pub notify_re_draw-Keeps :
      (from : Address) (url : String) (n : Node W)
      → Keeps num lib self from n (notify_re_draw num lib self from url n)
  unfolding notify_re_draw
  notify_re_draw-Keeps from url n = elim (Option-cases (lookup from n.storage)) [
    | inl unknown ↦ rw unknown (rw unknown tt)
    | inr (c, e) ↦ rw e (rw e at (notify_re_draw_at-Keeps num lib self from c n e))
  ]

module _ (num : Num) (exact : IsExact num) (lib : Clarity) {W : Type 0} (self : Guac W) where
  -- Given exact arithmetic: a call of `receive_payment` that succeeds makes one of the moves of the
  -- caller's entry that the specification allows the other side (from an open channel, only to the
  -- same channel, or to one with the same id, end and total, a higher number, a balance of this
  -- node that is not lower, and an accrual that grew by just as much). A call that fails or panics
  -- leaves the entry as it was, except that an unknown caller may have become `new`.
  pub receive_payment-Keeps :
      (from : Address) (url : String) (u : UpdateTx) (n : Node W)
      → Keeps num lib self from n (receive_payment num lib self from url u n)
  unfolding receive_payment
  receive_payment-Keeps from url u n = elim (Option-cases (lookup from n.storage)) [
    | inl unknown ↦ rw unknown (rw unknown tt)
    | inr (c, e) ↦ rw e (rw e at (receive_payment_at-Keeps num lib self exact from u c n e))
  ]
