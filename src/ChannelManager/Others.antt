-- ===== src/ChannelManager/Others.antt =====
-- A call of guac_core/src/channel_manager.rs touches no entry but its counterparty's.
use guac_rs.Prelude.{ℕ, ltb, ◌≡◌, ◌≢◌, refl, inl, inr, String, arith, Option-cases}
use guac_rs.External.{Address, Num, Clarity}
use guac_rs.Types.{
  Channel, Counterparty, new, creating, other_creating, re_drawing, other_re_drawing, open_channel,
  ReDrawTx,
}
use guac_rs.External.{Signature}
use guac_rs.Storage.{lookup, lookup-insert, insert}
use guac_rs.Node.{Guac, Node}
use guac_rs.ChannelManager.Fill.{fill_signed, fill_at}
use guac_rs.ChannelManager.Withdraw.{withdraw_signed, withdraw_at}
use guac_rs.ChannelManager.Pay.{pay_at}
use guac_rs.ChannelManager.{fill_channel, withdraw, make_payment}

module _ (num : Num) (lib : Clarity) {W : Type 0} (self : Guac W) (their k : Address) (url : String)
    (amount : ℕ) (ne : k ≢ their) where
  fill_signed-others :
      (c : Channel) (tx : ReDrawTx) (sig : Signature) (n : Node W)
      → lookup k (fill_signed lib self their url amount c tx sig n).1.storage ≡ lookup k n.storage
  unfolding fill_signed
  fill_signed-others c tx sig n = grind (arith, lookup-insert)

  withdraw_signed-others :
      (c : Channel) (tx : ReDrawTx) (sig : Signature) (n : Node W)
      → lookup k (withdraw_signed lib self their url amount c tx sig n).1.storage
        ≡ lookup k n.storage
  unfolding withdraw_signed
  withdraw_signed-others c tx sig n = grind (arith, lookup-insert)

  fill_at-others :
      (c : Counterparty) (n : Node W)
      → lookup k (fill_at num lib self their url amount c n).1.storage ≡ lookup k n.storage
  fill_at-others (new i) n = grind (arith, lookup-insert)
  fill_at-others (open_channel c) n = grind (arith, fill_signed-others)
  fill_at-others (creating tx i) n = refl
  fill_at-others (other_creating tx i) n = refl
  fill_at-others (re_drawing tx c) n = refl
  fill_at-others (other_re_drawing tx c) n = refl

  withdraw_at-others :
      (c : Counterparty) (n : Node W)
      → lookup k (withdraw_at num lib self their url amount c n).1.storage ≡ lookup k n.storage
  withdraw_at-others (open_channel c) n = grind (arith, withdraw_signed-others)
  withdraw_at-others c n = refl

  pay_at-others :
      (c : Counterparty) (n : Node W)
      → lookup k (pay_at num lib self their url amount c n).1.storage ≡ lookup k n.storage
  pay_at-others (open_channel c) n = grind (arith, lookup-insert)
  pay_at-others c n = refl

module _ (num : Num) (lib : Clarity) {W : Type 0} (self : Guac W) where
  -- `fill_channel`, `withdraw` and `make_payment` leave the entry of every address but the
  -- counterparty's as it was, whatever they return.
  pub calls-others :
      (their k : Address) (url : String) (amount : ℕ) (n : Node W)
      → k ≢ their
      → (lookup k (fill_channel num lib self their url amount n).1.storage ≡ lookup k n.storage)
        × (lookup k (withdraw num lib self their url amount n).1.storage ≡ lookup k n.storage)
        × (lookup k (make_payment num lib self their url amount n).1.storage ≡ lookup k n.storage)
  unfolding fill_channel withdraw make_payment
  calls-others their k url amount n ne = elim (Option-cases (lookup their n.storage)) [
    | inl unknown ↦
        let b = ltb self.crypto.own_address their in
        let created = record n { storage = insert their (new b) n.storage } in
        (
          ground (
            arith,
            fill_at-others num lib self their k url amount ne (new b) created,
            lookup-insert their their (new b) n.storage,
            lookup-insert their k (new b) n.storage,
          ),
          rw unknown refl,
          rw unknown refl,
        )
    | inr (c, e) ↦ (
      rw e (fill_at-others num lib self their k url amount ne c n),
      rw e (withdraw_at-others num lib self their k url amount ne c n),
      rw e (pay_at-others num lib self their k url amount ne c n),
    )
  ]
