-- ===== src/Spending/Calls.antt =====
-- What the calls of the user send (guac_core/src/channel_manager.rs).
use guac_rs.Prelude.{ℕ, ◌≡◌, ltb, refl, String, inl, inr, arith, Option-cases}
use guac_rs.External.{Address, Num, Clarity, Signature}
use guac_rs.Types.{
  Channel, Counterparty, new, creating, other_creating, re_drawing, other_re_drawing, open_channel,
  ReDrawTx,
}
use guac_rs.Storage.{lookup, lookup-insert, insert}
use guac_rs.Node.{Guac, Node}
use guac_rs.ChannelManager.Fill.{fill_signed, fill_at}
use guac_rs.ChannelManager.Withdraw.{withdraw_signed, withdraw_at}
use guac_rs.ChannelManager.Pay.{pay_at}
use guac_rs.ChannelManager.{fill_channel, withdraw, make_payment, check_accrual}
use guac_rs.Spending.{Once, Spends, IsQuiet}

module _ (num : Num) (lib : Clarity) {W : Type 0} (self : Guac W) (count : W → ℕ)
    (spends : Spends self.blockchain_client count) (quiet : IsQuiet self.counterparty_client count)
    (their : Address) (url : String) (amount : ℕ) where
  fill_signed-Once :
      (c : Channel) (tx : ReDrawTx) (sig : Signature) (n : Node W)
      → let (r, n') = fill_signed lib self their url amount c tx sig n in
        Once (count n.world) r (count n'.world)
  unfolding fill_signed
  fill_signed-Once c tx sig n = grind (arith, spends.deposits, quiet.re_drawn)

  withdraw_signed-Once :
      (c : Channel) (tx : ReDrawTx) (sig : Signature) (n : Node W)
      → let (r, n') = withdraw_signed lib self their url amount c tx sig n in
        Once (count n.world) r (count n'.world)
  unfolding withdraw_signed
  withdraw_signed-Once c tx sig n = grind (arith, spends.withdraws, quiet.re_drawn)

  fill_at-Once :
      (c : Counterparty) (n : Node W)
      → let (r, n') = fill_at num lib self their url amount c n in
        Once (count n.world) r (count n'.world)
  fill_at-Once (new i) n =
      grind (arith, spends.opens, spends.looks_block, quiet.channel, quiet.opened)
  fill_at-Once (open_channel c) n =
      grind (arith, fill_signed-Once, spends.looks_block, quiet.re_draw)
  fill_at-Once (creating tx i) n = omega arith
  fill_at-Once (other_creating tx i) n = omega arith
  fill_at-Once (re_drawing tx c) n = omega arith
  fill_at-Once (other_re_drawing tx c) n = omega arith

  withdraw_at-Once :
      (c : Counterparty) (n : Node W)
      → let (r, n') = withdraw_at num lib self their url amount c n in
        Once (count n.world) r (count n'.world)
  withdraw_at-Once (open_channel c) n =
      grind (arith, withdraw_signed-Once, spends.looks_block, quiet.re_draw)
  withdraw_at-Once c n = omega arith

  pay_at-quiet :
      (c : Counterparty) (n : Node W)
      → count (pay_at num lib self their url amount c n).1.world ≡ count n.world
  pay_at-quiet (open_channel c) n = grind (arith, quiet.payment)
  pay_at-quiet c n = refl

module _ (num : Num) (lib : Clarity) {W : Type 0} (self : Guac W) (count : W → ℕ)
    (spends : Spends self.blockchain_client count)
    (quiet : IsQuiet self.counterparty_client count) where
  pub fill_channel-Once :
      (their : Address) (url : String) (amount : ℕ) (n : Node W)
      → let (r, n') = fill_channel num lib self their url amount n in
        Once (count n.world) r (count n'.world)
  unfolding fill_channel
  fill_channel-Once their url amount n = elim (Option-cases (lookup their n.storage)) [
    | inl unknown ↦
        let b = ltb self.crypto.own_address their in
        let created = record n { storage = insert their (new b) n.storage } in
        ground (
          arith,
          fill_at-Once num lib self count spends quiet their url amount (new b) created,
          lookup-insert their their (new b) n.storage,
        )
    | inr (c, e) ↦ rw e (fill_at-Once num lib self count spends quiet their url amount c n)
  ]

  pub withdraw-Once :
      (their : Address) (url : String) (amount : ℕ) (n : Node W)
      → let (r, n') = withdraw num lib self their url amount n in
        Once (count n.world) r (count n'.world)
  unfolding withdraw
  withdraw-Once their url amount n = elim (Option-cases (lookup their n.storage)) [
    | inl unknown ↦ rw unknown (omega arith)
    | inr (c, e) ↦ rw e (withdraw_at-Once num lib self count spends quiet their url amount c n)
  ]

  pub make_payment-quiet :
      (their : Address) (url : String) (amount : ℕ) (n : Node W)
      → count (make_payment num lib self their url amount n).1.world ≡ count n.world
  unfolding make_payment
  make_payment-quiet their url amount n = elim (Option-cases (lookup their n.storage)) [
    | inl unknown ↦ rw unknown refl
    | inr (c, e) ↦ rw e (pay_at-quiet num lib self count spends quiet their url amount c n)
  ]

pub check_accrual-quiet :
    {W : Type 0} (their : Address) (n : Node W) → (check_accrual their n).1.world ≡ n.world
unfolding check_accrual
check_accrual-quiet their n = elim (Option-cases (lookup their n.storage)) [
  | inl unknown ↦ rw unknown refl
  | inr (c, e) ↦ rw e (ground arith)
]
