-- ===== src/ChannelManager/Cases.antt =====
-- The calls of guac_core/src/channel_manager.rs keep to the specification, by the state of the
-- counterparty.
use native.Mathlib.Decide.{dec_le}
use guac_rs.Prelude.{
  ℕ, ◌+◌, ◌-◌, ◌≤◌, ◌≡◌, true, false, none, some, String, inl, inr, arith, if◌then◌else◌,
}
use guac_rs.External.{Address, Signature, Num, Clarity, IsExact}
use guac_rs.Types.{
  Channel, Counterparty, new, creating, other_creating, re_drawing, other_re_drawing, open_channel,
}
use guac_rs.Storage.{lookup, lookup-insert}
use guac_rs.Node.{Guac, Node}
use guac_rs.Channel.Payment.{my_balance, make_payment-IsPayment}
use guac_rs.ChannelManager.ReDraw.{re_drawn, re_draw_to}
use guac_rs.ChannelManager.Fill.{fill_signed, fill_at}
use guac_rs.ChannelManager.Withdraw.{withdraw_signed, withdraw_at}
use guac_rs.ChannelManager.Pay.{pay_at}
use guac_rs.ChannelManager.Transition.{Filled, Withdrawn, Spent}

module _ (lib : Clarity) {W : Type 0} (self : Guac W) (their : Address) (url : String) where
  fill_signed-Filled :
      (amount expiration : ℕ) (c : Channel) (sig : Signature) (n : Node W)
      → lookup their n.storage ≡ some (open_channel c)
      → let tx = record (re_draw_to c (my_balance c + amount) 0) { expiration = expiration } in
        let (r, n') = fill_signed lib self their url amount c tx sig n in
        Filled amount r (open_channel c) (lookup their n'.storage)
  unfolding fill_signed
  fill_signed-Filled amount expiration c sig n e = grind (arith, lookup-insert)

  withdraw_signed-Withdrawn :
      (amount expiration : ℕ) (c : Channel) (sig : Signature) (n : Node W)
      → lookup their n.storage ≡ some (open_channel c)
      → amount ≤ my_balance c
      → let tx = record (re_draw_to c (my_balance c - amount) 0) { expiration = expiration } in
        let (r, n') = withdraw_signed lib self their url amount c tx sig n in
        Withdrawn amount r (open_channel c) (lookup their n'.storage)
  unfolding withdraw_signed
  withdraw_signed-Withdrawn amount expiration c sig n e enough = grind (arith, lookup-insert)

module _ (num : Num) (exact : IsExact num) (c : Channel) (amount : ℕ) where
  -- The new balances of a refill that fits.
  balance_0_more :
      num.add (my_balance c) amount ≡ some (my_balance c + amount)
      → (if c.i_am_0 then num.add c.balance_0 amount else some c.balance_0)
        ≡ some (re_drawn c (my_balance c + amount)).balance_0
  balance_0_more fits = ground arith

  balance_1_more :
      num.add (my_balance c) amount ≡ some (my_balance c + amount)
      → (if c.i_am_0 then some c.balance_1 else num.add c.balance_1 amount)
        ≡ some (re_drawn c (my_balance c + amount)).balance_1
  balance_1_more fits = ground arith

  -- The new balances of a withdrawal that this end can afford.
  balance_0_less :
      amount ≤ my_balance c
      → (if c.i_am_0 then num.sub c.balance_0 amount else some c.balance_0)
        ≡ some (re_drawn c (my_balance c - amount)).balance_0
  balance_0_less enough = ground (arith, exact.sub_fits (my_balance c) amount)

  balance_1_less :
      amount ≤ my_balance c
      → (if c.i_am_0 then some c.balance_1 else num.sub c.balance_1 amount)
        ≡ some (re_drawn c (my_balance c - amount)).balance_1
  balance_1_less enough = ground (arith, exact.sub_fits (my_balance c) amount)

module _ (num : Num) (exact : IsExact num) (lib : Clarity) {W : Type 0} (self : Guac W) where
  module _ (their : Address) (url : String) (amount : ℕ) where
    pub fill_at-Filled :
        (c : Counterparty) (n : Node W)
        → lookup their n.storage ≡ some c
        → let (r, n') = fill_at num lib self their url amount c n in
          Filled amount r c (lookup their n'.storage)
    fill_at-Filled (new true) n e = grind (arith, lookup-insert)
    fill_at-Filled (new false) n e = grind (arith, lookup-insert)
    fill_at-Filled (open_channel c) n e = elim (exact.add_cases (my_balance c) amount) [
      | inl fits ↦
          rw (balance_0_more num exact c amount fits, balance_1_more num exact c amount fits)
            (grind (arith, fill_signed-Filled, exact.add_cases c.sequence_number 1))
      | inr overflow ↦ ground arith
    ]
    fill_at-Filled (creating tx i) n e = ground arith
    fill_at-Filled (other_creating tx i) n e = ground arith
    fill_at-Filled (re_drawing tx c) n e = ground arith
    fill_at-Filled (other_re_drawing tx c) n e = ground arith

    pub withdraw_at-Withdrawn :
        (c : Counterparty) (n : Node W)
        → lookup their n.storage ≡ some c
        → let (r, n') = withdraw_at num lib self their url amount c n in
          Withdrawn amount r c (lookup their n'.storage)
    withdraw_at-Withdrawn (open_channel c) n e = elim (dec_le amount (my_balance c)) [
      | yes enough ↦
          rw (balance_0_less num exact c amount enough, balance_1_less num exact c amount enough)
            (grind (arith, withdraw_signed-Withdrawn, exact.add_cases c.sequence_number 1))
      | no short ↦ ground (arith, exact.sub_panics (my_balance c) amount)
    ]
    withdraw_at-Withdrawn c n e = ground arith

    pub pay_at-Spent :
        (c : Counterparty) (n : Node W)
        → lookup their n.storage ≡ some c
        → let (r, n') = pay_at num lib self their url amount c n in
          Spent amount r c (lookup their n'.storage)
    pay_at-Spent (open_channel c) n e =
        grind (arith, lookup-insert, make_payment-IsPayment num exact c amount none)
    pay_at-Spent c n e = ground arith
