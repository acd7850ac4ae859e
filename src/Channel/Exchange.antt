-- ===== src/Channel/Exchange.antt =====
-- One payment between the two parties' copies of a channel, with no message lost.
use guac_rs.Prelude.{ℕ, ◌+◌, ◌^◌, ◌≤◌, ◌<◌, ◌≡◌, not, none, arith}
use guac_rs.External.{Num, IsExact}
use guac_rs.Types.{Channel}
use guac_rs.Outcome.{ok}
use guac_rs.Channel.{make_payment, receive_payment}
use guac_rs.Channel.Payment.{
  total, my_balance, paid, received, update_of, make_payment_pays, receive_payment_takes,
}

-- Two copies of one channel that agree, seen from its two ends.
pub record IsMirror (a b : Channel) : Type 0 where
  pub ids : a.channel_id ≡ b.channel_id
  pub sequences : a.sequence_number ≡ b.sequence_number
  pub balances_0 : a.balance_0 ≡ b.balance_0
  pub balances_1 : a.balance_1 ≡ b.balance_1
  pub ends : b.i_am_0 ≡ not a.i_am_0

-- What a payment of `amount` did to the two copies.
pub record IsSettled (amount : ℕ) (a b a' b' : Channel) : Type 0 where
  pub mirror : IsMirror a' b'
  pub spent : my_balance a' + amount ≡ my_balance a
  pub gained : my_balance b' ≡ my_balance b + amount
  pub accrued : b'.accrual ≡ b.accrual + amount
  pub kept : a'.accrual ≡ a.accrual
  pub counted : a'.sequence_number ≡ a.sequence_number + 1

module _ {a b : Channel} {amount : ℕ} (mirror : IsMirror a b) (enough : amount ≤ my_balance a) where
  pub paid-received-IsSettled :
      let a' = paid a.i_am_0 a amount (a.sequence_number + 1) in
      IsSettled amount a b a' (received b (update_of a'))
  paid-received-IsSettled = ground arith

module _ (num : Num) (exact : IsExact num) where
  -- Given exact arithmetic: from two copies of a channel that agree, of which the payer's holds
  -- `amount` for the payer, and with the total, the payer's next number and the receiver's accrual
  -- with the total added below 2 ^ 256, a payment of `amount` is made, its update is accepted at
  -- the other copy, and the copies agree again, with `amount` moved, added to the receiver's
  -- accrual only, and the number one higher.
  pub receive-make_payment :
      {a b : Channel} {amount : ℕ}
      → IsMirror a b
      → amount ≤ my_balance a
      → total a < 2 ^ 256
      → a.sequence_number + 1 < 2 ^ 256
      → b.accrual + total b < 2 ^ 256
      → let a' = paid a.i_am_0 a amount (a.sequence_number + 1) in
        let u = update_of a' in
        (make_payment num amount none a ≡ (ok u, a'))
        × (receive_payment num u b ≡ (ok none, received b u))
        × IsSettled amount a b a' (received b u)
  receive-make_payment {a} {b} {amount} mirror enough fits room accruable =
      let a' = paid a.i_am_0 a amount (a.sequence_number + 1) in
      let settled = paid-received-IsSettled mirror enough in
      (
        make_payment_pays num exact a amount none enough fits room,
        receive_payment_takes num exact b (update_of a') (ground arith) (ground arith)
            (ground arith) (ground arith) accruable,
        settled,
      )
