-- ===== src/Interleave/Alone.antt =====
-- Calls of guac_core/src/channel_manager.rs whose steps no other call comes between.
use guac_rs.Prelude.{ltb, ℕ, ◌≡◌, refl, some, none, Option, String, arith, true, false}
use guac_rs.External.{Uint256, Address, Num, Clarity}
use guac_rs.Types.{
  Counterparty, new, creating, other_creating, re_drawing, other_re_drawing, open_channel,
}
use guac_rs.Storage.{lookup, insert, get_counterparty, new_counterparty_unknown}
use guac_rs.Interleave.{stored}
use guac_rs.Interleave.User.{
  UserCall, fill_steps, fill_call, withdraw_call, pay_call, user_steps, user_call,
}
use guac_rs.ChannelManager.{fill_channel, withdraw, make_payment}
use guac_rs.Outcome.{Outcome, Action, ◌>>=◌}
use guac_rs.Node.{Guac, Node, check_for_counterparty, make_counterparty_if_none}
use guac_rs.Task.{Task, run, call}
use guac_rs.ChannelManager.Fill.{fill_signed, fill_at}
use guac_rs.ChannelManager.Withdraw.{withdraw_signed, withdraw_at}
use guac_rs.ChannelManager.Pay.{pay_at}
use guac_rs.Interleave.Steps.{fill_at_steps, withdraw_at_steps, pay_at_steps}

abbrev pub finished : {W A : Type 0} → Outcome A × W → Option (Outcome A) × W
finished (r, w) = (some r, w)

module _ (num : Num) (lib : Clarity) {W : Type 0} (self : Guac W) (their : Address) (url : String)
    (amount : ℕ) where
  pub fill_at_alone :
      (c : Counterparty) (n : Node W)
      → run (fill_at_steps num lib self their url amount c) n
        ≡ finished (fill_at num lib self their url amount c n)
  unfolding run fill_signed
  fill_at_alone (new true) n = ground arith
  fill_at_alone (new false) n = ground arith
  fill_at_alone (open_channel c) n = ground arith
  fill_at_alone (creating tx i) n = refl
  fill_at_alone (other_creating tx i) n = refl
  fill_at_alone (re_drawing tx c) n = refl
  fill_at_alone (other_re_drawing tx c) n = refl

  pub withdraw_at_alone :
      (c : Counterparty) (n : Node W)
      → run (withdraw_at_steps num lib self their url amount c) n
        ≡ finished (withdraw_at num lib self their url amount c n)
  unfolding run withdraw_signed
  withdraw_at_alone (open_channel c) n = ground arith
  withdraw_at_alone c n = refl

  pub pay_at_alone :
      (c : Counterparty) (n : Node W)
      → run (pay_at_steps num lib self their url amount c) n
        ≡ finished (pay_at num lib self their url amount c n)
  unfolding run
  pay_at_alone (open_channel c) n = ground arith
  pay_at_alone c n = refl

module _ (num : Num) (lib : Clarity) {W : Type 0} (self : Guac W) where
  fill_steps_alone :
      (their : Address) (url : String) (amount : Uint256) (v : Option Counterparty) (n : Node W)
      → lookup their n.storage ≡ v
      → let fill = fill_at num lib self their url amount in
        run (fill_steps num lib self their url amount v) n
        ≡ finished ((make_counterparty_if_none their self.crypto.own_address v >>= fill) n)
  unfolding run get_counterparty make_counterparty_if_none
  fill_steps_alone their url amount (some c) n e = fill_at_alone num lib self their url amount c n
  fill_steps_alone their url amount none n e =
      let c = new (ltb self.crypto.own_address their) in
      ground (
        arith,
        new_counterparty_unknown their c n.storage e,
        stored their c n.storage,
        fill_at_alone num lib self their url amount c
            (record n { storage = insert their c n.storage }),
      )

  checked_alone :
      (t : Counterparty → Task (Node W) (Unit {0}))
      → (m : Counterparty → Action (Node W) (Unit {0})) → (v : Option Counterparty) (n : Node W)
      → ((c : Counterparty) → run (t c) n ≡ finished (m c n))
      → run (call (check_for_counterparty v) t) n ≡ finished ((check_for_counterparty v >>= m) n)
  unfolding run check_for_counterparty
  checked_alone t m (some c) n h = h c
  checked_alone t m none n h = refl

  -- A `fill_channel`, a `withdraw` or a `make_payment` that runs step by step, with no other call
  -- between its steps, ends with the result and the node of the call as one action.
  pub user_call_alone :
      (their : Address) (a : UserCall) (n : Node W)
      → run (user_steps num lib self their a) n ≡ finished (user_call num lib self their a n)
  unfolding run fill_channel withdraw make_payment get_counterparty check_for_counterparty
  user_call_alone their (fill_call url amount) n =
      fill_steps_alone their url amount (lookup their n.storage) n refl
  user_call_alone their (withdraw_call url amount) n =
      checked_alone (withdraw_at_steps num lib self their url amount)
        (withdraw_at num lib self their url amount) (lookup their n.storage) n
        (λ c. withdraw_at_alone num lib self their url amount c n)
  user_call_alone their (pay_call url amount) n =
      checked_alone (pay_at_steps num lib self their url amount)
        (pay_at num lib self their url amount) (lookup their n.storage) n
        (λ c. pay_at_alone num lib self their url amount c n)
