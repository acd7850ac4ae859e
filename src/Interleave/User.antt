-- ===== src/Interleave/User.antt =====
-- The calls of guac_core/src/channel_manager.rs for the user, step by step, from the first look at the
-- storage.
use guac_rs.Prelude.{Option, none, some, String, ltb}
use guac_rs.External.{Uint256, Address, Num, Clarity}
use guac_rs.Types.{Counterparty, new}
use guac_rs.Outcome.{Action, or_panic}
use guac_rs.Storage.{get_counterparty, new_counterparty}
use guac_rs.Node.{Guac, Node, on_storage, check_for_counterparty}
use guac_rs.Task.{Task, call}
use guac_rs.ChannelManager.{fill_channel, withdraw, make_payment}
use guac_rs.Interleave.Steps.{fill_at_steps, withdraw_at_steps, pay_at_steps}

-- A call of the user, with the url of the counterparty and the amount.
pub data UserCall : Type 0 where
  fill_call : String → Uint256 → UserCall
  withdraw_call : String → Uint256 → UserCall
  pay_call : String → Uint256 → UserCall

module _ (num : Num) (lib : Clarity) {W : Type 0} (self : Guac W) (their_address : Address) where
  -- `make_counterparty_if_none` for an entry that was not found, a step for each time that the map
  -- is locked.
  abbrev pub make_steps : {A : Type 0} → (Counterparty → Task (Node W) A) → Task (Node W) A
  make_steps next =
      call
        (on_storage
          (new_counterparty their_address (new (ltb self.crypto.own_address their_address))))
        (λ _.
          call (on_storage (get_counterparty their_address)) (λ found. call (or_panic found) next))

  abbrev pub fill_steps : String → Uint256 → Option Counterparty → Task (Node W) (Unit {0})
  fill_steps url amount (some counterparty) =
      fill_at_steps num lib self their_address url amount counterparty
  fill_steps url amount none = make_steps (fill_at_steps num lib self their_address url amount)

  abbrev pub user_steps : UserCall → Task (Node W) (Unit {0})
  user_steps (fill_call url amount) =
      call (on_storage (get_counterparty their_address)) (fill_steps url amount)
  user_steps (withdraw_call url amount) =
      call (on_storage (get_counterparty their_address)) (λ found.
        call (check_for_counterparty found)
          (withdraw_at_steps num lib self their_address url amount))
  user_steps (pay_call url amount) = call (on_storage (get_counterparty their_address)) (λ found.
      call (check_for_counterparty found) (pay_at_steps num lib self their_address url amount))

  -- The same call as one action.
  abbrev pub user_call : UserCall → Action (Node W) (Unit {0})
  user_call (fill_call url amount) = fill_channel num lib self their_address url amount
  user_call (withdraw_call url amount) = withdraw num lib self their_address url amount
  user_call (pay_call url amount) = make_payment num lib self their_address url amount
