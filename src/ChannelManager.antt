-- ===== src/ChannelManager.antt =====
-- guac_core/src/channel_manager.rs: what a node does for its own user. The parts of `fill_channel`
-- are in ChannelManager/Fill, those of `withdraw` and `make_payment` in children of those names.
pub mod Sign
pub mod Fill
pub mod Withdraw
pub mod Pay
pub mod Payment
pub mod ReDraw
pub mod Transition
pub mod Cases
pub mod Effect
pub mod Opening
pub mod Accrual
pub mod Others
use guac_rs.Prelude.{Option, none, some, String}
use guac_rs.External.{Uint256, Address, Num, Clarity}
use guac_rs.Types.{Counterparty, open_channel, re_drawing, other_re_drawing, wrong_state, guac, new}
use guac_rs.Outcome.{Action, pure, raise, ◌>>=◌, ◌>>◌}
use guac_rs.Storage.{get_counterparty}
use guac_rs.Node.{
  Guac, Node, on_storage, on_clone, write, check_for_counterparty, make_counterparty_if_none,
}
use guac_rs.Channel
use guac_rs.Channel.{mine}
use Fill.{fill_signed, fill_at}
use Withdraw.{withdraw_signed, withdraw_at}
use Pay.{pay_at}

module _ {W : Type 0} where
  abbrev check_accrual_at : Address → Counterparty → Action (Node W) Uint256
  check_accrual_at their_address (open_channel channel) = do
    (accrual, channel') ← on_clone Channel.check_accrual channel
    write their_address (open_channel channel')
    pure accrual
  check_accrual_at their_address (re_drawing re_draw_tx channel) = do
    (accrual, channel') ← on_clone Channel.check_accrual channel
    write their_address (re_drawing re_draw_tx channel')
    pure accrual
  check_accrual_at their_address (other_re_drawing re_draw_tx channel) = do
    (accrual, channel') ← on_clone Channel.check_accrual channel
    write their_address (other_re_drawing re_draw_tx channel')
    pure accrual
  check_accrual_at their_address counterparty =
      raise (guac (wrong_state "check_accrual" counterparty "Open"))

  unfoldable pub check_accrual : Address → Action (Node W) Uint256
  unfolding get_counterparty check_for_counterparty
  check_accrual their_address = do
    found ← on_storage (get_counterparty their_address)
    counterparty ← check_for_counterparty found
    check_accrual_at their_address counterparty

  abbrev check_my_balance_at : Counterparty → Action (Node W) Uint256
  check_my_balance_at (open_channel channel) =
      pure (mine channel.i_am_0 channel.balance_0 channel.balance_1)
  check_my_balance_at (re_drawing re_draw_tx channel) =
      pure (mine channel.i_am_0 channel.balance_0 channel.balance_1)
  check_my_balance_at (other_re_drawing re_draw_tx channel) =
      pure (mine channel.i_am_0 channel.balance_0 channel.balance_1)
  check_my_balance_at counterparty = raise (guac (wrong_state "check_accrual" counterparty "Open"))

  unfoldable pub check_my_balance : Address → Action (Node W) Uint256
  unfolding get_counterparty check_for_counterparty
  check_my_balance their_address = do
    found ← on_storage (get_counterparty their_address)
    counterparty ← check_for_counterparty found
    check_my_balance_at counterparty

  unfoldable pub get_state : Address → Action (Node W) Counterparty
  unfolding get_counterparty check_for_counterparty
  get_state their_address = do
    found ← on_storage (get_counterparty their_address)
    check_for_counterparty found

module _ (num : Num) (lib : Clarity) {W : Type 0} (self : Guac W) where
  open self use {crypto}

  unfoldable pub fill_channel : Address → String → Uint256 → Action (Node W) (Unit {0})
  unfolding get_counterparty make_counterparty_if_none fill_signed
  fill_channel their_address their_url amount = do
    found ← on_storage (get_counterparty their_address)
    counterparty ← make_counterparty_if_none their_address crypto.own_address found
    fill_at num lib self their_address their_url amount counterparty

  unfoldable pub withdraw : Address → String → Uint256 → Action (Node W) (Unit {0})
  unfolding get_counterparty check_for_counterparty withdraw_signed
  withdraw their_address their_url amount = do
    found ← on_storage (get_counterparty their_address)
    counterparty ← check_for_counterparty found
    withdraw_at num lib self their_address their_url amount counterparty

  unfoldable pub make_payment : Address → String → Uint256 → Action (Node W) (Unit {0})
  unfolding get_counterparty check_for_counterparty
  make_payment their_address their_url amount = do
    found ← on_storage (get_counterparty their_address)
    counterparty ← check_for_counterparty found
    pay_at num lib self their_address their_url amount counterparty
