-- ===== src/History.antt =====
-- A node over time: the requests that its server gets (guac_http/src/counterparty_server.rs) and the
-- calls of its own user (guac_core/src/channel_manager.rs), one after another.
pub mod Moves
pub mod Calls
pub mod Ledger
pub mod Waiting
pub mod Stuck
pub mod Lost
use guac_rs.Prelude.{ℕ, ◌+◌, ◌-◌, ◌==◌, if◌then◌else◌, Option, none, some, String, List, [], ◌∷◌}
use guac_rs.External.{Uint256, Address, Num, Clarity}
use guac_rs.Types.{
  Counterparty, new, creating, other_creating, re_drawing, other_re_drawing, open_channel,
}
use guac_rs.Outcome.{Outcome, ok, err, panic}
use guac_rs.Storage.{lookup}
use guac_rs.Node.{Guac, Node}
use guac_rs.CounterpartyApi.{as_api}
use guac_rs.ChannelManager.{fill_channel, withdraw, make_payment, check_accrual}
use guac_rs.HttpServer.{Request, serve}
use guac_rs.HttpServer.Safety.{owned_with}

pub data Event : Type 0 where
  served : (request : Request) → Event
  fills : (their : Address) (url : String) (amount : Uint256) → Event
  withdraws : (their : Address) (url : String) (amount : Uint256) → Event
  pays : (their : Address) (url : String) (amount : Uint256) → Event
  checks : (their : Address) → Event

-- The accrual that is kept for a counterparty.
abbrev pub accrued : Counterparty → ℕ
accrued (re_drawing tx c) = c.accrual
accrued (other_re_drawing tx c) = c.accrual
accrued (open_channel c) = c.accrual
accrued _ = 0

abbrev pub accrued_with : Option Counterparty → ℕ
accrued_with none = 0
accrued_with (some c) = accrued c

-- What a call moved, if it succeeded.
abbrev pub done : {A : Type 0} → ℕ → Outcome A → ℕ
done amount (ok _) = amount
done amount _ = 0

abbrev pub report : Outcome ℕ → ℕ
report (ok accrual) = accrual
report _ = 0

module _ (num : Num) (lib : Clarity) {W : Type 0} (self : Guac W) where
  unfoldable pub after : Event → Node W → Node W
  after (served request) n = (serve (as_api num lib self) request n).1
  after (fills their url amount) n = (fill_channel num lib self their url amount n).1
  after (withdraws their url amount) n = (withdraw num lib self their url amount n).1
  after (pays their url amount) n = (make_payment num lib self their url amount n).1
  after (checks their) n = (check_accrual their n).1

  unfoldable pub after_all : List Event → Node W → Node W
  after_all [] n = n
  after_all (event ∷ rest) n = after_all rest (after event n)

  module _ (k : Address) where
    -- What the user put into the channel with `k`, took out of it or paid, by calls that succeeded.
    unfoldable pub put_in : Event → Node W → ℕ
    put_in (fills their url amount) n =
        if their == k then done amount (fill_channel num lib self their url amount n).0 else 0
    put_in _ n = 0

    unfoldable pub taken_out : Event → Node W → ℕ
    taken_out (withdraws their url amount) n =
        if their == k then done amount (withdraw num lib self their url amount n).0 else 0
    taken_out (pays their url amount) n =
        if their == k then done amount (make_payment num lib self their url amount n).0 else 0
    taken_out _ n = 0

    -- What a request gained this node in the channel with `k`.
    unfoldable pub gained : Event → Node W → ℕ
    unfolding after
    gained (served request) n =
        owned_with (lookup k (after (served request) n).storage) - owned_with (lookup k n.storage)
    gained _ n = 0

    -- What the user was told of the accrual.
    unfoldable pub reported : Event → Node W → ℕ
    reported (checks their) n = if their == k then report (check_accrual their n).0 else 0
    reported _ n = 0

  -- The sum of a quantity over a history.
  unfoldable pub over : (Event → Node W → ℕ) → List Event → Node W → ℕ
  over quantity [] n = 0
  over quantity (event ∷ rest) n = quantity event n + over quantity rest (after event n)
