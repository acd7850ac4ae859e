-- ===== src/Channel.antt =====
-- guac_core/src/channel.rs: the methods of `Channel`. A method is an action on the channel.
pub mod Payment
pub mod Exchange
pub mod Link
pub mod Sessions
use guac_rs.Prelude.{ℕ, Bool, true, false, not, Option, none, some, ltb, leb, ◌==◌, if◌then◌else◌}
use guac_rs.External.{Uint256, Num}
use guac_rs.Types.{Channel, UpdateTx, GuacError, Error, not_enough, forbidden, text, guac}
use guac_rs.Outcome.{Action, ok, pure, raise, gets, or_raise, or_panic, ensure, modify, ◌>>=◌, ◌>>◌}

-- `(my, their)` of a pair of balances
abbrev pub mine : Bool → ℕ → ℕ → ℕ
mine i_am_0 balance_0 balance_1 = if i_am_0 then balance_0 else balance_1

abbrev pub theirs : Bool → ℕ → ℕ → ℕ
theirs i_am_0 balance_0 balance_1 = if i_am_0 then balance_1 else balance_0

module _ (num : Num) where
  abbrev next_sequence : Channel → Option Uint256 → Option Uint256
  next_sequence self (some seq) = num.add seq 1
  next_sequence self none = num.add self.sequence_number 1

  unfoldable pub make_payment : Uint256 → Option Uint256 → Action Channel UpdateTx
  make_payment amount current_seq = do
    self ← gets (λ self. self)
    sequence_number ← or_panic (next_sequence self current_seq)
    my_balance ←
        or_raise (num.checked_sub (mine self.i_am_0 self.balance_0 self.balance_1) amount)
          (guac (not_enough "money in channel."))
    their_balance ← or_panic (num.add (theirs self.i_am_0 self.balance_0 self.balance_1) amount)
    let balance_0 = if self.i_am_0 then my_balance else their_balance
    let balance_1 = if self.i_am_0 then their_balance else my_balance
    modify (λ c. record c {
      balance_0 = balance_0;
      balance_1 = balance_1;
      sequence_number = sequence_number;
    })
    pure (record {
      channel_id = self.channel_id;
      sequence_number = sequence_number;
      balance_0 = balance_0;
      balance_1 = balance_1;
      signature_0 = none;
      signature_1 = none;
    })

  -- What `receive_payment` does with an update that is not too old.
  abbrev take_payment : UpdateTx → Channel → Action Channel (Option Uint256)
  take_payment update_tx self = do
    let my_old_balance = mine self.i_am_0 self.balance_0 self.balance_1
    let their_old_balance = theirs self.i_am_0 self.balance_0 self.balance_1
    let my_balance = mine self.i_am_0 update_tx.balance_0 update_tx.balance_1
    let their_balance = theirs self.i_am_0 update_tx.balance_0 update_tx.balance_1
    old_total ← or_panic (num.add my_old_balance their_old_balance)
    new_total ← or_panic (num.add my_balance their_balance)
    ensure (old_total == new_total)
        (guac (forbidden (text "Total amount in channel does not stay the same")))
    ensure (not (ltb my_balance my_old_balance)) (guac (forbidden (text "This reduces my balance")))
    modify (λ c. record c {
      balance_0 = update_tx.balance_0;
      balance_1 = update_tx.balance_1;
      sequence_number = update_tx.sequence_number;
    })
    gained ← or_panic (num.sub my_balance my_old_balance)
    accrual ← or_panic (num.add self.accrual gained)
    modify (λ c. record c { accrual = accrual })
    pure none

  unfoldable pub receive_payment : UpdateTx → Action Channel (Option Uint256)
  receive_payment update_tx self =
      if leb update_tx.sequence_number self.sequence_number
      then (ok (some self.sequence_number), self)
      else take_payment update_tx self self

unfoldable pub check_accrual : Action Channel Uint256
check_accrual self = (ok self.accrual, record self { accrual = 0 })
