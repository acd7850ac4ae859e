-- ===== src/ChannelManager/Transition.antt =====
-- The specification of guac_core/src/channel_manager.rs: how a call of the user moves the state of
-- a counterparty, whatever the counterparty and the chain answer.
use guac_rs.Prelude.{ℕ, ◌+◌, ◌-◌, ◌≤◌, ◌≡◌, ◌⊎◌, Bool, Option, none, some}
use guac_rs.Types.{Channel, ReDrawTx, Counterparty, new, creating, re_drawing, open_channel}
use guac_rs.Outcome.{Outcome, ok, err, panic}
use guac_rs.Channel.Payment.{my_balance, their_balance, paid}
use guac_rs.ChannelManager.ReDraw.{re_drawn}

-- A fresh channel in which this end holds `amount` and the other nothing.
abbrev pub IsFresh : Bool → ℕ → Channel → Type 0
IsFresh i_am_0 amount d =
    (d.i_am_0 ≡ i_am_0)
    × (d.sequence_number ≡ 0)
    × (d.accrual ≡ 0)
    × (my_balance d ≡ amount)
    × (their_balance d ≡ 0)

-- A re-draw of this channel, of its present balances, with the next number.
abbrev pub IsReDraw : Channel → ReDrawTx → Type 0
IsReDraw c tx =
    (tx.channel_id ≡ c.channel_id)
    × (tx.sequence_number ≡ c.sequence_number + 1)
    × (tx.old_balance_0 ≡ c.balance_0)
    × (tx.old_balance_1 ≡ c.balance_1)

-- A call that failed: the state is as it was, or waits for a transaction that may be on the chain.
abbrev pub Stalled : Counterparty → Counterparty → Type 0
Stalled (new i) (creating tx j) = j ≡ i
Stalled (open_channel c) (re_drawing tx d) = (d ≡ c) × IsReDraw c tx
Stalled c d = d ≡ c

-- `Guac::fill_channel`
abbrev pub FilledAt : ℕ → Counterparty → Counterparty → Type 0
FilledAt amount (new i) (open_channel d) = IsFresh i amount d
FilledAt amount (open_channel c) (open_channel d) = d ≡ re_drawn c (my_balance c + amount)
FilledAt amount _ _ = ⊥

abbrev pub Filled : {A : Type 0} → ℕ → Outcome A → Counterparty → Option Counterparty → Type 0
Filled amount (ok _) c (some d) = FilledAt amount c d
Filled amount (err _) c (some d) = Stalled c d
Filled amount panic c (some d) = Stalled c d
Filled amount r c none = ⊥

-- `Guac::withdraw`
abbrev pub WithdrawnAt : ℕ → Counterparty → Counterparty → Type 0
WithdrawnAt amount (open_channel c) (open_channel d) =
    (amount ≤ my_balance c) × (d ≡ re_drawn c (my_balance c - amount))
WithdrawnAt amount _ _ = ⊥

abbrev pub Withdrawn : {A : Type 0} → ℕ → Outcome A → Counterparty → Option Counterparty → Type 0
Withdrawn amount (ok _) c (some d) = WithdrawnAt amount c d
Withdrawn amount (err _) c (some d) = Stalled c d
Withdrawn amount panic c (some d) = Stalled c d
Withdrawn amount r c none = ⊥

-- `Guac::make_payment`: stored as paid, or, after a retry, not stored at all.
abbrev pub SpentAt : ℕ → Counterparty → Counterparty → Type 0
SpentAt amount (open_channel c) d =
    (amount ≤ my_balance c)
    × ((d ≡ open_channel c) ⊎ (d ≡ open_channel (paid c.i_am_0 c amount (c.sequence_number + 1))))
SpentAt amount _ _ = ⊥

abbrev pub Spent : {A : Type 0} → ℕ → Outcome A → Counterparty → Option Counterparty → Type 0
Spent amount (ok _) c (some d) = SpentAt amount c d
Spent amount (err _) c (some d) = d ≡ c
Spent amount panic c (some d) = d ≡ c
Spent amount r c none = ⊥
