-- ===== src/CounterpartyApi/Transition.antt =====
-- The specification of guac_core/src/counterparty_api.rs: which moves of a counterparty's state
-- the other node can bring about.
use guac_rs.Prelude.{◌+◌, ◌-◌, ◌≤◌, ◌<◌, ◌≡◌, ◌⊎◌, Bool, true, false, Option, none, some, ltb}
use guac_rs.External.{Address}
use guac_rs.Types.{
  Channel, Counterparty, new, other_creating, other_re_drawing, open_channel, NewChannelTx,
  ReDrawTx,
}
use guac_rs.Outcome.{Outcome, ok, err, panic}
use guac_rs.Channel.{mine}
use guac_rs.Channel.Payment.{total, my_balance}

-- A proposal that costs this node nothing: its own end and its own address belong together, it
-- owes no deposit, and the settling period is the agreed one.
abbrev pub IsFair : Address → Address → Bool → NewChannelTx → Type 0
IsFair my_address from_address true tx =
    (tx.address_0 ≡ my_address)
    × (tx.address_1 ≡ from_address)
    × (tx.balance_0 ≡ 0)
    × (tx.settling_period_length ≡ 5000)
IsFair my_address from_address false tx =
    (tx.address_1 ≡ my_address)
    × (tx.address_0 ≡ from_address)
    × (tx.balance_1 ≡ 0)
    × (tx.settling_period_length ≡ 5000)

-- A re-draw of this very channel, of its present balances, that leaves this node's own alone.
abbrev pub IsFairReDraw : Channel → ReDrawTx → Type 0
IsFairReDraw c tx =
    (tx.channel_id ≡ c.channel_id)
    × (c.sequence_number < tx.sequence_number)
    × (tx.old_balance_0 ≡ c.balance_0)
    × (tx.old_balance_1 ≡ c.balance_1)
    × (mine c.i_am_0 tx.new_balance_0 tx.new_balance_1 ≡ my_balance c)

-- A payment received: the total stays, and what this node gains is added to the accrual.
abbrev pub IsCredited : Channel → Channel → Type 0
IsCredited c d =
    (d.channel_id ≡ c.channel_id)
    × (d.i_am_0 ≡ c.i_am_0)
    × (c.sequence_number < d.sequence_number)
    × (total d ≡ total c)
    × (my_balance c ≤ my_balance d)
    × (d.accrual ≡ c.accrual + (my_balance d - my_balance c))

module _ (my_address from_address : Address) where
  abbrev pub PeerStep : Counterparty → Counterparty → Type 0
  PeerStep (new i) (other_creating tx j) = (j ≡ i) × IsFair my_address from_address i tx
  PeerStep (other_creating tx i) (open_channel d) =
      (d.balance_0 ≡ tx.balance_0)
      × (d.balance_1 ≡ tx.balance_1)
      × (d.sequence_number ≡ 0)
      × (d.accrual ≡ 0)
      × (d.i_am_0 ≡ i)
  PeerStep (open_channel c) (other_re_drawing tx d) = (d ≡ c) × IsFairReDraw c tx
  PeerStep (other_re_drawing tx c) (open_channel d) = d ≡ record c {
    balance_0 = tx.new_balance_0;
    balance_1 = tx.new_balance_1;
    sequence_number = tx.sequence_number;
  }
  PeerStep (open_channel c) (open_channel d) = (d ≡ c) ⊎ IsCredited c d
  PeerStep _ _ = ⊥

  -- A call that succeeds makes such a move; an unknown counterparty starts as `new`.
  abbrev pub Accepted : Option Counterparty → Option Counterparty → Type 0
  Accepted none (some d) = PeerStep (new (ltb my_address from_address)) d
  Accepted (some c) (some d) = PeerStep c d
  Accepted _ none = ⊥

  -- A call that fails changes nothing, but may have made an unknown counterparty `new`.
  abbrev pub Refused : Option Counterparty → Option Counterparty → Type 0
  Refused none none = Unit
  Refused none (some d) = d ≡ new (ltb my_address from_address)
  Refused (some c) (some d) = d ≡ c
  Refused (some c) none = ⊥

  abbrev pub Effect : {A : Type 0} → Outcome A → Option Counterparty → Option Counterparty → Type 0
  Effect (ok _) before after = Accepted before after
  Effect (err _) before after = Refused before after
  Effect panic before after = Refused before after
