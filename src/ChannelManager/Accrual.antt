-- ===== src/ChannelManager/Accrual.antt =====
-- What `Guac::check_accrual` reports and what it leaves (guac_core/src/channel_manager.rs).
use guac_rs.Prelude.{ℕ, ◌≡◌, Option, some, arith}
use guac_rs.External.{Address}
use guac_rs.Types.{
  Counterparty, new, creating, other_creating, re_drawing, other_re_drawing, open_channel,
}
use guac_rs.Outcome.{Outcome, ok, err}
use guac_rs.Channel
use guac_rs.Storage.{lookup, lookup-insert}
use guac_rs.Node.{Node}
use guac_rs.ChannelManager.{check_accrual, check_my_balance}

-- The number reported is the channel's accrual, which is 0 from then on; nothing else changes.
abbrev pub ReportedAt : ℕ → Counterparty → Counterparty → Type 0
ReportedAt accrual (open_channel c) d =
    (accrual ≡ c.accrual) × (d ≡ open_channel (record c { accrual = 0 }))
ReportedAt accrual (re_drawing tx c) d =
    (accrual ≡ c.accrual) × (d ≡ re_drawing tx (record c { accrual = 0 }))
ReportedAt accrual (other_re_drawing tx c) d =
    (accrual ≡ c.accrual) × (d ≡ other_re_drawing tx (record c { accrual = 0 }))
ReportedAt accrual _ d = ⊥

-- Without a channel the call fails, and the entry stays.
abbrev pub HasNone : Counterparty → Type 0
HasNone (new i) = Unit
HasNone (creating tx i) = Unit
HasNone (other_creating tx i) = Unit
HasNone _ = ⊥

abbrev pub Reported : Outcome ℕ → Counterparty → Option Counterparty → Type 0
Reported (ok accrual) c (some d) = ReportedAt accrual c d
Reported (err e) c (some d) = HasNone c × (d ≡ c)
Reported _ c _ = ⊥

-- The next report, after one that succeeded.
abbrev pub IsSpent : Outcome ℕ → Outcome ℕ → Type 0
IsSpent (ok accrual) next = next ≡ ok 0
IsSpent _ next = Unit

module _ {W : Type 0} (their : Address) where
  -- With a known counterparty: `check_accrual` fails only where the entry has no channel, and
  -- leaves the entry then. Otherwise it returns the channel's accrual and sets that to 0, leaving
  -- the state and the rest of the channel, and a second call returns 0. In both cases
  -- `check_my_balance` has the same outcome after the call as before, and the world is not touched.
  pub check_accrual-Reported :
      (c : Counterparty) (n : Node W)
      → lookup their n.storage ≡ some c
      → let (r, n') = check_accrual their n in
        Reported r c (lookup their n'.storage)
        × IsSpent r (check_accrual their n').0
        × ((check_my_balance their n').0 ≡ (check_my_balance their n).0)
        × (n'.world ≡ n.world)
  unfolding check_accrual check_my_balance Channel.check_accrual
  check_accrual-Reported (open_channel c) n e =
      ground (arith, lookup-insert their their (open_channel (record c { accrual = 0 })) n.storage)
  check_accrual-Reported (re_drawing tx c) n e =
      ground (arith, lookup-insert their their (re_drawing tx (record c { accrual = 0 })) n.storage)
  check_accrual-Reported (other_re_drawing tx c) n e =
      ground (
        arith,
        lookup-insert their their (other_re_drawing tx (record c { accrual = 0 })) n.storage,
      )
  check_accrual-Reported c n e = ground arith
