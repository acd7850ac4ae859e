-- ===== src/History/Moves.antt =====
-- What each allowed move of a counterparty's state does to what this node owns and has accrued.
use guac_rs.Prelude.{ℕ, ◌+◌, ◌-◌, ◌≡◌, ◌≤◌, Option, none, some, arith}
use guac_rs.External.{Address}
use guac_rs.Types.{
  Counterparty, new, creating, other_creating, re_drawing, other_re_drawing, open_channel,
}
use guac_rs.Outcome.{Outcome, ok, err, panic}
use guac_rs.ChannelManager.Accrual.{Reported}
use guac_rs.ChannelManager.Transition.{
  Stalled, FilledAt, Filled, WithdrawnAt, Withdrawn, SpentAt, Spent,
}
use guac_rs.CounterpartyApi.Transition.{PeerStep, Effect, Refused}
use guac_rs.HttpServer.Safety.{owned, owned_with, IsSound}
use guac_rs.History.{accrued_with, done, report}

-- An entry before and after an event that put `more` in, took `less` out, gained `gain` and told the
-- user of `told`.
pub record IsBooked (before after : Option Counterparty) (more less gain told : ℕ) : Type 0 where
  pub sound : IsSound after
  pub balance : owned_with before + more ≤ owned_with after + less
  pub accrual : accrued_with before + gain ≡ accrued_with after + told

pub IsBooked-same : (c : Option Counterparty) → IsSound c → IsBooked c c 0 0 0 0
IsBooked-same c s = record { sound = s; balance = omega arith; accrual = omega arith }

Stalled-IsBooked :
    (c d : Counterparty) → IsSound (some c) → Stalled c d → IsBooked (some c) (some d) 0 0 0 0
Stalled-IsBooked (new i) (creating tx j) s h = ground arith
Stalled-IsBooked (open_channel c) (re_drawing tx d) s h = ground arith
Stalled-IsBooked c d s h = rw h (IsBooked-same (some c) s)

FilledAt-IsBooked :
    (amount : ℕ) (c d : Counterparty)
    → IsSound (some c)
    → FilledAt amount c d
    → IsBooked (some c) (some d) amount 0 0 0
FilledAt-IsBooked amount (new i) (open_channel d) s h = ground arith
FilledAt-IsBooked amount (open_channel c) (open_channel d) s h = ground arith
FilledAt-IsBooked amount _ _ s h = absurd h

pub Filled-IsBooked :
    {A : Type 0} (amount : ℕ) (r : Outcome A) (c : Counterparty) (after : Option Counterparty)
    → IsSound (some c)
    → Filled amount r c after
    → IsBooked (some c) after (done amount r) 0 0 0
Filled-IsBooked amount (ok a) c (some d) s h = FilledAt-IsBooked amount c d s h
Filled-IsBooked amount (err e) c (some d) s h = Stalled-IsBooked c d s h
Filled-IsBooked amount panic c (some d) s h = Stalled-IsBooked c d s h
Filled-IsBooked amount _ c none s h = absurd h

WithdrawnAt-IsBooked :
    (amount : ℕ) (c d : Counterparty)
    → IsSound (some c)
    → WithdrawnAt amount c d
    → IsBooked (some c) (some d) 0 amount 0 0
WithdrawnAt-IsBooked amount (open_channel c) (open_channel d) s h = ground arith
WithdrawnAt-IsBooked amount _ _ s h = absurd h

pub Withdrawn-IsBooked :
    {A : Type 0} (amount : ℕ) (r : Outcome A) (c : Counterparty) (after : Option Counterparty)
    → IsSound (some c)
    → Withdrawn amount r c after
    → IsBooked (some c) after 0 (done amount r) 0 0
Withdrawn-IsBooked amount (ok a) c (some d) s h = WithdrawnAt-IsBooked amount c d s h
Withdrawn-IsBooked amount (err e) c (some d) s h = Stalled-IsBooked c d s h
Withdrawn-IsBooked amount panic c (some d) s h = Stalled-IsBooked c d s h
Withdrawn-IsBooked amount _ c none s h = absurd h

SpentAt-IsBooked :
    (amount : ℕ) (c d : Counterparty)
    → IsSound (some c)
    → SpentAt amount c d
    → IsBooked (some c) (some d) 0 amount 0 0
SpentAt-IsBooked amount (open_channel c) d s h = ground arith
SpentAt-IsBooked amount _ d s h = absurd h

pub Spent-IsBooked :
    {A : Type 0} (amount : ℕ) (r : Outcome A) (c : Counterparty) (after : Option Counterparty)
    → IsSound (some c)
    → Spent amount r c after
    → IsBooked (some c) after 0 (done amount r) 0 0
Spent-IsBooked amount (ok a) c (some d) s h = SpentAt-IsBooked amount c d s h
Spent-IsBooked amount (err e) c (some d) s h = rw h (IsBooked-same (some c) s)
Spent-IsBooked amount panic c (some d) s h = rw h (IsBooked-same (some c) s)
Spent-IsBooked amount _ c none s h = absurd h

pub Reported-IsBooked :
    (r : Outcome ℕ) (c : Counterparty) (after : Option Counterparty)
    → IsSound (some c)
    → Reported r c after
    → IsBooked (some c) after 0 0 0 (report r)
Reported-IsBooked (ok a) (open_channel c) (some d) s h = ground arith
Reported-IsBooked (ok a) (re_drawing tx c) (some d) s h = ground arith
Reported-IsBooked (ok a) (other_re_drawing tx c) (some d) s h = ground arith
Reported-IsBooked (ok a) _ (some d) s h = absurd h
Reported-IsBooked (err e) c (some d) s h = rw h.1 (IsBooked-same (some c) s)
Reported-IsBooked (ok a) c none s h = absurd h
Reported-IsBooked (err e) c none s h = absurd h
Reported-IsBooked panic c after s h = absurd h

PeerStep-IsBooked :
    (my from : Address) (c d : Counterparty)
    → IsSound (some c)
    → PeerStep my from c d
    → IsBooked (some c) (some d) 0 0 (owned d - owned c) 0
PeerStep-IsBooked my from (new i) (other_creating tx j) s h = ground arith
PeerStep-IsBooked my from (other_creating tx i) (open_channel d) s h = ground arith
PeerStep-IsBooked my from (open_channel c) (other_re_drawing tx d) s h = ground arith
PeerStep-IsBooked my from (other_re_drawing tx c) (open_channel d) s h = ground arith
PeerStep-IsBooked my from (open_channel c) (open_channel d) s h = ground arith
PeerStep-IsBooked my from _ _ s h = absurd h

Refused-IsBooked :
    (my from : Address) (before after : Option Counterparty)
    → IsSound before
    → Refused my from before after
    → IsBooked before after 0 0 (owned_with after - owned_with before) 0
Refused-IsBooked my from none none s h = ground arith
Refused-IsBooked my from none (some d) s h = rw h (ground arith)
Refused-IsBooked my from (some c) (some d) s h = rw h (ground arith)
Refused-IsBooked my from (some c) none s h = absurd h

pub Effect-IsBooked :
    {A : Type 0} (my from : Address) (r : Outcome A) (before after : Option Counterparty)
    → IsSound before
    → Effect my from r before after
    → IsBooked before after 0 0 (owned_with after - owned_with before) 0
Effect-IsBooked my from (ok a) none (some (other_creating tx i)) s h = ground arith
Effect-IsBooked my from (ok a) none (some d) s h = absurd h
Effect-IsBooked my from (ok a) (some c) (some d) s h = PeerStep-IsBooked my from c d s h
Effect-IsBooked my from (ok a) none none s h = absurd h
Effect-IsBooked my from (ok a) (some c) none s h = absurd h
Effect-IsBooked my from (err e) before after s h = Refused-IsBooked my from before after s h
Effect-IsBooked my from panic before after s h = Refused-IsBooked my from before after s h
