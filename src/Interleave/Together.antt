-- ===== src/Interleave/Together.antt =====
-- Calls of the user for different counterparties at once (guac_core/src/channel_manager.rs).
use mathlib.Core.Option.{get_or}
use guac_rs.Prelude.{ltb, ◌≡◌, ◌≢◌, refl, Option, none, some}
use guac_rs.External.{Address, Num, Clarity, IsExact}
use guac_rs.Types.{Counterparty, new, guac, error}
use guac_rs.Outcome.{Outcome, err}
use guac_rs.Storage.{lookup}
use guac_rs.Node.{Guac, Node, check_for_counterparty}
use guac_rs.Task.{Order}
use guac_rs.Race.{race}
use guac_rs.ChannelManager.Transition.{Filled, Withdrawn, Spent}
use guac_rs.Interleave.{Meets, Meets-get, Meets-new, Meets-pure, Meets-raised}
use guac_rs.Interleave.Calls.{fill_at_steps-Meets, withdraw_at_steps-Meets, pay_at_steps-Meets}
use guac_rs.HttpServer.{sender}
use guac_rs.Interleave.Answers.{Answers, request_steps-Meets}
use guac_rs.Interleave.Jobs.{Job, own, asked, party, Result, job_steps}
use guac_rs.Interleave.Pair.{BothMet, race-Meets}
use guac_rs.Interleave.Steps.{fill_at_steps, withdraw_at_steps, pay_at_steps}
use guac_rs.Interleave.User.{UserCall, fill_call, withdraw_call, pay_call, user_steps}

-- A call for a counterparty that is not known, and must be.
abbrev Missing : Outcome (Unit {0}) → Option Counterparty → Type 0
Missing r v = (r ≡ err (guac (error "Cannot find counterparty"))) × (v ≡ none)

-- The specification of a call of the user, from the entry before to the outcome and the entry after.
abbrev pub Does :
    Address
    → Address
    → UserCall
    → Option Counterparty
    → Outcome (Unit {0})
    → Option Counterparty
    → Type 0
Does my their (fill_call url amount) v r after =
    Filled amount r (get_or v (new (ltb my their))) after
Does my their (withdraw_call url amount) (some c) r after = Withdrawn amount r c after
Does my their (pay_call url amount) (some c) r after = Spent amount r c after
Does my their _ none r after = Missing r after

-- What a job may do, from the entry before to its outcome and the entry after.
abbrev pub Done :
    {W : Type 0}
    → Guac W
    → (job : Job) → Option Counterparty
    → Outcome (Result job)
    → Option Counterparty
    → Type 0
Done self (own their call) = Does self.crypto.own_address their call
Done self (asked request) = Answers self (sender request)

module _ (num : Num) (exact : IsExact num) (lib : Clarity) {W : Type 0} (self : Guac W) where
  user_steps-Meets :
      (their : Address) (a : UserCall) (v : Option Counterparty)
      → Meets their (Does self.crypto.own_address their a v) (user_steps num lib self their a) v
  unfolding check_for_counterparty
  user_steps-Meets their (fill_call url amount) (some c) =
      Meets-get their _ _ (some c) (fill_at_steps-Meets num exact lib self their url amount c)
  user_steps-Meets their (fill_call url amount) none =
      let c = new (ltb self.crypto.own_address their) in
      Meets-get their _ _ none (
        Meets-new their _ _ c (
          Meets-get their _ _ (some c) (
            Meets-pure their _ (fill_at_steps num lib self their url amount) (some c) c
              (fill_at_steps-Meets num exact lib self their url amount c))))
  user_steps-Meets their (withdraw_call url amount) (some c) = Meets-get their _ _ (some c) (
      Meets-pure their _ (withdraw_at_steps num lib self their url amount) (some c) c
        (withdraw_at_steps-Meets num exact lib self their url amount c))
  user_steps-Meets their (withdraw_call url amount) none =
      Meets-get their _ _ none
        (Meets-raised their _ (withdraw_at_steps num lib self their url amount) none _ (refl, refl))
  user_steps-Meets their (pay_call url amount) (some c) = Meets-get their _ _ (some c) (
      Meets-pure their _ (pay_at_steps num lib self their url amount) (some c) c
        (pay_at_steps-Meets num exact lib self their url amount c))
  user_steps-Meets their (pay_call url amount) none =
      Meets-get their _ _ none
        (Meets-raised their _ (pay_at_steps num lib self their url amount) none _ (refl, refl))

  pub job_steps-Meets :
      (job : Job) (v : Option Counterparty)
      → Meets (party job) (Done self job v) (job_steps num lib self job) v
  job_steps-Meets (own their call) v = user_steps-Meets their call v
  job_steps-Meets (asked request) v = request_steps-Meets num exact lib self request v

  -- Given exact arithmetic: let a node work at once on two jobs, each a `fill_channel`, a
  -- `withdraw` or a `make_payment` of its user or a request of another node for one of the five
  -- handlers, about two different counterparties, with their steps (each request that is sent, each
  -- test and each access to the storage) in any order, and whatever the chain and the
  -- counterparties answer. Both jobs end, each with an outcome and an entry of its counterparty
  -- that the specification of the call or of the handler allows for the entry that was there at the
  -- start (without an entry, `withdraw` and `make_payment` fail with the error that there is none,
  -- and make none), and the entry of every third address is as it was.
  pub jobs_together :
      (a b : Job) (order : Order) (n : Node W)
      → party a ≢ party b
      → BothMet
          (party a)
          (party b)
          (Done self a (lookup (party a) n.storage))
          (Done self b (lookup (party b) n.storage))
          n
          (race order (job_steps num lib self a) (job_steps num lib self b) n)
  jobs_together a b order n apart =
      race-Meets (party a) (party b) _ _ apart order _ _ n (job_steps-Meets a _)
        (job_steps-Meets b _)
