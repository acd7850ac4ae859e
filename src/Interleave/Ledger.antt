-- ===== src/Interleave/Ledger.antt =====
-- The books of a node whose jobs mix (guac_core/src/channel_manager.rs and counterparty_api.rs).
use mathlib.Core.Path.{subst}
use guac_rs.Prelude.{
  ℕ, ◌+◌, ◌-◌, ◌==◌, ◌≡◌, ◌≤◌, sym, refl, if◌then◌else◌, Option, none, some, List, [], ◌∷◌, Bool,
  true, false, ◌∙◌, ap, arith,
}
use guac_rs.External.{Address, Num, Clarity, IsExact}
use guac_rs.Types.{Counterparty}
use guac_rs.Outcome.{Outcome}
use guac_rs.Storage.{lookup}
use guac_rs.Node.{Guac, Node}
use guac_rs.HttpServer.{sender}
use guac_rs.HttpServer.Safety.{owned_with, IsSound}
use guac_rs.History.{accrued_with, done}
use guac_rs.History.Calls.{IsBooked-unknown}
use guac_rs.History.Ledger.{IsBooked-trans}
use guac_rs.History.Moves.{
  IsBooked, IsBooked-same, Filled-IsBooked, Withdrawn-IsBooked, Spent-IsBooked, Effect-IsBooked,
}
use guac_rs.Interleave.User.{fill_call, withdraw_call, pay_call}
use guac_rs.Interleave.Jobs.{Job, own, asked, party, Result}
use guac_rs.Interleave.Together.{Done}
use guac_rs.Interleave.Crowd.{Ended, Crowd, Reach}
use guac_rs.Interleave.Serial.{last_entry, IsSerial, Reach-IsSerial}

-- What a call of the user put in or took out, and what a request gained.
abbrev pub put_in : (job : Job) → Outcome (Result job) → ℕ
put_in (own their (fill_call url amount)) r = done amount r
put_in (own their call) r = 0
put_in (asked request) r = 0

abbrev pub taken_out : (job : Job) → Outcome (Result job) → ℕ
taken_out (own their (withdraw_call url amount)) r = done amount r
taken_out (own their (pay_call url amount)) r = done amount r
taken_out (own their call) r = 0
taken_out (asked request) r = 0

abbrev pub gained : Job → Option Counterparty → Option Counterparty → ℕ
gained (own their call) before after = 0
gained (asked request) before after = owned_with after - owned_with before

-- The sum over the jobs about `k`.
abbrev pub total_of : Address → (Ended → ℕ) → List Ended → ℕ
total_of k f [] = 0
total_of k f (e ∷ log) = total_of k f log + (if party e.job == k then f e else 0)

abbrev pub all_put_in : Address → List Ended → ℕ
all_put_in k = total_of k (λ e. put_in e.job e.outcome)

abbrev pub all_taken_out : Address → List Ended → ℕ
all_taken_out k = total_of k (λ e. taken_out e.job e.outcome)

abbrev pub all_gained : Address → List Ended → ℕ
all_gained k = total_of k (λ e. gained e.job e.before e.after)

module _ {W : Type 0} (self : Guac W) where
  Done-IsBooked :
      (job : Job) (before : Option Counterparty) (r : Outcome (Result job))
      → (after : Option Counterparty) → IsSound before
      → Done self job before r after
      → IsBooked before after (put_in job r) (taken_out job r) (gained job before after) 0
  Done-IsBooked (own their (fill_call url amount)) (some c) r after s h =
      Filled-IsBooked amount r c after s h
  Done-IsBooked (own their (fill_call url amount)) none r after s h =
      IsBooked-unknown (Filled-IsBooked amount r _ after tt h)
  Done-IsBooked (own their (withdraw_call url amount)) (some c) r after s h =
      Withdrawn-IsBooked amount r c after s h
  Done-IsBooked (own their (withdraw_call url amount)) none r after s h =
      rw (h.0, h.1) (IsBooked-same none tt)
  Done-IsBooked (own their (pay_call url amount)) (some c) r after s h =
      Spent-IsBooked amount r c after s h
  Done-IsBooked (own their (pay_call url amount)) none r after s h =
      rw (h.0, h.1) (IsBooked-same none tt)
  Done-IsBooked (asked request) before r after s h =
      Effect-IsBooked _ (sender request) r before after s h

  module _ (n0 : Node W) (k : Address) (sound : IsSound (lookup k n0.storage)) where
    with_last :
        (e : Ended) (rest : List Ended) (b : Bool)
        → (party e.job == k) ≡ b
        → Done self e.job e.before e.outcome e.after
        → e.before ≡ last_entry (party e.job) n0 rest
        → IsBooked
            (lookup k n0.storage)
            (last_entry k n0 rest)
            (all_put_in k rest)
            (all_taken_out k rest)
            (all_gained k rest)
            0
        → IsBooked
            (lookup k n0.storage)
            (if b then e.after else last_entry k n0 rest)
            (all_put_in k rest + (if b then put_in e.job e.outcome else 0))
            (all_taken_out k rest + (if b then taken_out e.job e.outcome else 0))
            (all_gained k rest + (if b then gained e.job e.before e.after else 0))
            0
    with_last e rest true test did found until =
        let same : party e.job ≡ k = ground arith in
        let here : e.before ≡ last_entry k n0 rest = found ∙ ap (λ x. last_entry x n0 rest) same in
        let now =
          Done-IsBooked e.job e.before e.outcome e.after (subst IsSound (sym here) until.sound)
            did in
        IsBooked-trans until (
          subst
            (λ x.
              IsBooked x e.after (put_in e.job e.outcome) (taken_out e.job e.outcome)
                (gained e.job e.before e.after) 0)
            here now)
    with_last e rest false test did found until = record {
      sound = until.sound;
      balance = omega (arith, until.balance);
      accrual = omega (arith, until.accrual);
    }

    log-IsBooked :
        (log : List Ended)
        → IsSerial self n0 log
        → IsBooked
            (lookup k n0.storage)
            (last_entry k n0 log)
            (all_put_in k log)
            (all_taken_out k log)
            (all_gained k log)
            0
    log-IsBooked [] h = IsBooked-same (lookup k n0.storage) sound
    log-IsBooked (e ∷ rest) (did, found, before) =
        with_last e rest (party e.job == k) refl did found (log-IsBooked rest before)

module _ (num : Num) (exact : IsExact num) (lib : Clarity) {W : Type 0} (self : Guac W)
    (n0 : Node W) where
  -- Given exact arithmetic: let a node work at once on any number of jobs (calls of its user to
  -- fill, withdraw or pay, and requests for the five handlers), at most one for each counterparty,
  -- their steps in any order, and let an entry of `k` that waits for a re-draw that `k` has
  -- proposed leave this node's own balance, at the start, as its channel has it. Whenever no job
  -- about `k` is under way, what the node owns with `k`, and what the user's successful calls took
  -- out or paid to `k`, are together at least what it owned at the start and what the user's
  -- successful calls put in; and the accrual kept for `k` is that at the start with what requests
  -- gained the node in between.
  pub crowd_keeps_books :
      {s : Crowd W} (k : Address)
      → Reach num lib self n0 s
      → IsSound (lookup k n0.storage)
      → s.busy k ≡ none
      → (owned_with (lookup k n0.storage) + all_put_in k s.log
          ≤ owned_with (lookup k s.node.storage) + all_taken_out k s.log)
        × (accrued_with (lookup k n0.storage) + all_gained k s.log
            ≡ accrued_with (lookup k s.node.storage))
  crowd_keeps_books {s} k r sound free =
      let (serial, left, _) = Reach-IsSerial num exact lib self n0 r in
      let b = log-IsBooked self n0 k sound s.log serial in
      rw (left k free) (b.balance, ground (arith, b.accrual))
