-- ===== src/History/Calls.antt =====
-- Each event keeps the books of every counterparty: of the one that it is about and of the others.
use native.Mathlib.Decide.{ℕ_discrete}
use guac_rs.Prelude.{
  ℕ, ◌==◌, ◌-◌, ◌≡◌, ◌≢◌, refl, ap, if◌then◌else◌, Option, none, some, String, inl, inr, arith,
  Option-cases,
}
use guac_rs.External.{Address, Num, IsExact, Clarity}
use guac_rs.Types.{Counterparty, new, guac, error}
use guac_rs.Outcome.{Outcome, err}
use guac_rs.Channel
use guac_rs.Storage.{lookup, lookup-insert}
use guac_rs.Node.{Guac, Node}
use guac_rs.ChannelManager.{withdraw, make_payment, check_accrual}
use guac_rs.ChannelManager.Accrual.{check_accrual-Reported}
use guac_rs.ChannelManager.Effect.{fill_channel-Filled, withdraw-Withdrawn, make_payment-Spent}
use guac_rs.ChannelManager.Others.{calls-others}
use guac_rs.CounterpartyApi.{as_api}
use guac_rs.CounterpartyApi.Effect.{
  propose_channel-Keeps, propose_re_draw-Keeps, notify_channel_opened-Keeps, notify_re_draw-Keeps,
  receive_payment-Keeps,
}
use guac_rs.HttpServer.{
  Request, propose_channel, propose_re_draw, notify_channel_opened, notify_re_draw, receive_payment,
  sender, serve,
}
use guac_rs.HttpServer.Safety.{IsSound, owned_with, serve-others}
use guac_rs.History.{
  Event, served, fills, withdraws, pays, checks, after, put_in, taken_out, gained, reported, done,
  report,
}
use guac_rs.History.Moves.{
  IsBooked, IsBooked-same, Filled-IsBooked, Withdrawn-IsBooked, Spent-IsBooked, Reported-IsBooked,
  Effect-IsBooked,
}

pub same_test : (k x : ℕ) → (if k == k then x else 0) ≡ x
same_test k x = ground arith

pub other_test : (j k x : ℕ) → k ≢ j → (if j == k then x else 0) ≡ 0
other_test j k x ne = ground arith

IsBooked-kept :
    {before after : Option Counterparty}
    → IsSound before
    → after ≡ before
    → IsBooked before after 0 0 0 0
IsBooked-kept {before} s e = rw e (IsBooked-same before s)

-- An unknown counterparty is one that is `new`.
pub IsBooked-unknown :
    {i : _} {after : Option Counterparty} {more less gain told : ℕ}
    → IsBooked (some (new i)) after more less gain told
    → IsBooked none after more less gain told
IsBooked-unknown b = record { sound = b.sound; balance = b.balance; accrual = b.accrual }

pub check_accrual-others :
    {W : Type 0} (their k : Address) (n : Node W)
    → k ≢ their
    → lookup k (check_accrual their n).1.storage ≡ lookup k n.storage
unfolding check_accrual Channel.check_accrual
check_accrual-others their k n ne = grind (arith, lookup-insert)

-- A call that fails at once for want of a counterparty.
IsBooked-missing :
    {W A : Type 0} (their : Address) {n : Node W} {p : Outcome A × Node W}
    → lookup their n.storage ≡ none
    → p ≡ (err (guac (error "Cannot find counterparty")), n)
    → IsBooked (lookup their n.storage) (lookup their p.1.storage) 0 0 0 0
IsBooked-missing their unknown failed = rw failed (rw unknown (IsBooked-same none tt))

module _ {W : Type 0} (num : Num) (lib : Clarity) (self : Guac W) (their : Address) (n : Node W)
    (unknown : lookup their n.storage ≡ none) where
  withdraw_unknown :
      (url : String) (amount : ℕ)
      → withdraw num lib self their url amount n
        ≡ (err (guac (error "Cannot find counterparty")), n)
  unfolding withdraw
  withdraw_unknown url amount = rw unknown refl

  make_payment_unknown :
      (url : String) (amount : ℕ)
      → make_payment num lib self their url amount n
        ≡ (err (guac (error "Cannot find counterparty")), n)
  unfolding make_payment
  make_payment_unknown url amount = rw unknown refl

check_accrual_unknown :
    {W : Type 0} (their : Address) (n : Node W)
    → lookup their n.storage ≡ none
    → check_accrual their n ≡ (err (guac (error "Cannot find counterparty")), n)
unfolding check_accrual
check_accrual_unknown their n unknown = rw unknown refl

module _ (num : Num) (exact : IsExact num) (lib : Clarity) {W : Type 0} (self : Guac W) where
  serve-Keeps :
      (request : Request) (n : Node W)
      → let n' = (serve (as_api num lib self) request n).1 in
        let from = sender request in
        IsSound (lookup from n.storage)
        → IsBooked
            (lookup from n.storage)
            (lookup from n'.storage)
            0
            0
            (owned_with (lookup from n'.storage) - owned_with (lookup from n.storage))
            0
  unfolding serve
  serve-Keeps (propose_channel from tx) n s =
      Effect-IsBooked _ from _ _ _ s (propose_channel-Keeps num lib self from "" tx n)
  serve-Keeps (propose_re_draw from tx) n s =
      Effect-IsBooked _ from _ _ _ s (propose_re_draw-Keeps num lib self from "" tx n)
  serve-Keeps (notify_channel_opened from) n s =
      Effect-IsBooked _ from _ _ _ s (notify_channel_opened-Keeps num lib self from "" n)
  serve-Keeps (notify_re_draw from) n s =
      Effect-IsBooked _ from _ _ _ s (notify_re_draw-Keeps num lib self from "" n)
  serve-Keeps (receive_payment from u) n s =
      Effect-IsBooked _ from _ _ _ s (receive_payment-Keeps num exact lib self from "" u n)

  -- The books of `k` over one event.
  abbrev pub Booked : Address → Event → Node W → Type 0
  Booked k e n =
      IsBooked (lookup k n.storage) (lookup k (after num lib self e n).storage)
        (put_in num lib self k e n) (taken_out num lib self k e n) (gained num lib self k e n)
        (reported num lib self k e n)

  fills-Booked :
      (their : Address) (url : String) (amount : ℕ) (n : Node W)
      → IsSound (lookup their n.storage)
      → Booked their (fills their url amount) n
  unfolding after put_in taken_out gained reported
  fills-Booked their url amount n s =
      let filled = fill_channel-Filled num exact lib self their url amount n in
      rw same_test (elim (Option-cases (lookup their n.storage)) [
        | inl unknown ↦
            rw unknown (IsBooked-unknown (Filled-IsBooked amount _ _ _ tt (rw unknown at filled)))
        | inr (c, e) ↦ rw e (Filled-IsBooked amount _ c _ (rw e at s) (rw e at filled))
      ])

  withdraws-Booked :
      (their : Address) (url : String) (amount : ℕ) (n : Node W)
      → IsSound (lookup their n.storage)
      → Booked their (withdraws their url amount) n
  unfolding after put_in taken_out gained reported
  withdraws-Booked their url amount n s =
      rw same_test (elim (Option-cases (lookup their n.storage)) [
        | inl unknown ↦
            let failed = withdraw_unknown num lib self their n unknown url amount in
            rw (ap (λ p. done amount p.0) failed) (IsBooked-missing their unknown failed)
        | inr (c, e) ↦ rw e (
            Withdrawn-IsBooked amount _ c _ (rw e at s)
              (withdraw-Withdrawn num exact lib self their url amount c n e))
      ])

  pays-Booked :
      (their : Address) (url : String) (amount : ℕ) (n : Node W)
      → IsSound (lookup their n.storage)
      → Booked their (pays their url amount) n
  unfolding after put_in taken_out gained reported
  pays-Booked their url amount n s = rw same_test (elim (Option-cases (lookup their n.storage)) [
    | inl unknown ↦
        let failed = make_payment_unknown num lib self their n unknown url amount in
        rw (ap (λ p. done amount p.0) failed) (IsBooked-missing their unknown failed)
    | inr (c, e) ↦ rw e (
        Spent-IsBooked amount _ c _ (rw e at s)
          (make_payment-Spent num exact lib self their url amount c n e))
  ])

  checks-Booked :
      (their : Address) (n : Node W)
      → IsSound (lookup their n.storage)
      → Booked their (checks their) n
  unfolding after put_in taken_out gained reported
  checks-Booked their n s = rw same_test (elim (Option-cases (lookup their n.storage)) [
    | inl unknown ↦
        let failed = check_accrual_unknown their n unknown in
        rw (ap (λ p. report p.0) failed) (IsBooked-missing their unknown failed)
    | inr (c, e) ↦ rw e (Reported-IsBooked _ c _ (rw e at s) (check_accrual-Reported their c n e).0)
  ])

  elsewhere :
      (k : Address) (event : Event) (n : Node W) {more less gain told : ℕ}
      → IsSound (lookup k n.storage)
      → lookup k (after num lib self event n).storage ≡ lookup k n.storage
      → (more ≡ 0) × (less ≡ 0) × (gain ≡ 0) × (told ≡ 0)
      → IsBooked
          (lookup k n.storage)
          (lookup k (after num lib self event n).storage)
          more
          less
          gain
          told
  elsewhere k event n s kept (a, b, c, d) =
      rw (kept, a, b, c, d) (IsBooked-same (lookup k n.storage) s)

  -- Every event keeps the books of every counterparty.
  pub event-Booked :
      (k : Address) (event : Event) (n : Node W) → IsSound (lookup k n.storage) → Booked k event n
  unfolding after put_in taken_out gained reported
  event-Booked k (served request) n s = elim (ℕ_discrete k (sender request)) [
    | yes e ↦ rw e (serve-Keeps request n (rw e at s))
    | no ne ↦
        let kept = serve-others num lib self request n k ne in
        elsewhere k (served request) n s kept (refl, refl, rw kept (omega arith), refl)
  ]
  event-Booked k (fills their url amount) n s = elim (ℕ_discrete k their) [
    | yes e ↦ rw e (fills-Booked their url amount n (rw e at s))
    | no ne ↦
        elsewhere k (fills their url amount) n s
          (calls-others num lib self their k url amount n ne).0
          (other_test their k _ ne, refl, refl, refl)
  ]
  event-Booked k (withdraws their url amount) n s = elim (ℕ_discrete k their) [
    | yes e ↦ rw e (withdraws-Booked their url amount n (rw e at s))
    | no ne ↦
        elsewhere k (withdraws their url amount) n s
          (calls-others num lib self their k url amount n ne).1
          (refl, other_test their k _ ne, refl, refl)
  ]
  event-Booked k (pays their url amount) n s = elim (ℕ_discrete k their) [
    | yes e ↦ rw e (pays-Booked their url amount n (rw e at s))
    | no ne ↦
        elsewhere k (pays their url amount) n s
          (calls-others num lib self their k url amount n ne).2
          (refl, other_test their k _ ne, refl, refl)
  ]
  event-Booked k (checks their) n s = elim (ℕ_discrete k their) [
    | yes e ↦ rw e (checks-Booked their n (rw e at s))
    | no ne ↦
        elsewhere k (checks their) n s (check_accrual-others their k n ne)
          (refl, refl, refl, other_test their k _ ne)
  ]
