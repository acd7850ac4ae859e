-- ===== src/Channel/Link/Liveness.antt =====
-- The "Proof of balance liveness" at the head of guac_core/src/channel.rs.
use guac_rs.Prelude.{ℕ, ◌+◌, ◌^◌, ◌≤◌, ◌<◌, ◌≡◌, true, false, none, some, arith}
use guac_rs.External.{Num, IsExact}
use guac_rs.Outcome.{ok}
use guac_rs.Channel.{make_payment, receive_payment}
use guac_rs.Channel.Payment.{
  total, paid, received, update_of, make_payment_pays, receive_payment_takes,
}
use guac_rs.Channel.Link.{Link, IsOpened, Reach}
use guac_rs.Channel.Link.Invariant.{IsOpened-IsLive}
use guac_rs.Channel.Link.Steps.{Reach-IsLive}

module _ (num : Num) (exact : IsExact num) where
  -- Given exact arithmetic: start from two copies of a channel that both hold f and g, Alice's of
  -- end 0 and Bob's of end 1, with no update sent. After any run of payments of either side
  -- (counted on from the own number, or from a number that is not below it), of receipts of updates
  -- that were ever sent (in any order, any number of times or never) and of accrual checks, Alice's
  -- copy grants Bob at least what Bob's copy does, and both copies hold the total f + g.
  pub alice-ge-bob :
      {f g : ℕ} {start l : Link}
      → IsOpened f g start
      → Reach num start l
      → (l.bob.balance_1 ≤ l.alice.balance_1) × (total l.alice ≡ f + g) × (total l.bob ≡ f + g)
  alice-ge-bob {f} {g} {start} o r =
      let h = Reach-IsLive num exact r (IsOpened-IsLive start o) in
      (h.ordered, h.alice_total, h.bob_total)

  -- Given exact arithmetic: in any state that such a run from a freshly opened channel reaches, if
  -- Alice's copy holds `amount` for her, and the total, Bob's next number and Bob's accrual with
  -- the total added stay below 2 ^ 256, then her payment of `amount` that counts on from Bob's
  -- number is made, and Bob accepts its update.
  pub bob_takes_next :
      {f g : ℕ} {start l : Link}
      → IsOpened f g start
      → Reach num start l
      → (amount : ℕ) → amount ≤ l.alice.balance_0
      → f + g < 2 ^ 256
      → l.bob.sequence_number + 1 < 2 ^ 256
      → l.bob.accrual + (f + g) < 2 ^ 256
      → let a = paid true l.alice amount (l.bob.sequence_number + 1) in
        (make_payment num amount (some l.bob.sequence_number) l.alice ≡ (ok (update_of a), a))
        × (receive_payment num (update_of a) l.bob ≡ (ok none, received l.bob (update_of a)))
  bob_takes_next {f} {g} {start} {l} o r amount enough fits room accruable =
      let h = Reach-IsLive num exact r (IsOpened-IsLive start o) in
      let a = paid true l.alice amount (l.bob.sequence_number + 1) in
      (
        ground (arith, make_payment_pays num exact l.alice amount (some l.bob.sequence_number)),
        receive_payment_takes num exact l.bob (update_of a) (ground arith) (ground arith)
            (ground arith) (ground arith) (ground arith),
      )

  -- Given exact arithmetic: in any state that such a run from a freshly opened channel reaches, if
  -- Bob's copy holds `amount` for him, and the total, Alice's next number and Alice's accrual with
  -- the total added stay below 2 ^ 256, then his payment of `amount` that counts on from Alice's
  -- number is made, and Alice accepts its update.
  alice_takes_next :
      {f g : ℕ} {start l : Link}
      → IsOpened f g start
      → Reach num start l
      → (amount : ℕ) → amount ≤ l.bob.balance_1
      → f + g < 2 ^ 256
      → l.alice.sequence_number + 1 < 2 ^ 256
      → l.alice.accrual + (f + g) < 2 ^ 256
      → let b = paid false l.bob amount (l.alice.sequence_number + 1) in
        (make_payment num amount (some l.alice.sequence_number) l.bob ≡ (ok (update_of b), b))
        × (receive_payment num (update_of b) l.alice ≡ (ok none, received l.alice (update_of b)))
  alice_takes_next {f} {g} {start} {l} o r amount enough fits room accruable =
      let h = Reach-IsLive num exact r (IsOpened-IsLive start o) in
      let b = paid false l.bob amount (l.alice.sequence_number + 1) in
      (
        ground (arith, make_payment_pays num exact l.bob amount (some l.alice.sequence_number)),
        receive_payment_takes num exact l.alice (update_of b) (ground arith) (ground arith)
            (ground arith) (ground arith) (ground arith),
      )
