-- ===== src/Channel/Payment.antt =====
-- What `Channel::make_payment` and `Channel::receive_payment` do on each branch.
use guac_rs.Prelude.{
  ℕ, ◌+◌, ◌-◌, ◌^◌, ◌≤◌, ◌<◌, ◌≡◌, ◌≢◌, ◌⊎◌, Bool, true, false, Option, none, some, arith,
}
use guac_rs.External.{Uint256, Num, IsExact}
use guac_rs.Types.{Channel, UpdateTx, not_enough, guac}
use guac_rs.Outcome.{Outcome, ok, err, panic}
use guac_rs.Channel.{mine, theirs, make_payment, receive_payment}

abbrev pub total : Channel → ℕ
total c = c.balance_0 + c.balance_1

abbrev pub my_balance : Channel → ℕ
my_balance c = mine c.i_am_0 c.balance_0 c.balance_1

abbrev pub their_balance : Channel → ℕ
their_balance c = theirs c.i_am_0 c.balance_0 c.balance_1

-- The number that a payment counts on from.
abbrev pub base : Channel → Option Uint256 → ℕ
base c (some seq) = seq
base c none = c.sequence_number

-- The channel after a payment of `amount` to the other side.
abbrev pub paid : Bool → Channel → ℕ → ℕ → Channel
paid true c amount seq = record c {
  balance_0 = c.balance_0 - amount;
  balance_1 = c.balance_1 + amount;
  sequence_number = seq;
}
paid false c amount seq = record c {
  balance_0 = c.balance_0 + amount;
  balance_1 = c.balance_1 - amount;
  sequence_number = seq;
}

-- The unsigned update that states a channel's balances.
abbrev pub update_of : Channel → UpdateTx
update_of c = record {
  channel_id = c.channel_id;
  sequence_number = c.sequence_number;
  balance_0 = c.balance_0;
  balance_1 = c.balance_1;
  signature_0 = none;
  signature_1 = none;
}

-- The channel after an update of the other side was accepted.
abbrev pub received : Channel → UpdateTx → Channel
received c u = record c {
  balance_0 = u.balance_0;
  balance_1 = u.balance_1;
  sequence_number = u.sequence_number;
  accrual = c.accrual + (mine c.i_am_0 u.balance_0 u.balance_1 - my_balance c);
}

-- What the outcome of a payment of `amount` from `c` says, with `seq` the number counted from.
abbrev pub IsPayment : Channel → ℕ → ℕ → Outcome UpdateTx × Channel → Type 0
IsPayment c amount seq (ok u, after) =
    (amount ≤ my_balance c) × (after ≡ paid c.i_am_0 c amount (seq + 1)) × (u ≡ update_of after)
IsPayment c amount seq (err e, after) =
    (my_balance c < amount) × (e ≡ guac (not_enough "money in channel.")) × (after ≡ c)
IsPayment c amount seq (panic, after) = after ≡ c

-- What the outcome of receiving `u` at `c` says.
abbrev pub IsReceipt : Channel → UpdateTx → Outcome (Option Uint256) × Channel → Type 0
IsReceipt c u (ok none, after) =
    (c.sequence_number < u.sequence_number)
    × (u.balance_0 + u.balance_1 ≡ total c)
    × (my_balance c ≤ mine c.i_am_0 u.balance_0 u.balance_1)
    × (after ≡ received c u)
IsReceipt c u (ok (some seq), after) =
    (u.sequence_number ≤ c.sequence_number) × (seq ≡ c.sequence_number) × (after ≡ c)
IsReceipt c u (err e, after) =
    (c.sequence_number < u.sequence_number)
    × ((u.balance_0 + u.balance_1 ≢ total c)
        ⊎ (mine c.i_am_0 u.balance_0 u.balance_1 < my_balance c))
    × (after ≡ c)
IsReceipt c u (panic, after) =
    (after ≡ c)
    ⊎ ((c.sequence_number < u.sequence_number)
        × (u.balance_0 + u.balance_1 ≡ total c)
        × (my_balance c ≤ mine c.i_am_0 u.balance_0 u.balance_1)
        × (after ≡ record (received c u) { accrual = c.accrual }))

module _ (num : Num) (exact : IsExact num) where
  -- Given exact arithmetic: a payment that is made was within the payer's balance, moves the amount
  -- to the other end, sets the number after the one that is counted from, and returns the unsigned
  -- update that states the new channel. A payment that is refused was above the payer's balance, is
  -- refused with `NotEnough`, and leaves the channel as it was; so does a panic.
  pub make_payment-IsPayment :
      (c : Channel) (amount : ℕ) (cur : Option ℕ)
      → IsPayment c amount (base c cur) (make_payment num amount cur c)
  unfolding make_payment
  make_payment-IsPayment c amount cur = ground (
    arith,
    exact.add_cases (base c cur) 1,
    exact.checked_sub_fits (my_balance c) amount,
    exact.checked_sub_none (my_balance c) amount,
    exact.add_cases (their_balance c) amount,
  )

  -- Within 256 bits a payment that the payer can afford is made.
  pub make_payment_pays :
      (c : Channel) (amount : ℕ) (cur : Option ℕ)
      → amount ≤ my_balance c
      → total c < 2 ^ 256
      → base c cur + 1 < 2 ^ 256
      → let after = paid c.i_am_0 c amount (base c cur + 1) in
        make_payment num amount cur c ≡ (ok (update_of after), after)
  unfolding make_payment
  make_payment_pays c amount cur enough fits room = ground (
    arith,
    exact.add_fits (base c cur) 1,
    exact.checked_sub_fits (my_balance c) amount,
    exact.add_fits (their_balance c) amount,
  )

  -- Given exact arithmetic: an update that is accepted has a higher number, the same total and no
  -- less for the receiver, and the channel takes its balances and number and adds the gain to the
  -- accrual. An update that is answered with a number is not newer, the number is the channel's,
  -- and the channel is unchanged. An update that is refused is newer but changes the total or costs
  -- the receiver, and the channel is unchanged. After a panic the channel is unchanged, or it is
  -- the accepted one but for the accrual, which is the old one.
  pub receive_payment-IsReceipt :
      (c : Channel) (u : UpdateTx) → IsReceipt c u (receive_payment num u c)
  unfolding receive_payment
  receive_payment-IsReceipt c u =
      let mine_now = mine c.i_am_0 u.balance_0 u.balance_1 in
      ground (
        arith,
        exact.add_cases (my_balance c) (their_balance c),
        exact.add_cases mine_now (theirs c.i_am_0 u.balance_0 u.balance_1),
        exact.sub_fits mine_now (my_balance c),
        exact.add_cases c.accrual (mine_now - my_balance c),
      )

  -- Within 256 bits an update that is new, keeps the total and does not cost the receiver is taken.
  pub receive_payment_takes :
      (c : Channel) (u : UpdateTx)
      → c.sequence_number < u.sequence_number
      → u.balance_0 + u.balance_1 ≡ total c
      → my_balance c ≤ mine c.i_am_0 u.balance_0 u.balance_1
      → total c < 2 ^ 256
      → c.accrual + total c < 2 ^ 256
      → receive_payment num u c ≡ (ok none, received c u)
  unfolding receive_payment
  receive_payment_takes c u newer same more fits room =
      let mine_now = mine c.i_am_0 u.balance_0 u.balance_1 in
      ground (
        arith,
        exact.add_fits (my_balance c) (their_balance c),
        exact.add_fits mine_now (theirs c.i_am_0 u.balance_0 u.balance_1),
        exact.sub_fits mine_now (my_balance c),
        exact.add_fits c.accrual (mine_now - my_balance c),
      )

-- An update that is not newer is answered with the current number, and changes nothing.
pub receive_payment_old :
    (num : Num) (c : Channel) (u : UpdateTx)
    → u.sequence_number ≤ c.sequence_number
    → receive_payment num u c ≡ (ok (some c.sequence_number), c)
unfolding receive_payment
receive_payment_old num c u old = ground arith
