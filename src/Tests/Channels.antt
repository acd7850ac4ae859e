-- ===== src/Tests/Channels.antt =====
-- Payments between the sample copies of a channel.
use guac_rs.Prelude.{◌+◌, ◌≤◌, ◌≡◌, refl, true, false, none, some, [], ◌∷◌, arith}
use guac_rs.Types.{Channel, forbidden, guac, text}
use guac_rs.Outcome.{ok, err}
use guac_rs.Channel.{make_payment, receive_payment}
use guac_rs.Channel.Payment.{
  total, paid, received, update_of, IsPayment, IsReceipt, make_payment-IsPayment,
  receive_payment-IsReceipt,
}
use guac_rs.Channel.Exchange.{IsMirror, IsSettled, receive-make_payment}
use guac_rs.Channel.Link.{Link, IsOpened, Reach, begin, later, alice_pays, bob_receives, here}
use guac_rs.Channel.Link.Liveness.{alice-ge-bob, bob_takes_next}
use guac_rs.Tests.Samples.{num, num-IsExact, alice_channel, bob_channel}

-- Alice has paid 3, which Bob took, and then 5, of which the update is under way.
abbrev once : Channel
once = paid true alice_channel 3 5

abbrev twice : Channel
twice = paid true once 5 6

abbrev start : Link
start = record { alice = alice_channel; bob = bob_channel; from_alice = []; from_bob = [] }

abbrev sent : Link
sent = record start { alice = once; from_alice = update_of once ∷ [] }

abbrev taken : Link
taken = record sent { bob = received bob_channel (update_of once) }

abbrev now : Link
now = record taken { alice = twice; from_alice = update_of twice ∷ update_of once ∷ [] }

start-IsOpened : IsOpened 30 20 start
start-IsOpened = record {
  alice_end = refl;
  bob_end = refl;
  alice_0 = refl;
  alice_1 = refl;
  bob_0 = refl;
  bob_1 = refl;
  none_from_alice = refl;
  none_from_bob = refl;
}

now-reached : Reach num start now
unfolding make_payment receive_payment
now-reached =
    later
      (later (later begin (alice_pays 3 none tt refl refl))
        (bob_receives (update_of once) here refl refl))
      (alice_pays 5 none tt refl refl)

-- The repeated update of the first payment is answered with the number that Bob is at, and one
-- that takes money from Bob is refused.
repeated : receive_payment num (update_of once) taken.bob ≡ (ok (some 5), taken.bob)
unfolding receive_payment
repeated = refl

stolen :
    receive_payment num (update_of (paid false alice_channel 1 9)) bob_channel
    ≡ (err (guac (forbidden (text "This reduces my balance"))), bob_channel)
unfolding receive_payment
stolen = refl

alice-ge-bob_example :
    (now.bob.balance_1 ≤ now.alice.balance_1)
    × (total now.alice ≡ 30 + 20)
    × (total now.bob ≡ 30 + 20)
alice-ge-bob_example = alice-ge-bob num num-IsExact start-IsOpened now-reached

bob_takes_next_example :
    let a = paid true now.alice 7 (now.bob.sequence_number + 1) in
    (make_payment num 7 (some now.bob.sequence_number) now.alice ≡ (ok (update_of a), a))
    × (receive_payment num (update_of a) now.bob ≡ (ok none, received now.bob (update_of a)))
bob_takes_next_example =
    bob_takes_next num num-IsExact start-IsOpened now-reached 7 (omega arith) (omega arith)
      (omega arith) (omega arith)

make_payment-IsPayment_example :
    IsPayment alice_channel 31 4 (make_payment num 31 none alice_channel)
make_payment-IsPayment_example = make_payment-IsPayment num num-IsExact alice_channel 31 none

receive_payment-IsReceipt_example :
    IsReceipt bob_channel (update_of once) (receive_payment num (update_of once) bob_channel)
receive_payment-IsReceipt_example =
    receive_payment-IsReceipt num num-IsExact bob_channel (update_of once)

alike : IsMirror alice_channel bob_channel
alike = record { ids = refl; sequences = refl; balances_0 = refl; balances_1 = refl; ends = refl }

receive-make_payment_example :
    let u = update_of once in
    (make_payment num 3 none alice_channel ≡ (ok u, once))
    × (receive_payment num u bob_channel ≡ (ok none, received bob_channel u))
    × IsSettled 3 alice_channel bob_channel once (received bob_channel u)
receive-make_payment_example =
    receive-make_payment num num-IsExact alike (omega arith) (omega arith) (omega arith)
      (omega arith)
