-- ===== src/Tests/Parties.antt =====
-- Alice's calls against Bob's handlers.
use guac_rs.Prelude.{ℕ, ◌+◌, ◌≡◌, refl, true, some, [], ◌∷◌, arith}
use guac_rs.Types.{Channel, open_channel}
use guac_rs.Outcome.{ok}
use guac_rs.Storage.{lookup, insert}
use guac_rs.Node.{Node}
use guac_rs.Channel.Payment.{my_balance, paid, received, update_of}
use guac_rs.Channel.Exchange.{IsSettled}
use guac_rs.ChannelManager.{fill_channel, make_payment}
use guac_rs.ChannelManager.ReDraw.{re_drawn}
use guac_rs.TwoParty.Payment.{make_payment_settles, make_payment_doubles}
use guac_rs.TwoParty.Refill.{make_payment_after_refill}
use guac_rs.Tests.Samples.{
  copies-IsMirror, num, num-IsExact, lib, alice_keys, bob, alice, alice-Signs, bob-Signs,
  alice_channel, bob_channel, bob_node, both,
}

make_payment_settles_example :
    let a' = paid true alice_channel 3 5 in
    let b' = received bob_channel (update_of a') in
    (make_payment num lib alice 9 "" 3 both ≡ (
      ok tt,
      record {
        storage = insert 9 (open_channel a') both.storage;
        world = record bob_node { storage = insert 5 (open_channel b') bob_node.storage };
      },
    ))
    × IsSettled 3 alice_channel bob_channel a' b'
make_payment_settles_example =
    make_payment_settles num num-IsExact lib alice_keys bob alice-Signs refl alice_channel
      bob_channel "" 3 both (unfold lookup in refl) (unfold lookup in refl) (omega arith)
      (omega arith) (omega arith) copies-IsMirror (omega arith)

-- Bob's copy is one number ahead.
abbrev ahead : Channel
ahead = record bob_channel { sequence_number = 5 }

abbrev apart : Node (Node ℕ)
apart = record both { world = record { storage = (5, open_channel ahead) ∷ []; world = 0 } }

make_payment_doubles_example :
    let (r, n') = make_payment num lib alice 9 "" 3 apart in
    (r ≡ ok tt)
    × (n'.storage ≡ both.storage)
    × ((b' : Channel) × (lookup 5 n'.world.storage ≡ some (open_channel b'))
        × (my_balance b' ≡ 20 + (3 + 3))
        × (b'.accrual ≡ 0 + (3 + 3)))
make_payment_doubles_example =
    make_payment_doubles num num-IsExact lib alice_keys bob alice-Signs refl alice_channel ahead ""
      3 apart (unfold lookup in refl) (unfold lookup in refl) (omega arith) (omega arith)
      (omega arith) copies-IsMirror refl (omega arith) (omega arith)

make_payment_after_refill_example :
    let n1 = (fill_channel num lib alice 9 "" 10 both).1 in
    let (r, n2) = make_payment num lib alice 9 "" 7 n1 in
    (r ≡ ok tt)
    × (lookup 9 n2.storage ≡ some (open_channel (re_drawn alice_channel 40)))
    × ((b2 : Channel) × (lookup 5 n2.world.storage ≡ some (open_channel b2))
        × (my_balance b2 ≡ 20 + (7 + 7)))
make_payment_after_refill_example =
    make_payment_after_refill num num-IsExact lib alice_keys bob bob-Signs refl alice_channel
      bob_channel "" 10 70 both 0 1 1 (unfold lookup in refl) (unfold lookup in refl)
      copies-IsMirror (omega arith) (omega arith) (omega arith) refl 7 alice-Signs refl refl
      (omega arith) (omega arith) (omega arith) (omega arith)
