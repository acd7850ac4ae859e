-- ===== src/Tests/Calls.antt =====
-- Calls of Alice's user, against Bob's node.
use guac_rs.Prelude.{refl, true}
use guac_rs.Types.{new, open_channel}
use guac_rs.Storage.{lookup}
use guac_rs.ChannelManager.{fill_channel, withdraw, make_payment}
use guac_rs.ChannelManager.Transition.{Filled, Withdrawn, Spent}
use guac_rs.ChannelManager.Effect.{fill_channel-Filled, withdraw-Withdrawn, make_payment-Spent}
use guac_rs.Tests.Samples.{num, num-IsExact, lib, alice, alice_channel, both, strangers}

fill_channel-Filled_example :
    let (r, n') = fill_channel num lib alice 9 "" 100 strangers in
    Filled 100 r (new true) (lookup 9 n'.storage)
unfolding lookup
fill_channel-Filled_example = fill_channel-Filled num num-IsExact lib alice 9 "" 100 strangers

withdraw-Withdrawn_example :
    let (r, n') = withdraw num lib alice 9 "" 10 both in
    Withdrawn 10 r (open_channel alice_channel) (lookup 9 n'.storage)
withdraw-Withdrawn_example =
    withdraw-Withdrawn num num-IsExact lib alice 9 "" 10 (open_channel alice_channel) both
      (unfold lookup in refl)

make_payment-Spent_example :
    let (r, n') = make_payment num lib alice 9 "" 10 both in
    Spent 10 r (open_channel alice_channel) (lookup 9 n'.storage)
make_payment-Spent_example =
    make_payment-Spent num num-IsExact lib alice 9 "" 10 (open_channel alice_channel) both
      (unfold lookup in refl)
