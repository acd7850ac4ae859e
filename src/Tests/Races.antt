-- ===== src/Tests/Races.antt =====
-- Alice's user opens a channel with Bob while Bob proposes one to her.
use guac_rs.Prelude.{◌==◌, false}
use guac_rs.Types.{NewChannelTx}
use guac_rs.ChannelManager.{fill_channel}
use guac_rs.ChannelManager.Fill.{fill_at}
use guac_rs.ChannelManager.Opening.{opening_tx}
use guac_rs.CounterpartyApi.{propose_channel, propose_channel_at}
use guac_rs.Task.{Order}
use guac_rs.Race.{race, steps}
use guac_rs.Race.Serial.{Serial}
use guac_rs.Race.Calls.{fill_and_propose-Serial}
use guac_rs.Tests.Samples.{num, lib, alice, strangers}

-- Bob's proposal, of a channel in which he puts 50.
abbrev proposal : NewChannelTx
proposal = opening_tx false 9 5 50 70

-- Her call finds no entry first, and then his request goes on to its end.
abbrev hers_first : Order
hers_first n = n == 0

fill_and_propose-Serial_example :
    Serial
      (fill_channel num lib alice 9 "" 100)
      (propose_channel num lib alice 9 "" proposal)
      strangers
      (race hers_first
        (steps 9 5 (fill_at num lib alice 9 "" 100))
        (steps 9 5 (propose_channel_at num lib alice 9 proposal))
        strangers)
fill_and_propose-Serial_example =
    fill_and_propose-Serial num lib alice 9 "" 100 proposal hers_first strangers
