-- ===== src/Tests/Http.antt =====
-- Alice's client against Bob's server, over a sample network on which every url leads to Bob.
use guac_rs.Prelude.{ℕ, String, ◌≡◌, refl, true, Option, none, some, arith}
use guac_rs.External.{Signature, Uint256}
use guac_rs.Types.{open_channel}
use guac_rs.Outcome.{ok}
use guac_rs.Storage.{lookup, insert}
use guac_rs.Node.{Node}
use guac_rs.Channel.Payment.{paid, received, update_of}
use guac_rs.Channel.Exchange.{IsSettled}
use guac_rs.ChannelManager.{make_payment}
use guac_rs.ChannelManager.Opening.{opening_tx}
use guac_rs.ChannelManager.Payment.{signed}
use guac_rs.ChannelManager.ReDraw.{re_draw_to}
use guac_rs.CounterpartyApi.{as_api}
use guac_rs.HttpServer.{Json, signature, null, number, serve, sequence_json}
use guac_rs.HttpClient.{Network, Serde, as_client}
use guac_rs.HttpClient.Wire.{carried, Reaches, ReadsBack, Carries, as_client-Carries}
use guac_rs.TwoParty.OverHttp.{over_http, make_payment_settles_over_http}
use guac_rs.Tests.Samples.{
  copies-IsMirror, num, num-IsExact, lib, alice_keys, alice-Signs, bob, alice_channel, bob_channel,
  bob_node, both,
}

abbrev network : Network (Node ℕ) ℕ
network = record {
  parse = λ url. ok 0;
  connect = λ address n. (ok tt, n);
  post = λ address request n. carried 0 (serve (as_api num lib bob) request n);
}

abbrev signature_of : Json → Option Signature
signature_of (signature s) = some s
signature_of _ = none

abbrev sequence_of : Json → Option (Option Uint256)
sequence_of null = some none
sequence_of (number seq) = some (some seq)
sequence_of _ = none

abbrev serde : Serde
serde = record { signature_of = signature_of; sequence_of = sequence_of }

sequence_back : (r : Option Uint256) → sequence_of (sequence_json r) ≡ some r
sequence_back none = refl
sequence_back (some seq) = refl

serde-ReadsBack : ReadsBack serde
serde-ReadsBack = record { signature_back = λ s. refl; sequence_back = sequence_back }

network-Reaches : Reaches network (as_api num lib bob) "[::1]:8888"
network-Reaches = record {
  address = 0;
  broken = 0;
  parses = refl;
  connects = λ n. refl;
  posts = λ request n. refl;
}

as_client-Carries_example :
    let api = as_api num lib bob in
    let client = as_client network serde in
    let opening = opening_tx true 5 9 100 70 in
    let refill = re_draw_to alice_channel 40 70 in
    let payment = signed lib alice_keys (paid true alice_channel 3 5) in
    let url : String = "[::1]:8888" in
    Carries
      (api.propose_channel 5 "" opening bob_node)
      (client.propose_channel 5 url opening bob_node)
    × Carries
        (api.propose_re_draw 5 "" refill bob_node)
        (client.propose_re_draw 5 url refill bob_node)
    × Carries
        (api.notify_channel_opened 5 "" bob_node)
        (client.notify_channel_opened 5 url bob_node)
    × Carries (api.notify_re_draw 5 "" bob_node) (client.notify_re_draw 5 url bob_node)
    × Carries
        (api.receive_payment 5 "" payment bob_node)
        (client.receive_payment 5 url payment bob_node)
as_client-Carries_example =
    as_client-Carries network serde (as_api num lib bob) "[::1]:8888" network-Reaches
      serde-ReadsBack 5 (opening_tx true 5 9 100 70) (re_draw_to alice_channel 40 70)
      (signed lib alice_keys (paid true alice_channel 3 5)) bob_node

make_payment_settles_over_http_example :
    let a' = paid true alice_channel 3 5 in
    let b' = received bob_channel (update_of a') in
    (make_payment num lib (over_http network serde alice_keys bob) 9 "[::1]:8888" 3 both ≡ (
      ok tt,
      record {
        storage = insert 9 (open_channel a') both.storage;
        world = record bob_node { storage = insert 5 (open_channel b') bob_node.storage };
      },
    ))
    × IsSettled 3 alice_channel bob_channel a' b'
make_payment_settles_over_http_example =
    make_payment_settles_over_http num num-IsExact lib network serde serde-ReadsBack alice_keys bob
      "[::1]:8888" network-Reaches alice-Signs refl alice_channel bob_channel 3 both
      (unfold lookup in refl) (unfold lookup in refl) copies-IsMirror (omega arith) (omega arith)
      (omega arith) (omega arith)
