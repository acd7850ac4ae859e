-- ===== src/Tests/Handlers.antt =====
-- Requests to Bob's node.
use guac_rs.Channel
use guac_rs.Crypto.{eth_sign}
use guac_rs.Prelude.{bytes_eq, ℕ, ◌≡◌, refl, true, false, List, [], ◌∷◌, arith}
use guac_rs.Types.{other_creating, open_channel, NewChannelTx, ReDrawTx, UpdateTx}
use guac_rs.Storage.{insert, lookup}
use guac_rs.Node.{Node}
use guac_rs.Channel.Payment.{paid}
use guac_rs.ChannelManager.Opening.{opening_tx}
use guac_rs.ChannelManager.ReDraw.{re_draw_to}
use guac_rs.ChannelManager.Payment.{signed}
use guac_rs.CounterpartyApi.{
  as_api, propose_channel, propose_re_draw, notify_channel_opened, notify_re_draw, receive_payment,
}
use guac_rs.CounterpartyApi.Effect.{
  Keeps, propose_channel-Keeps, propose_re_draw-Keeps, notify_channel_opened-Keeps,
  notify_re_draw-Keeps, receive_payment-Keeps,
}
use guac_rs.ChannelManager.{check_accrual, check_my_balance}
use guac_rs.ChannelManager.Accrual.{Reported, IsSpent, check_accrual-Reported}
use guac_rs.HttpServer.{Request, serve, serve_all}
use guac_rs.HttpServer.Safety.{IsSafe, NoLoss, serve_all-NoLoss, serve-others}
use guac_rs.CounterpartyApi.Receipt.{Receives, receive_payment-Receives}
use guac_rs.Tests.Samples.{
  num, num-IsExact, lib, alice_keys, bob, alice_channel, bob_channel, bob_node,
}

-- Alice's payment of 3, and her wish to put 10 more into the channel.
abbrev payment : UpdateTx
payment = signed lib alice_keys (paid true alice_channel 3 5)

abbrev refill : ReDrawTx
refill = re_draw_to alice_channel 40 70

-- A stranger (address 2) opens a channel, and asks for one in which Bob pays.
abbrev opening : NewChannelTx
opening = opening_tx true 2 9 100 70

abbrev requests : List Request
requests =
    Request.receive_payment 5 payment
    ∷ Request.propose_channel 2 (record opening { balance_1 = 50 })
    ∷ Request.propose_channel 2 opening
    ∷ Request.propose_re_draw 5 (record refill { new_balance_1 = 0 })
    ∷ Request.notify_channel_opened 2
    ∷ Request.receive_payment 5 payment
    ∷ []

abbrev stranger_creating : Node ℕ
stranger_creating = record { storage = (2, other_creating opening false) ∷ []; world = 0 }

served : (serve_all (as_api num lib bob) requests bob_node).storage ≡ (
    (
      5,
      open_channel
          (record bob_channel { balance_0 = 27; balance_1 = 23; sequence_number = 5; accrual = 3 }),
    )
    ∷ (
      2,
      open_channel (record {
        channel_id = 1 ∷ 2 ∷ 3 ∷ [];
        sequence_number = 0;
        balance_0 = 100;
        balance_1 = 0;
        accrual = 0;
        i_am_0 = false;
      }),
    )
    ∷ [])
unfolding serve_all serve propose_channel propose_re_draw notify_channel_opened receive_payment
    lookup insert bytes_eq Channel.receive_payment eth_sign
served = refl

bob_node-IsSafe : IsSafe bob_node.storage
unfolding lookup
bob_node-IsSafe k = ground arith

serve_all-NoLoss_example :
    let n' = serve_all (as_api num lib bob) requests bob_node in
    IsSafe n'.storage × NoLoss bob_node.storage n'.storage
serve_all-NoLoss_example =
    serve_all-NoLoss num num-IsExact lib bob requests bob_node bob_node-IsSafe

propose_channel-Keeps_example :
    Keeps num lib bob 2 bob_node (propose_channel num lib bob 2 "" opening bob_node)
propose_channel-Keeps_example = propose_channel-Keeps num lib bob 2 "" opening bob_node

propose_re_draw-Keeps_example :
    Keeps num lib bob 5 bob_node (propose_re_draw num lib bob 5 "" refill bob_node)
propose_re_draw-Keeps_example = propose_re_draw-Keeps num lib bob 5 "" refill bob_node

notify_channel_opened-Keeps_example :
    Keeps num lib bob 2 stranger_creating (notify_channel_opened num lib bob 2 "" stranger_creating)
notify_channel_opened-Keeps_example = notify_channel_opened-Keeps num lib bob 2 "" stranger_creating

-- Bob's node while Alice re-draws.
abbrev re_drawing_node : Node ℕ
re_drawing_node = (propose_re_draw num lib bob 5 "" refill bob_node).1

notify_re_draw-Keeps_example :
    Keeps num lib bob 5 re_drawing_node (notify_re_draw num lib bob 5 "" re_drawing_node)
notify_re_draw-Keeps_example = notify_re_draw-Keeps num lib bob 5 "" re_drawing_node

receive_payment-Keeps_example :
    Keeps num lib bob 5 bob_node (receive_payment num lib bob 5 "" payment bob_node)
receive_payment-Keeps_example = receive_payment-Keeps num num-IsExact lib bob 5 "" payment bob_node

-- Bob's user after Alice's payment of 3.
abbrev paid_node : Node ℕ
paid_node = record bob_node {
  storage = (5, open_channel (record bob_channel { accrual = 3 })) ∷ [];
}

check_accrual-Reported_example :
    let (r, n') = check_accrual 5 paid_node in
    Reported r (open_channel (record bob_channel { accrual = 3 })) (lookup 5 n'.storage)
    × IsSpent r (check_accrual 5 n').0
    × ((check_my_balance 5 n').0 ≡ (check_my_balance 5 paid_node).0)
    × (n'.world ≡ paid_node.world)
check_accrual-Reported_example =
    check_accrual-Reported 5 (open_channel (record bob_channel { accrual = 3 })) paid_node
      (unfold lookup in refl)

receive_payment-Receives_example :
    Receives num lib bob 5 payment
      (lookup 5 bob_node.storage)
      bob_node
      (receive_payment num lib bob 5 "" payment bob_node)
receive_payment-Receives_example = receive_payment-Receives num lib bob 5 payment "" bob_node

serve-others_example :
    lookup 5 (serve (as_api num lib bob) (Request.propose_channel 2 opening) bob_node).1.storage
    ≡ lookup 5 bob_node.storage
serve-others_example =
    serve-others num lib bob (Request.propose_channel 2 opening) bob_node 5
      (λ same. omega (arith, same))
