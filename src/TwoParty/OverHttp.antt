-- ===== src/TwoParty/OverHttp.antt =====
-- A payment over HTTP: Alice's client (guac_http/src/counterparty_client.rs) calls the server of
-- Bob's node (guac_http/src/counterparty_server.rs).
use guac_rs.Prelude.{ℕ, ◌+◌, ◌^◌, ◌≤◌, ◌<◌, ◌≡◌, none, some, String, arith}
use guac_rs.External.{Num, Clarity, IsExact}
use guac_rs.Types.{Channel, open_channel}
use guac_rs.Outcome.{Outcome, ok}
use guac_rs.Crypto.{Crypto}
use guac_rs.Storage.{lookup, insert}
use guac_rs.Node.{Guac, Node}
use guac_rs.Channel.Payment.{total, my_balance, paid, received, update_of, receive_payment_takes}
use guac_rs.Channel.Exchange.{IsMirror, IsSettled, paid-received-IsSettled}
use guac_rs.ChannelManager.{make_payment}
use guac_rs.ChannelManager.Payment.{signed, make_payment_accepted}
use guac_rs.CounterpartyApi.{as_api}
use guac_rs.HttpClient.{Network, Serde, as_client}
use guac_rs.HttpClient.Wire.{Reaches, ReadsBack, Carries, receive_payment-Carries}
use guac_rs.TwoParty.{through, Signs}
use guac_rs.TwoParty.Payment.{delivered}

abbrev pub over_http :
    {W SocketAddr : Type 0} → Network (Node W) SocketAddr → Serde → Crypto → Guac W → Guac (Node W)
over_http network serde crypto bob = record {
  blockchain_client = through bob.blockchain_client;
  counterparty_client = as_client network serde;
  crypto = crypto;
}

Carries-ok :
    {A W : Type 0} {p q : Outcome A × W} {a : A} {w : W}
    → p ≡ (ok a, w)
    → Carries p q
    → q ≡ (ok a, w)
Carries-ok e h = rw e at h

module _ (num : Num) (exact : IsExact num) (lib : Clarity) {W SocketAddr : Type 0}
    (network : Network (Node W) SocketAddr) (serde : Serde) (back : ReadsBack serde)
    (crypto : Crypto) (bob : Guac W) (url : String)
    (reaches : Reaches network (as_api num lib bob) url) (signs : Signs lib crypto)
    (one_contract : bob.crypto.contract_address ≡ crypto.contract_address) where
  -- Given exact arithmetic, a serde that reads back what it wrote, a url that leads to the server
  -- of Bob's node, an Alice whose signatures are recovered to her address, and one contract: if
  -- Alice's and Bob's nodes hold open copies of one channel that agree, Alice's with at least
  -- `amount` for her, and the total, her next number and Bob's accrual with the total added stay
  -- below 2 ^ 256, then `make_payment`, by the client over HTTP to that server, succeeds and stores
  -- in both nodes copies that agree again, with `amount` moved from Alice to Bob, added to Bob's
  -- accrual and not to Alice's, and the number one higher.
  pub make_payment_settles_over_http :
      (a b : Channel) (amount : ℕ) (n : Node (Node W))
      → lookup bob.crypto.own_address n.storage ≡ some (open_channel a)
      → lookup crypto.own_address n.world.storage ≡ some (open_channel b)
      → IsMirror a b
      → amount ≤ my_balance a
      → total a < 2 ^ 256
      → a.sequence_number + 1 < 2 ^ 256
      → b.accrual + total b < 2 ^ 256
      → let a' = paid a.i_am_0 a amount (a.sequence_number + 1) in
        let b' = received b (update_of a') in
        (make_payment num lib
            (over_http network serde crypto bob)
            bob.crypto.own_address
            url
            amount
            n
          ≡ (
            ok tt,
            record {
              storage = insert bob.crypto.own_address (open_channel a') n.storage;
              world = record n.world {
                storage = insert crypto.own_address (open_channel b') n.world.storage;
              };
            },
          ))
        × IsSettled amount a b a' b'
  make_payment_settles_over_http a b amount n found_a found_b mirror enough fits room accruable =
      let a' = paid a.i_am_0 a amount (a.sequence_number + 1) in
      let b' = received b (update_of a') in
      let taken =
        receive_payment_takes num exact b (signed lib crypto a') (ground arith) (ground arith)
          (ground arith) (ground arith) accruable in
      (
        make_payment_accepted num exact lib (over_http network serde crypto bob)
            bob.crypto.own_address url amount a n found_a enough fits room
            (record n.world {
              storage = insert crypto.own_address (open_channel b') n.world.storage;
            })
            (Carries-ok
              (delivered num exact lib crypto bob signs one_contract a' b b' none "" n.world found_b
                (ground arith) taken)
              (receive_payment-Carries network serde (as_api num lib bob) url reaches back
                crypto.own_address (signed lib crypto a') n.world)),
        paid-received-IsSettled mirror enough,
      )
