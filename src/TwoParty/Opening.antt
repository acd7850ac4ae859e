-- ===== src/TwoParty/Opening.antt =====
-- `Guac::fill_channel` by Alice towards an unknown Bob, run against Bob's handlers.
use guac_rs.Prelude.{ℕ, ◌+◌, ◌^◌, ◌<◌, ◌≡◌, ◌≢◌, Bool, refl, none, some, ltb, String, arith}
use guac_rs.External.{Num, Clarity, IsExact, Bytes}
use guac_rs.Types.{new, creating, other_creating, open_channel}
use guac_rs.Outcome.{ok}
use guac_rs.Crypto.{Crypto, eth_sign, new_channel_fingerprint}
use guac_rs.Storage.{lookup, insert, lookup-insert}
use guac_rs.Node.{Guac, Node}
use guac_rs.Channel.Payment.{my_balance}
use guac_rs.Channel.Exchange.{IsMirror}
use guac_rs.ChannelManager.{fill_channel}
use guac_rs.ChannelManager.Opening.{opening_tx, opened, countersigned, fill_channel_opens}
use guac_rs.CounterpartyApi.Answers.{propose_channel_signs, notify_channel_opened_opens}
use guac_rs.TwoParty.{connected, Signs}

module _ (num : Num) (exact : IsExact num) (lib : Clarity) {W : Type 0} (crypto : Crypto)
    (bob : Guac W) (bob_signs : Signs lib bob.crypto)
    (one_contract : bob.crypto.contract_address ≡ crypto.contract_address)
    (two_nodes : crypto.own_address ≢ bob.crypto.own_address) where
  module _ (url : String) (amount block : ℕ) (id : Bytes) (n : Node (Node W)) (w0 w1 w2 : W)
      (unknown_a : lookup bob.crypto.own_address n.storage ≡ none)
      (unknown_b : lookup crypto.own_address n.world.storage ≡ none) (soon : block + 40 < 2 ^ 256)
      (blocks : bob.blockchain_client.get_current_block n.world.world ≡ (ok block, w0)) where
    abbrev alice : Guac (Node W)
    alice = connected num lib crypto bob

    abbrev end_a : Bool
    end_a = ltb crypto.own_address bob.crypto.own_address

    abbrev end_b : Bool
    end_b = ltb bob.crypto.own_address crypto.own_address

    opened_both :
        let tx = opening_tx end_a crypto.own_address bob.crypto.own_address amount block in
        let sig =
          eth_sign lib bob.crypto (new_channel_fingerprint lib tx bob.crypto.contract_address) in
        bob.blockchain_client.deposit_then_new_channel amount
            (countersigned lib crypto end_a tx sig)
            w0
          ≡ (ok id, w1)
        → bob.blockchain_client.check_for_open tx.address_0 tx.address_1 w1 ≡ (ok (some id), w2)
        → fill_channel num lib alice bob.crypto.own_address url amount n ≡ (
          ok tt,
          record {
            storage = insert bob.crypto.own_address (open_channel (opened end_a id tx)) (
                insert bob.crypto.own_address
                  (creating tx end_a)
                  (insert bob.crypto.own_address (new end_a) n.storage));
            world = record {
              storage = insert crypto.own_address (open_channel (opened end_b id tx)) (
                  insert crypto.own_address
                    (other_creating tx end_b)
                    (insert crypto.own_address (new end_b) n.world.storage));
              world = w2;
            };
          },
        )
    unfolding eth_sign
    opened_both drawn shown =
        let tx = opening_tx end_a crypto.own_address bob.crypto.own_address amount block in
        let asked = record n.world { world = w0 } in
        let created = insert crypto.own_address (new end_b) n.world.storage in
        let signed = record asked {
          storage = insert crypto.own_address (other_creating tx end_b) created;
        } in
        let deposited = record signed { world = w1 } in
        fill_channel_opens num exact lib alice bob.crypto.own_address url amount block n asked
          signed deposited _ _ id unknown_a soon (rw blocks)
          (propose_channel_signs num lib bob crypto.own_address url tx asked unknown_b
            (ground arith))
          (rw (← one_contract) (bob_signs.recovers _)) (rw drawn)
          (notify_channel_opened_opens num lib bob crypto.own_address url tx end_b id w2 deposited
            (ground (
              arith,
              lookup-insert crypto.own_address crypto.own_address (other_creating tx end_b) created,
            ))
            (ground arith))

    -- Given exact arithmetic, a Bob whose signatures are recovered to his address, one contract and
    -- two different addresses: if neither node knows the other, the chain answers `block` as its
    -- current block with block + 40 below 2 ^ 256, accepts the deposit with the transaction that
    -- both have signed, and then shows Bob the channel with its id, then `fill_channel` by Alice,
    -- run against Bob's handlers, succeeds, and both nodes hold that channel open in copies that
    -- agree, with `amount` for Alice and 0 for Bob.
    pub fill_channel_opens_both :
        let tx = opening_tx end_a crypto.own_address bob.crypto.own_address amount block in
        let sig =
          eth_sign lib bob.crypto (new_channel_fingerprint lib tx bob.crypto.contract_address) in
        bob.blockchain_client.deposit_then_new_channel amount
            (countersigned lib crypto end_a tx sig)
            w0
          ≡ (ok id, w1)
        → bob.blockchain_client.check_for_open tx.address_0 tx.address_1 w1 ≡ (ok (some id), w2)
        → let (r, n') =
            fill_channel num lib
              (connected num lib crypto bob)
              bob.crypto.own_address
              url
              amount
              n in
          let a = opened end_a id tx in
          let b = opened end_b id tx in
          (r ≡ ok tt)
          × (lookup bob.crypto.own_address n'.storage ≡ some (open_channel a))
          × (lookup crypto.own_address n'.world.storage ≡ some (open_channel b))
          × IsMirror a b
          × (my_balance a ≡ amount)
          × (my_balance b ≡ 0)
    fill_channel_opens_both drawn shown =
        let tx = opening_tx end_a crypto.own_address bob.crypto.own_address amount block in
        let a_created = insert bob.crypto.own_address (new end_a) n.storage in
        let b_created = insert crypto.own_address (new end_b) n.world.storage in
        rw (opened_both drawn shown) (
          refl,
          ground (
            arith,
            lookup-insert bob.crypto.own_address bob.crypto.own_address
                (open_channel (opened end_a id tx))
                (insert bob.crypto.own_address (creating tx end_a) a_created),
          ),
          ground (
            arith,
            lookup-insert crypto.own_address crypto.own_address (open_channel (opened end_b id tx))
                (insert crypto.own_address (other_creating tx end_b) b_created),
          ),
          ground arith,
          ground arith,
          ground arith,
        )
