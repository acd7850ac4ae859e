-- ===== src/TwoParty/Refill.antt =====
-- `Guac::fill_channel` by Alice on a channel that is open with Bob, run against Bob's handlers.
use guac_rs.Prelude.{ℕ, ◌+◌, ◌^◌, ◌≤◌, ◌<◌, ◌≡◌, ◌∙◌, ap, refl, some, String, arith}
use guac_rs.External.{Num, Clarity, IsExact}
use guac_rs.Types.{Channel, re_drawing, other_re_drawing, open_channel}
use guac_rs.Outcome.{ok}
use guac_rs.Crypto.{Crypto, eth_sign, re_draw_fingerprint}
use guac_rs.Storage.{lookup, insert, lookup-insert}
use guac_rs.Node.{Guac, Node}
use guac_rs.Channel.Payment.{total, my_balance}
use guac_rs.Channel.Exchange.{IsMirror}
use guac_rs.ChannelManager.{fill_channel, make_payment}
use guac_rs.ChannelManager.ReDraw.{re_drawn, re_draw_to, countersigned, fill_channel_refills}
use guac_rs.CounterpartyApi.Answers.{propose_re_draw_signs, notify_re_draw_opens}
use guac_rs.TwoParty.{connected, Signs}
use guac_rs.TwoParty.Payment.{make_payment_doubles}

-- Bob's copy after the re-draw: it takes the number of the transaction.
abbrev pub followed : Channel → Channel → Channel
followed a' b = record b {
  balance_0 = a'.balance_0;
  balance_1 = a'.balance_1;
  sequence_number = a'.sequence_number + 1;
}

module _ (num : Num) (exact : IsExact num) (lib : Clarity) {W : Type 0} (crypto : Crypto)
    (bob : Guac W) (bob_signs : Signs lib bob.crypto)
    (one_contract : bob.crypto.contract_address ≡ crypto.contract_address) where
  module _ (a b : Channel) (url : String) (amount block : ℕ) (n : Node (Node W)) (w0 w1 w2 : W)
      (found_a : lookup bob.crypto.own_address n.storage ≡ some (open_channel a))
      (found_b : lookup crypto.own_address n.world.storage ≡ some (open_channel b))
      (copy : IsMirror a (record b { sequence_number = a.sequence_number }))
      (behind : b.sequence_number ≤ a.sequence_number) (room : a.sequence_number + 1 < 2 ^ 256)
      (soon : block + 40 < 2 ^ 256) (fits : my_balance a + amount < 2 ^ 256)
      (blocks : bob.blockchain_client.get_current_block n.world.world ≡ (ok block, w0)) where
    abbrev filler : Guac (Node W)
    filler = connected num lib crypto bob

    abbrev filled : Channel
    filled = re_drawn a (my_balance a + amount)

    refilled :
        let tx = re_draw_to a (my_balance a + amount) block in
        let sig =
          eth_sign lib bob.crypto (re_draw_fingerprint lib tx bob.crypto.contract_address) in
        bob.blockchain_client.deposit_then_re_draw amount (countersigned lib crypto a tx sig) w0
          ≡ (ok tt, w1)
        → bob.blockchain_client.check_for_re_draw b.channel_id w1 ≡ (ok tt, w2)
        → fill_channel num lib filler bob.crypto.own_address url amount n ≡ (
          ok tt,
          record {
            storage =
                insert bob.crypto.own_address
                  (open_channel filled)
                  (insert bob.crypto.own_address (re_drawing tx a) n.storage);
            world = record {
              storage =
                  insert crypto.own_address
                    (open_channel (followed filled b))
                    (insert crypto.own_address (other_re_drawing tx b) n.world.storage);
              world = w2;
            };
          },
        )
    unfolding eth_sign
    refilled drawn shown =
        let tx = re_draw_to a (my_balance a + amount) block in
        let asked = record n.world { world = w0 } in
        let signed = record asked {
          storage = insert crypto.own_address (other_re_drawing tx b) n.world.storage;
        } in
        let deposited = record signed { world = w1 } in
        fill_channel_refills num exact lib filler bob.crypto.own_address url amount block a n asked
          signed deposited _ _ found_a room soon (rw blocks) fits
          (propose_re_draw_signs num lib bob crypto.own_address url tx b asked found_b
            (ground arith))
          (rw (← one_contract) (bob_signs.recovers _)) (rw drawn)
          (notify_re_draw_opens num lib bob crypto.own_address url tx b w2 deposited
            (ground (
              arith,
              lookup-insert crypto.own_address crypto.own_address (other_re_drawing tx b)
                  n.world.storage,
            ))
            shown)

    -- Two copies that agree in all but their numbers, Bob's being at most Alice's.
    pub fill_channel_refills_copies :
        let tx = re_draw_to a (my_balance a + amount) block in
        let sig =
          eth_sign lib bob.crypto (re_draw_fingerprint lib tx bob.crypto.contract_address) in
        bob.blockchain_client.deposit_then_re_draw amount (countersigned lib crypto a tx sig) w0
          ≡ (ok tt, w1)
        → bob.blockchain_client.check_for_re_draw b.channel_id w1 ≡ (ok tt, w2)
        → let (r, n') =
            fill_channel num lib
              (connected num lib crypto bob)
              bob.crypto.own_address
              url
              amount
              n in
          let b' = followed filled b in
          (r ≡ ok tt)
          × (lookup bob.crypto.own_address n'.storage ≡ some (open_channel filled))
          × (lookup crypto.own_address n'.world.storage ≡ some (open_channel b'))
          × (my_balance filled ≡ my_balance a + amount)
          × (my_balance b' ≡ my_balance b)
          × IsMirror filled (record b' { sequence_number = filled.sequence_number })
          × (b'.sequence_number ≡ filled.sequence_number + 1)
    fill_channel_refills_copies drawn shown =
        let tx = re_draw_to a (my_balance a + amount) block in
        rw (refilled drawn shown) (
          refl,
          ground (
            arith,
            lookup-insert bob.crypto.own_address bob.crypto.own_address (open_channel filled)
                (insert bob.crypto.own_address (re_drawing tx a) n.storage),
          ),
          ground (
            arith,
            lookup-insert crypto.own_address crypto.own_address (open_channel (followed filled b))
                (insert crypto.own_address (other_re_drawing tx b) n.world.storage),
          ),
          ground arith,
          ground arith,
          ground arith,
          refl,
        )

  module _ (a b : Channel) (url : String) (amount block : ℕ) (n : Node (Node W)) (w0 w1 w2 : W)
      (found_a : lookup bob.crypto.own_address n.storage ≡ some (open_channel a))
      (found_b : lookup crypto.own_address n.world.storage ≡ some (open_channel b))
      (mirror : IsMirror a b) (room : a.sequence_number + 1 < 2 ^ 256) (soon : block + 40 < 2 ^ 256)
      (fits : my_balance a + amount < 2 ^ 256)
      (blocks : bob.blockchain_client.get_current_block n.world.world ≡ (ok block, w0)) where
    abbrev alice : Guac (Node W)
    alice = connected num lib crypto bob

    abbrev a' : Channel
    a' = re_drawn a (my_balance a + amount)

    -- Given exact arithmetic, a Bob whose signatures are recovered to his address, and one
    -- contract: if both nodes hold open copies of one channel that agree, Alice's next number,
    -- block + 40 and Alice's new balance stay below 2 ^ 256, and the chain answers `block` as its
    -- current block, accepts the deposit with the re-draw that both have signed, and then confirms
    -- the re-draw to Bob, then `fill_channel` by Alice, run against Bob's handlers, succeeds and
    -- leaves both copies open with `amount` more for Alice and the same for Bob. They agree in
    -- everything but the number: Bob's is one ahead of Alice's.
    pub fill_channel_refills_both :
        let tx = re_draw_to a (my_balance a + amount) block in
        let sig =
          eth_sign lib bob.crypto (re_draw_fingerprint lib tx bob.crypto.contract_address) in
        bob.blockchain_client.deposit_then_re_draw amount (countersigned lib crypto a tx sig) w0
          ≡ (ok tt, w1)
        → bob.blockchain_client.check_for_re_draw b.channel_id w1 ≡ (ok tt, w2)
        → let (r, n') =
            fill_channel num lib
              (connected num lib crypto bob)
              bob.crypto.own_address
              url
              amount
              n in
          let b' = followed a' b in
          (r ≡ ok tt)
          × (lookup bob.crypto.own_address n'.storage ≡ some (open_channel a'))
          × (lookup crypto.own_address n'.world.storage ≡ some (open_channel b'))
          × (my_balance a' ≡ my_balance a + amount)
          × (my_balance b' ≡ my_balance b)
          × IsMirror a' (record b' { sequence_number = a'.sequence_number })
          × (b'.sequence_number ≡ a'.sequence_number + 1)
    fill_channel_refills_both drawn shown =
        fill_channel_refills_copies a b url amount block n w0 w1 w2 found_a found_b (ground arith)
          (ground arith) room soon fits blocks drawn shown

    -- Given exact arithmetic, an Alice and a Bob whose signatures are recovered to their addresses,
    -- and one contract: let both nodes hold open copies of one channel that agree; let Alice's
    -- number plus two, block + 40, the total with `amount` added, and Bob's accrual with that added
    -- stay below 2 ^ 256, and twice `payment` be within Alice's balance with `amount` added; and
    -- let the chain answer `block` as its current block, accept the deposit with the re-draw that
    -- both have signed, and then confirm the re-draw to Bob. After Alice's `fill_channel` with
    -- `amount`, her first `make_payment`, both run against Bob's handlers, reports success, but her
    -- stored copy is the one that the refill left, and Bob's copy has gained twice `payment`.
    pub make_payment_after_refill :
        (payment : ℕ)
        → let tx = re_draw_to a (my_balance a + amount) block in
          let sig =
            eth_sign lib bob.crypto (re_draw_fingerprint lib tx bob.crypto.contract_address) in
          Signs lib crypto
          → bob.blockchain_client.deposit_then_re_draw amount (countersigned lib crypto a tx sig) w0
            ≡ (ok tt, w1)
          → bob.blockchain_client.check_for_re_draw b.channel_id w1 ≡ (ok tt, w2)
          → payment + payment ≤ my_balance a + amount
          → total a + amount < 2 ^ 256
          → b.accrual + (total a + amount) < 2 ^ 256
          → a.sequence_number + 2 < 2 ^ 256
          → let alice = connected num lib crypto bob in
            let n1 = (fill_channel num lib alice bob.crypto.own_address url amount n).1 in
            let (r, n2) = make_payment num lib alice bob.crypto.own_address url payment n1 in
            (r ≡ ok tt)
            × (lookup bob.crypto.own_address n2.storage ≡ some (open_channel a'))
            × ((b2 : Channel) × (lookup crypto.own_address n2.world.storage
                  ≡ some (open_channel b2))
                × (my_balance b2 ≡ my_balance b + (payment + payment)))
    make_payment_after_refill payment signs drawn shown enough small accruable next =
        let (_, at_a, at_b, mine, theirs, mirror', ahead) = fill_channel_refills_both drawn shown in
        let n1 = (fill_channel num lib alice bob.crypto.own_address url amount n).1 in
        let b' = followed a' b in
        let (done, kept, (b2, at, gained, _)) =
          make_payment_doubles num exact lib crypto bob signs one_contract a' b' url payment n1 at_a
            at_b (ground arith) room (ground arith) mirror' ahead (ground arith) (ground arith) in
        (done, rw kept at_a, (b2, at, gained ∙ ap (λ (x : ℕ). x + (payment + payment)) theirs))
