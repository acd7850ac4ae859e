-- ===== src/TwoParty/Withdrawal.antt =====
-- `Guac::withdraw` by Alice from a channel that is open with Bob, run against Bob's handlers.
use guac_rs.Prelude.{ℕ, ◌+◌, ◌-◌, ◌^◌, ◌≤◌, ◌<◌, ◌≡◌, refl, some, String, arith}
use guac_rs.External.{Num, Clarity, IsExact}
use guac_rs.Types.{Channel, re_drawing, other_re_drawing, open_channel}
use guac_rs.Outcome.{ok}
use guac_rs.Crypto.{Crypto, eth_sign, re_draw_fingerprint}
use guac_rs.Storage.{lookup, insert, lookup-insert}
use guac_rs.Node.{Guac, Node}
use guac_rs.Channel.Payment.{my_balance}
use guac_rs.Channel.Exchange.{IsMirror}
use guac_rs.ChannelManager.{withdraw}
use guac_rs.ChannelManager.ReDraw.{re_drawn, re_draw_to, countersigned, withdraw_withdraws}
use guac_rs.CounterpartyApi.Answers.{propose_re_draw_signs, notify_re_draw_opens}
use guac_rs.TwoParty.{connected, Signs}
use guac_rs.TwoParty.Refill.{followed}

module _ (num : Num) (exact : IsExact num) (lib : Clarity) {W : Type 0} (crypto : Crypto)
    (bob : Guac W) (bob_signs : Signs lib bob.crypto)
    (one_contract : bob.crypto.contract_address ≡ crypto.contract_address) where
  module _ (a b : Channel) (url : String) (amount block : ℕ) (n : Node (Node W)) (w0 w1 w2 : W)
      (found_a : lookup bob.crypto.own_address n.storage ≡ some (open_channel a))
      (found_b : lookup crypto.own_address n.world.storage ≡ some (open_channel b))
      (copy : IsMirror a (record b { sequence_number = a.sequence_number }))
      (behind : b.sequence_number ≤ a.sequence_number) (room : a.sequence_number + 1 < 2 ^ 256)
      (soon : block + 40 < 2 ^ 256) (enough : amount ≤ my_balance a)
      (blocks : bob.blockchain_client.get_current_block n.world.world ≡ (ok block, w0)) where
    abbrev taker : Guac (Node W)
    taker = connected num lib crypto bob

    abbrev withdrawn : Channel
    withdrawn = re_drawn a (my_balance a - amount)

    taken :
        let tx = re_draw_to a (my_balance a - amount) block in
        let sig =
          eth_sign lib bob.crypto (re_draw_fingerprint lib tx bob.crypto.contract_address) in
        bob.blockchain_client.re_draw_then_withdraw amount (countersigned lib crypto a tx sig) w0
          ≡ (ok tt, w1)
        → bob.blockchain_client.check_for_re_draw b.channel_id w1 ≡ (ok tt, w2)
        → withdraw num lib taker bob.crypto.own_address url amount n ≡ (
          ok tt,
          record {
            storage =
                insert bob.crypto.own_address
                  (open_channel withdrawn)
                  (insert bob.crypto.own_address (re_drawing tx a) n.storage);
            world = record {
              storage =
                  insert crypto.own_address
                    (open_channel (followed withdrawn b))
                    (insert crypto.own_address (other_re_drawing tx b) n.world.storage);
              world = w2;
            };
          },
        )
    unfolding eth_sign
    taken drawn shown =
        let tx = re_draw_to a (my_balance a - amount) block in
        let asked = record n.world { world = w0 } in
        let signed = record asked {
          storage = insert crypto.own_address (other_re_drawing tx b) n.world.storage;
        } in
        let sent = record signed { world = w1 } in
        withdraw_withdraws num exact lib taker bob.crypto.own_address url amount block a n asked
          signed sent _ _ found_a room soon (rw blocks) enough
          (propose_re_draw_signs num lib bob crypto.own_address url tx b asked found_b
            (ground arith))
          (rw (← one_contract) (bob_signs.recovers _)) (rw drawn)
          (notify_re_draw_opens num lib bob crypto.own_address url tx b w2 sent
            (ground (
              arith,
              lookup-insert crypto.own_address crypto.own_address (other_re_drawing tx b)
                  n.world.storage,
            ))
            shown)

    -- Two copies that agree in all but their numbers, Bob's being at most Alice's.
    pub withdraw_copies :
        let tx = re_draw_to a (my_balance a - amount) block in
        let sig =
          eth_sign lib bob.crypto (re_draw_fingerprint lib tx bob.crypto.contract_address) in
        bob.blockchain_client.re_draw_then_withdraw amount (countersigned lib crypto a tx sig) w0
          ≡ (ok tt, w1)
        → bob.blockchain_client.check_for_re_draw b.channel_id w1 ≡ (ok tt, w2)
        → let (r, n') =
            withdraw num lib (connected num lib crypto bob) bob.crypto.own_address url amount n in
          let b' = followed withdrawn b in
          (r ≡ ok tt)
          × (lookup bob.crypto.own_address n'.storage ≡ some (open_channel withdrawn))
          × (lookup crypto.own_address n'.world.storage ≡ some (open_channel b'))
          × (my_balance withdrawn ≡ my_balance a - amount)
          × (my_balance b' ≡ my_balance b)
          × IsMirror withdrawn (record b' { sequence_number = withdrawn.sequence_number })
          × (b'.sequence_number ≡ withdrawn.sequence_number + 1)
    withdraw_copies drawn shown =
        let tx = re_draw_to a (my_balance a - amount) block in
        rw (taken drawn shown) (
          refl,
          ground (
            arith,
            lookup-insert bob.crypto.own_address bob.crypto.own_address (open_channel withdrawn)
                (insert bob.crypto.own_address (re_drawing tx a) n.storage),
          ),
          ground (
            arith,
            lookup-insert crypto.own_address crypto.own_address
                (open_channel (followed withdrawn b))
                (insert crypto.own_address (other_re_drawing tx b) n.world.storage),
          ),
          ground arith,
          ground arith,
          ground arith,
          refl,
        )
