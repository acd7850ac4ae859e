-- ===== src/TwoParty/Payment.antt =====
-- `Guac::make_payment` from Alice to Bob, run against Bob's handler.
use guac_rs.Prelude.{
  ℕ, ◌+◌, ◌-◌, ◌^◌, ◌≤◌, ◌<◌, ◌≡◌, true, false, none, some, String, arith, refl, if◌then◌else◌,
}
use guac_rs.External.{Num, Clarity, IsExact}
use guac_rs.Types.{Channel, open_channel}
use guac_rs.Outcome.{ok}
use guac_rs.Crypto.{Crypto, eth_sign, update_fingerprint}
use guac_rs.Storage.{lookup, insert, lookup-insert}
use guac_rs.Node.{Guac, Node}
use guac_rs.Channel
use guac_rs.Channel.Payment.{
  total, my_balance, paid, received, update_of, receive_payment_takes, receive_payment_old,
}
use guac_rs.Channel.Exchange.{IsMirror, IsSettled, paid-received-IsSettled}
use guac_rs.ChannelManager.{make_payment}
use guac_rs.ChannelManager.Payment.{signed, make_payment_accepted, make_payment_retried}
use guac_rs.CounterpartyApi
use guac_rs.CounterpartyApi.Answers.{receive_payment_accepts}
use guac_rs.TwoParty.{connected, Signs}

module _ (num : Num) (exact : IsExact num) (lib : Clarity) {W : Type 0} (crypto : Crypto)
    (bob : Guac W) (signs : Signs lib crypto)
    (one_contract : bob.crypto.contract_address ≡ crypto.contract_address) where
  -- Bob's handler takes what Alice sends for her channel `c`, if his channel takes it.
  pub delivered :
      (c b d : Channel) (r : _) (url : String) (n : Node W)
      → lookup crypto.own_address n.storage ≡ some (open_channel b)
      → (if b.i_am_0 then false else true) ≡ c.i_am_0
      → Channel.receive_payment num (signed lib crypto c) b ≡ (ok r, d)
      → CounterpartyApi.receive_payment num lib bob crypto.own_address url (signed lib crypto c) n
        ≡ (ok r, record n { storage = insert crypto.own_address (open_channel d) n.storage })
  unfolding update_fingerprint eth_sign
  delivered c b d r url n found ends taken =
      receive_payment_accepts num lib bob crypto.own_address url (signed lib crypto c)
        (eth_sign lib crypto (update_fingerprint lib (update_of c) crypto.contract_address)) b d r n
        found (ground arith) (rw one_contract (signs.recovers _)) taken

  module _ (a b : Channel) (url : String) (amount : ℕ) (n : Node (Node W))
      (found_a : lookup bob.crypto.own_address n.storage ≡ some (open_channel a))
      (found_b : lookup crypto.own_address n.world.storage ≡ some (open_channel b))
      (fits : total a < 2 ^ 256) (room : a.sequence_number + 1 < 2 ^ 256)
      (accruable : b.accrual + total b < 2 ^ 256) where
    -- Given exact arithmetic, an Alice whose signatures are recovered to her address, and one
    -- contract: if Alice's and Bob's nodes hold open copies of one channel that agree, Alice's with
    -- at least `amount` for her, and the total, her next number and Bob's accrual with the total
    -- added stay below 2 ^ 256, then `make_payment`, run against Bob's handler, succeeds and stores
    -- in both nodes copies that agree again, with `amount` moved from Alice to Bob, added to Bob's
    -- accrual and not to Alice's, and the number one higher.
    pub make_payment_settles :
        IsMirror a b
        → amount ≤ my_balance a
        → let a' = paid a.i_am_0 a amount (a.sequence_number + 1) in
          let b' = received b (update_of a') in
          (make_payment num lib (connected num lib crypto bob) bob.crypto.own_address url amount n
            ≡ (
              ok tt,
              record {
                storage = insert bob.crypto.own_address (open_channel a') n.storage;
                world = record n.world {
                  storage = insert crypto.own_address (open_channel b') n.world.storage;
                };
              },
            ))
          × IsSettled amount a b a' b'
    make_payment_settles mirror enough =
        let a' = paid a.i_am_0 a amount (a.sequence_number + 1) in
        let b' = received b (update_of a') in
        let taken =
          receive_payment_takes num exact b (signed lib crypto a') (ground arith) (ground arith)
            (ground arith) (ground arith) accruable in
        (
          make_payment_accepted num exact lib (connected num lib crypto bob) bob.crypto.own_address
              url amount a n found_a enough fits room
              (record n.world {
                storage = insert crypto.own_address (open_channel b') n.world.storage;
              })
              (delivered a' b b' none url n.world found_b (ground arith) taken),
          paid-received-IsSettled mirror enough,
        )

    -- Two copies that agree in all but their numbers, Bob's being at most Alice's.
    pub make_payment_catches_up :
        IsMirror a (record b { sequence_number = a.sequence_number })
        → b.sequence_number ≤ a.sequence_number
        → amount ≤ my_balance a
        → let a' = paid a.i_am_0 a amount (a.sequence_number + 1) in
          let b' = received b (update_of a') in
          (make_payment num lib (connected num lib crypto bob) bob.crypto.own_address url amount n
            ≡ (
              ok tt,
              record {
                storage = insert bob.crypto.own_address (open_channel a') n.storage;
                world = record n.world {
                  storage = insert crypto.own_address (open_channel b') n.world.storage;
                };
              },
            ))
          × IsMirror a' b'
          × (my_balance a' ≡ my_balance a - amount)
          × (my_balance b' ≡ my_balance b + amount)
    make_payment_catches_up mirror behind enough =
        let a' = paid a.i_am_0 a amount (a.sequence_number + 1) in
        let b' = received b (update_of a') in
        let taken =
          receive_payment_takes num exact b (signed lib crypto a') (ground arith) (ground arith)
            (ground arith) (ground arith) accruable in
        (
          make_payment_accepted num exact lib (connected num lib crypto bob) bob.crypto.own_address
              url amount a n found_a enough fits room
              (record n.world {
                storage = insert crypto.own_address (open_channel b') n.world.storage;
              })
              (delivered a' b b' none url n.world found_b (ground arith) taken),
          ground arith,
          ground arith,
          ground arith,
        )

    -- Bob's copy counts one further than Alice's: he answers with his number, and she pays again.
    retried :
        let once = paid a.i_am_0 a amount (a.sequence_number + 1) in
        let twice = paid a.i_am_0 once amount (b.sequence_number + 1) in
        let b' = received b (update_of twice) in
        IsMirror a (record b { sequence_number = a.sequence_number })
        → b.sequence_number ≡ a.sequence_number + 1
        → amount + amount ≤ my_balance a
        → b.sequence_number + 1 < 2 ^ 256
        → make_payment num lib (connected num lib crypto bob) bob.crypto.own_address url amount n
          ≡ (
            ok tt,
            record n {
              world = record n.world {
                storage =
                    insert crypto.own_address
                      (open_channel b')
                      (insert crypto.own_address (open_channel b) n.world.storage);
              };
            },
          )
    retried mirror ahead enough next =
        let once = paid a.i_am_0 a amount (a.sequence_number + 1) in
        let twice = paid a.i_am_0 once amount (b.sequence_number + 1) in
        let b' = received b (update_of twice) in
        let w = record n.world {
          storage = insert crypto.own_address (open_channel b) n.world.storage;
        } in
        let old = receive_payment_old num b (signed lib crypto once) (ground arith) in
        let taken =
          receive_payment_takes num exact b (signed lib crypto twice) (ground arith) (ground arith)
            (ground arith) (ground arith) accruable in
        make_payment_retried num exact lib (connected num lib crypto bob) bob.crypto.own_address url
          amount a n found_a (ground arith) fits room b.sequence_number enough next w
          (record w { storage = insert crypto.own_address (open_channel b') w.storage })
          (delivered once b b (some b.sequence_number) url n.world found_b (ground arith) old)
          (delivered twice b b' none url w
            (ground (
              arith,
              lookup-insert crypto.own_address crypto.own_address (open_channel b) n.world.storage,
            ))
            (ground arith) taken)

    -- Given exact arithmetic, an Alice whose signatures are recovered to her address, and one
    -- contract: if both nodes hold open copies of one channel that agree but for Bob's number,
    -- which is one ahead, twice `amount` is within Alice's balance, and the total, the numbers plus
    -- one and Bob's accrual with the total added stay below 2 ^ 256, then `make_payment`, run
    -- against Bob's handler, reports success, leaves Alice's storage as it was, and raises Bob's
    -- balance and his accrual by twice `amount`.
    pub make_payment_doubles :
        IsMirror a (record b { sequence_number = a.sequence_number })
        → b.sequence_number ≡ a.sequence_number + 1
        → amount + amount ≤ my_balance a
        → b.sequence_number + 1 < 2 ^ 256
        → let (r, n') =
            make_payment num lib
              (connected num lib crypto bob)
              bob.crypto.own_address
              url
              amount
              n in
          (r ≡ ok tt)
          × (n'.storage ≡ n.storage)
          × ((b' : Channel) × (lookup crypto.own_address n'.world.storage ≡ some (open_channel b'))
              × (my_balance b' ≡ my_balance b + (amount + amount))
              × (b'.accrual ≡ b.accrual + (amount + amount)))
    make_payment_doubles mirror ahead enough next =
        let once = paid a.i_am_0 a amount (a.sequence_number + 1) in
        let b' = received b (update_of (paid a.i_am_0 once amount (b.sequence_number + 1))) in
        rw (retried mirror ahead enough next) (
          refl,
          refl,
          (
            b',
            ground (
              arith,
              lookup-insert crypto.own_address crypto.own_address (open_channel b')
                  (insert crypto.own_address (open_channel b) n.world.storage),
            ),
            ground arith,
            ground arith,
          ),
        )
