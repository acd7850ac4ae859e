-- ===== src/ChannelManager/Payment.antt =====
-- What `Guac::make_payment` (guac_core/src/channel_manager.rs) sends and stores, by what the
-- counterparty answers.
use guac_rs.Prelude.{ℕ, ◌+◌, ◌^◌, ◌≤◌, ◌<◌, ◌≡◌, none, some, String, arith}
use guac_rs.External.{Address, Num, Clarity, IsExact}
use guac_rs.Types.{Channel, UpdateTx, open_channel, Error}
use guac_rs.Outcome.{ok, err}
use guac_rs.Crypto.{Crypto, eth_sign, update_fingerprint}
use guac_rs.Storage.{lookup, insert}
use guac_rs.Node.{Guac, Node}
use guac_rs.Channel.Payment.{total, my_balance, paid, update_of, make_payment_pays}
use guac_rs.ChannelManager.Sign.{sign_update}
use guac_rs.ChannelManager.{make_payment}

-- The update that goes out for a channel as it is after a payment.
abbrev pub signed : Clarity → Crypto → Channel → UpdateTx
signed lib crypto c =
    sign_update c.i_am_0
      (eth_sign lib crypto (update_fingerprint lib (update_of c) crypto.contract_address))
      (update_of c)

module _ (num : Num) (exact : IsExact num) (lib : Clarity) {W : Type 0} (self : Guac W) where
  open self use {counterparty_client, crypto}

  module _ (their : Address) (url : String) (amount : ℕ) (c : Channel) (n : Node W)
      (found : lookup their n.storage ≡ some (open_channel c)) (enough : amount ≤ my_balance c)
      (fits : total c < 2 ^ 256) (room : c.sequence_number + 1 < 2 ^ 256) where
    abbrev once : Channel
    once = paid c.i_am_0 c amount (c.sequence_number + 1)

    -- An accepted payment is stored.
    pub make_payment_accepted :
        (w : W)
        → counterparty_client.receive_payment crypto.own_address url
            (signed lib crypto once)
            n.world
          ≡ (ok none, w)
        → make_payment num lib self their url amount n
          ≡ (ok tt, record { storage = insert their (open_channel once) n.storage; world = w })
    unfolding make_payment
    make_payment_accepted w answered =
        ground (arith, make_payment_pays num exact c amount none enough fits room)

    -- The counterparty's refusal, and its silence, leave the stored channel alone.
    pub make_payment_failed :
        (e : Error) (w : W)
        → counterparty_client.receive_payment crypto.own_address url
            (signed lib crypto once)
            n.world
          ≡ (err e, w)
        → make_payment num lib self their url amount n ≡ (err e, record n { world = w })
    unfolding make_payment
    make_payment_failed e w answered =
        ground (arith, make_payment_pays num exact c amount none enough fits room)

    -- What a second update of `amount` leads to.
    module _ (seq : ℕ) (twice_enough : amount + amount ≤ my_balance c)
        (seq_room : seq + 1 < 2 ^ 256) where
      abbrev twice : Channel
      twice = paid c.i_am_0 once amount (seq + 1)

      -- Given exact arithmetic, an open channel with twice `amount` within this end's balance, the
      -- total, the next number and seq + 1 below 2 ^ 256: if the counterparty answers the update of
      -- a payment of `amount` with its number seq, and accepts the update that pays `amount` once
      -- more from there with the number seq + 1, then `make_payment` succeeds and leaves the
      -- storage as it was.
      pub make_payment_retried :
          (w v : W)
          → counterparty_client.receive_payment crypto.own_address url
              (signed lib crypto once)
              n.world
            ≡ (ok (some seq), w)
          → counterparty_client.receive_payment crypto.own_address url (signed lib crypto twice) w
            ≡ (ok none, v)
          → make_payment num lib self their url amount n ≡ (ok tt, record n { world = v })
      unfolding make_payment
      make_payment_retried w v answered taken = ground (
        arith,
        make_payment_pays num exact c amount none enough fits room,
        make_payment_pays num exact once amount (some seq),
      )
