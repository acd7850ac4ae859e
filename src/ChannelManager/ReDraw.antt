-- ===== src/ChannelManager/ReDraw.antt =====
-- What `Guac::fill_channel` and `Guac::withdraw` do with an open channel when the counterparty and
-- the chain go along (guac_core/src/channel_manager.rs).
use guac_rs.Prelude.{ℕ, ◌+◌, ◌-◌, ◌^◌, ◌≤◌, ◌<◌, ◌≡◌, none, some, String, arith, if◌then◌else◌}
use guac_rs.External.{Address, Signature, Num, Clarity, IsExact}
use guac_rs.Types.{Channel, ReDrawTx, re_drawing, open_channel}
use guac_rs.Outcome.{ok, panic}
use guac_rs.Crypto.{Crypto, eth_sign, re_draw_fingerprint}
use guac_rs.Storage.{lookup, insert}
use guac_rs.Node.{Guac, Node}
use guac_rs.Channel.Payment.{my_balance}
use guac_rs.ChannelManager.Sign.{sign_re_draw}
use guac_rs.ChannelManager.{fill_channel, withdraw}

-- The channel once this end holds `balance`; the sequence number stays.
abbrev pub re_drawn : Channel → ℕ → Channel
re_drawn c balance = record c {
  balance_0 = if c.i_am_0 then balance else c.balance_0;
  balance_1 = if c.i_am_0 then c.balance_1 else balance;
}

-- The re-draw that asks for it.
abbrev pub re_draw_to : Channel → ℕ → ℕ → ReDrawTx
re_draw_to c balance block = record {
  channel_id = c.channel_id;
  sequence_number = c.sequence_number + 1;
  old_balance_0 = c.balance_0;
  old_balance_1 = c.balance_1;
  new_balance_0 = (re_drawn c balance).balance_0;
  new_balance_1 = (re_drawn c balance).balance_1;
  expiration = block + 40;
  signature_0 = none;
  signature_1 = none;
}

-- The transaction with both signatures, as it goes to the chain.
abbrev pub countersigned : Clarity → Crypto → Channel → ReDrawTx → Signature → ReDrawTx
countersigned lib crypto c tx sig =
    sign_re_draw c.i_am_0 (eth_sign lib crypto (re_draw_fingerprint lib tx crypto.contract_address))
      sig tx

module _ (num : Num) (exact : IsExact num) (lib : Clarity) {W : Type 0} (self : Guac W) where
  open self use {blockchain_client, counterparty_client, crypto}

  module _ (their : Address) (url : String) (amount block : ℕ) (c : Channel) (n : Node W)
      (w0 w1 w2 w3 : W) (sig : Signature) (found : lookup their n.storage ≡ some (open_channel c))
      (room : c.sequence_number + 1 < 2 ^ 256) (soon : block + 40 < 2 ^ 256)
      (blocks : blockchain_client.get_current_block n.world ≡ (ok block, w0)) where
    -- If the counterparty and the chain go along, the channel is stored with `amount` more.
    pub fill_channel_refills :
        let tx = re_draw_to c (my_balance c + amount) block in
        my_balance c + amount < 2 ^ 256
        → counterparty_client.propose_re_draw crypto.own_address url tx w0 ≡ (ok sig, w1)
        → lib.recover sig (re_draw_fingerprint lib tx crypto.contract_address) ≡ some their
        → blockchain_client.deposit_then_re_draw amount (countersigned lib crypto c tx sig) w1
          ≡ (ok tt, w2)
        → counterparty_client.notify_re_draw crypto.own_address url w2 ≡ (ok tt, w3)
        → fill_channel num lib self their url amount n ≡ (
          ok tt,
          record {
            storage =
                insert their
                  (open_channel (re_drawn c (my_balance c + amount)))
                  (insert their (re_drawing tx c) n.storage);
            world = w3;
          },
        )
    unfolding fill_channel
    fill_channel_refills fits proposed recovered drawn told = ground (
      arith,
      exact.add_fits (my_balance c) amount,
      exact.add_fits c.sequence_number 1,
      exact.add_fits block 40,
    )

    -- Given exact arithmetic, an open channel of which this end holds `amount`, its next number and
    -- block + 40 below 2 ^ 256, and the current block `block`: if the counterparty answers the
    -- re-draw that takes `amount` from this end's balance with a signature that is recovered to its
    -- address, the chain accepts it with both signatures, and the counterparty takes the notice,
    -- then `withdraw` succeeds and stores the open channel with `amount` less for this end, written
    -- after the channel was marked as re-drawing.
    pub withdraw_withdraws :
        let tx = re_draw_to c (my_balance c - amount) block in
        amount ≤ my_balance c
        → counterparty_client.propose_re_draw crypto.own_address url tx w0 ≡ (ok sig, w1)
        → lib.recover sig (re_draw_fingerprint lib tx crypto.contract_address) ≡ some their
        → blockchain_client.re_draw_then_withdraw amount (countersigned lib crypto c tx sig) w1
          ≡ (ok tt, w2)
        → counterparty_client.notify_re_draw crypto.own_address url w2 ≡ (ok tt, w3)
        → withdraw num lib self their url amount n ≡ (
          ok tt,
          record {
            storage =
                insert their
                  (open_channel (re_drawn c (my_balance c - amount)))
                  (insert their (re_drawing tx c) n.storage);
            world = w3;
          },
        )
    unfolding withdraw
    withdraw_withdraws enough proposed recovered drawn told = ground (
      arith,
      exact.sub_fits (my_balance c) amount,
      exact.add_fits c.sequence_number 1,
      exact.add_fits block 40,
    )

  -- Given exact arithmetic: `withdraw` of more than this end holds in an open channel panics, and
  -- leaves the storage and the world as they were.
  pub withdraw_overdrawn :
      (their : Address) (url : String) (amount : ℕ) (c : Channel) (n : Node W)
      → lookup their n.storage ≡ some (open_channel c)
      → my_balance c < amount
      → withdraw num lib self their url amount n ≡ (panic, n)
  unfolding withdraw
  withdraw_overdrawn their url amount c n found short =
      ground (arith, exact.sub_panics (my_balance c) amount)
