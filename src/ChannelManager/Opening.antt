-- ===== src/ChannelManager/Opening.antt =====
-- What `Guac::fill_channel` does with an unknown counterparty when it and the chain go along
-- (guac_core/src/channel_manager.rs).
use guac_rs.Prelude.{ℕ, ◌+◌, ◌^◌, ◌<◌, ◌≡◌, Bool, none, some, String, arith, ltb, if◌then◌else◌}
use guac_rs.External.{Address, Signature, Bytes, Num, Clarity, IsExact}
use guac_rs.Types.{Channel, NewChannelTx, new, creating, open_channel, Error}
use guac_rs.Outcome.{ok, err}
use guac_rs.Crypto.{Crypto, eth_sign, new_channel_fingerprint}
use guac_rs.Storage.{lookup, insert, lookup-insert}
use guac_rs.Node.{Guac, Node}
use guac_rs.ChannelManager.Sign.{sign_new_channel}
use guac_rs.ChannelManager.{fill_channel}

-- The proposal: all of the deposit is the proposer's.
abbrev pub opening_tx : Bool → Address → Address → ℕ → ℕ → NewChannelTx
opening_tx i_am_0 my_address their_address amount block = record {
  address_0 = if i_am_0 then my_address else their_address;
  address_1 = if i_am_0 then their_address else my_address;
  balance_0 = if i_am_0 then amount else 0;
  balance_1 = if i_am_0 then 0 else amount;
  expiration = block + 40;
  settling_period_length = 5000;
  signature_0 = none;
  signature_1 = none;
}

-- The channel at the end `i_am_0` once it is open.
abbrev pub opened : Bool → Bytes → NewChannelTx → Channel
opened i_am_0 id tx = record {
  channel_id = id;
  sequence_number = 0;
  balance_0 = tx.balance_0;
  balance_1 = tx.balance_1;
  accrual = 0;
  i_am_0 = i_am_0;
}

-- The transaction with both signatures, as it goes to the chain.
abbrev pub countersigned : Clarity → Crypto → Bool → NewChannelTx → Signature → NewChannelTx
countersigned lib crypto i_am_0 tx sig =
    sign_new_channel i_am_0
      (eth_sign lib crypto (new_channel_fingerprint lib tx crypto.contract_address)) sig tx

module _ (num : Num) (exact : IsExact num) (lib : Clarity) {W : Type 0} (self : Guac W) where
  open self use {blockchain_client, counterparty_client, crypto}

  -- If the counterparty and the chain go along, the channel is stored as open.
  pub fill_channel_opens :
      (their : Address) (url : String) (amount block : ℕ) (n : Node W) (w0 w1 w2 w3 : W)
      → (sig : Signature) (id : Bytes)
      → let i_am_0 = ltb crypto.own_address their in
        let tx = opening_tx i_am_0 crypto.own_address their amount block in
        lookup their n.storage ≡ none
        → block + 40 < 2 ^ 256
        → blockchain_client.get_current_block n.world ≡ (ok block, w0)
        → counterparty_client.propose_channel crypto.own_address url tx w0 ≡ (ok sig, w1)
        → lib.recover sig (new_channel_fingerprint lib tx crypto.contract_address) ≡ some their
        → blockchain_client.deposit_then_new_channel amount
            (countersigned lib crypto i_am_0 tx sig)
            w1
          ≡ (ok id, w2)
        → counterparty_client.notify_channel_opened crypto.own_address url w2 ≡ (ok tt, w3)
        → fill_channel num lib self their url amount n ≡ (
          ok tt,
          record {
            storage =
                insert their
                  (open_channel (opened i_am_0 id tx))
                  (insert their (creating tx i_am_0) (insert their (new i_am_0) n.storage));
            world = w3;
          },
        )
  unfolding fill_channel
  fill_channel_opens their url amount block n w0 w1 w2 w3 sig id unknown soon blocks proposed
        recovered drawn told =
      ground (
        arith,
        exact.add_fits block 40,
        lookup-insert their their (new (ltb crypto.own_address their)) n.storage,
      )

  -- If the notice is lost, the deposit is made, and the entry stays as it was before it.
  pub fill_channel_unnoticed :
      (their : Address) (url : String) (amount block : ℕ) (n : Node W) (w0 w1 w2 w3 : W)
      → (sig : Signature) (id : Bytes) (e : Error)
      → let i_am_0 = ltb crypto.own_address their in
        let tx = opening_tx i_am_0 crypto.own_address their amount block in
        lookup their n.storage ≡ none
        → block + 40 < 2 ^ 256
        → blockchain_client.get_current_block n.world ≡ (ok block, w0)
        → counterparty_client.propose_channel crypto.own_address url tx w0 ≡ (ok sig, w1)
        → lib.recover sig (new_channel_fingerprint lib tx crypto.contract_address) ≡ some their
        → blockchain_client.deposit_then_new_channel amount
            (countersigned lib crypto i_am_0 tx sig)
            w1
          ≡ (ok id, w2)
        → counterparty_client.notify_channel_opened crypto.own_address url w2 ≡ (err e, w3)
        → fill_channel num lib self their url amount n ≡ (
          err e,
          record {
            storage = insert their (creating tx i_am_0) (insert their (new i_am_0) n.storage);
            world = w3;
          },
        )
  unfolding fill_channel
  fill_channel_unnoticed their url amount block n w0 w1 w2 w3 sig id e unknown soon blocks proposed
        recovered drawn told =
      ground (
        arith,
        exact.add_fits block 40,
        lookup-insert their their (new (ltb crypto.own_address their)) n.storage,
      )
