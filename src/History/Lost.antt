-- ===== src/History/Lost.antt =====
-- `Guac::fill_channel` (guac_core/src/channel_manager.rs) when the deposit is on the chain and the
-- notice to the counterparty fails.
use guac_rs.Prelude.{ℕ, ◌+◌, ◌^◌, ◌<◌, ◌≡◌, refl, none, some, String, List, arith, ltb}
use guac_rs.External.{Address, Signature, Bytes, Num, Clarity, IsExact}
use guac_rs.Types.{Error, new, creating}
use guac_rs.Outcome.{ok, err}
use guac_rs.Crypto.{new_channel_fingerprint}
use guac_rs.Storage.{lookup, insert, lookup-insert}
use guac_rs.Node.{Guac, Node}
use guac_rs.ChannelManager.{fill_channel}
use guac_rs.ChannelManager.Opening.{opening_tx, countersigned, fill_channel_unnoticed}
use guac_rs.History.{Event, after_all, over}
use guac_rs.History.Waiting.{succeeds}
use guac_rs.History.Stuck.{Left, history_stays_stuck}

module _ (num : Num) (exact : IsExact num) (lib : Clarity) {W : Type 0} (self : Guac W) where
  open self use {blockchain_client, counterparty_client, crypto}

  -- Given exact arithmetic and an unknown counterparty: if the chain answers `block` as its current
  -- block with block + 40 below 2 ^ 256, the counterparty signs the proposal, and the chain accepts
  -- the deposit with both signatures, but the notice to the counterparty fails, then `fill_channel`
  -- fails with that error, and after any sequence of requests that the node serves and of calls
  -- that its user makes, the entry is still `creating` with that proposal, and in between no
  -- request of the counterparty was answered with success and no call to fill, withdraw or pay with
  -- it succeeded.
  pub lost_notice_strands :
      (their : Address) (url : String) (amount block : ℕ) (n : Node W) (w0 w1 w2 w3 : W)
      → (sig : Signature) (id : Bytes) (e : Error) (events : List Event)
      → let i_am_0 = ltb crypto.own_address their in
        let tx = opening_tx i_am_0 crypto.own_address their amount block in
        lookup their n.storage ≡ none
        → block + 40 < 2 ^ 256
        → blockchain_client.get_current_block n.world ≡ (ok block, w0)
        → counterparty_client.propose_channel crypto.own_address url tx w0 ≡ (ok sig, w1)
        → lib.recover sig (new_channel_fingerprint lib tx crypto.contract_address) ≡ some their
        → blockchain_client.deposit_then_new_channel amount
            (countersigned lib crypto i_am_0 tx sig)
            w1
          ≡ (ok id, w2)
        → counterparty_client.notify_channel_opened crypto.own_address url w2 ≡ (err e, w3)
        → let (r, n') = fill_channel num lib self their url amount n in
          (r ≡ err e)
          × Left their
              (creating tx i_am_0)
              (after_all num lib self events n')
              (over num lib self (succeeds num lib self their) events n')
  lost_notice_strands their url amount block n w0 w1 w2 w3 sig id e events unknown soon blocks
        proposed recovered drawn told =
      let i_am_0 = ltb crypto.own_address their in
      let tx = opening_tx i_am_0 crypto.own_address their amount block in
      let before = insert their (new i_am_0) n.storage in
      let lost =
        fill_channel_unnoticed num exact lib self their url amount block n w0 w1 w2 w3 sig id e
          unknown soon blocks proposed recovered drawn told in
      rw lost (
        refl,
        history_stays_stuck num lib self their events
            (record { storage = insert their (creating tx i_am_0) before; world = w3 })
            (creating tx i_am_0) refl
            (ground (arith, lookup-insert their their (creating tx i_am_0) before)),
      )
