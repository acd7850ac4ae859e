-- ===== src/ChannelManager/Sign.antt =====
-- Steps that the operations of guac_core/src/channel_manager.rs share.
use guac_rs.Prelude.{Bool, ◌==◌, if◌then◌else◌, some}
use guac_rs.External.{Address, Signature, Bytes, Clarity}
use guac_rs.Types.{NewChannelTx, ReDrawTx, UpdateTx, error, guac, bad_signature}
use guac_rs.Outcome.{Action, or_raise, ensure, ◌>>=◌}

-- The counterparty's answer to a proposal is its signature on the fingerprint.
abbrev pub verify : {S : Type 0} → Clarity → Address → Signature → Bytes → Action S (Unit {0})
verify lib their_address their_signature fingerprint = do
  recovered_address ← or_raise (lib.recover their_signature fingerprint) bad_signature
  ensure (recovered_address == their_address) (guac (error "Their signature is incorrect"))

-- `(signature_0, signature_1)`
abbrev pub sign_new_channel : Bool → Signature → Signature → NewChannelTx → NewChannelTx
sign_new_channel i_am_0 my_signature their_signature tx = record tx {
  signature_0 = some (if i_am_0 then my_signature else their_signature);
  signature_1 = some (if i_am_0 then their_signature else my_signature);
}

abbrev pub sign_re_draw : Bool → Signature → Signature → ReDrawTx → ReDrawTx
sign_re_draw i_am_0 my_signature their_signature tx = record tx {
  signature_0 = some (if i_am_0 then my_signature else their_signature);
  signature_1 = some (if i_am_0 then their_signature else my_signature);
}

abbrev pub sign_update : Bool → Signature → UpdateTx → UpdateTx
sign_update i_am_0 my_signature update_tx = record update_tx {
  signature_0 = if i_am_0 then some my_signature else update_tx.signature_0;
  signature_1 = if i_am_0 then update_tx.signature_1 else some my_signature;
}
