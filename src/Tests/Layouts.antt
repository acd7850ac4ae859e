-- ===== src/Tests/Layouts.antt =====
-- Fingerprints of sample transactions.
use guac_rs.Prelude.{◌≡◌, ◌≢◌, ap, refl, true, arith}
use guac_rs.External.{Address}
use guac_rs.Types.{NewChannelTx, ReDrawTx, UpdateTx}
use guac_rs.Crypto.{new_channel_fingerprint, re_draw_fingerprint, update_fingerprint}
use guac_rs.Crypto.Layout.{SameUpdate, update_fingerprint-injective, fingerprints_differ}
use guac_rs.Channel.Payment.{update_of}
use guac_rs.ChannelManager.Opening.{opening_tx}
use guac_rs.ChannelManager.ReDraw.{re_draw_to}
use guac_rs.ChannelManager.Payment.{signed}
use guac_rs.Tests.Samples.{lib, lib-IsSized, head, alice_channel, alice_keys}

abbrev contract : Address
contract = alice_keys.contract_address

abbrev update : UpdateTx
update = update_of alice_channel

-- The same update with Alice's signature, which its fingerprint does not cover.
abbrev signed_update : UpdateTx
signed_update = signed lib alice_keys alice_channel

abbrev re_draw : ReDrawTx
re_draw = re_draw_to alice_channel 40 70

abbrev opening : NewChannelTx
opening = opening_tx true 5 9 100 70

update_fingerprint-injective_example : (contract ≡ contract) × SameUpdate update signed_update
unfolding update_fingerprint
update_fingerprint-injective_example =
    update_fingerprint-injective lib lib-IsSized update signed_update 3 3
      (record {
        contract = omega arith;
        sequence_number = omega arith;
        balance_0 = omega arith;
        balance_1 = omega arith;
      })
      (record {
        contract = omega arith;
        sequence_number = omega arith;
        balance_0 = omega arith;
        balance_1 = omega arith;
      })
      refl (λ _. refl) refl

fingerprints_differ_example :
    (new_channel_fingerprint lib opening 3 ≢ re_draw_fingerprint lib re_draw 3)
    × (new_channel_fingerprint lib opening 3 ≢ update_fingerprint lib update 3)
    × (re_draw_fingerprint lib re_draw 3 ≢ update_fingerprint lib update 3)
fingerprints_differ_example =
    fingerprints_differ lib lib-IsSized opening re_draw update 3 3 3
      (λ e. absurd (omega (arith, ap head e))) (λ e. absurd (omega (arith, ap head e)))
      (λ e. absurd (omega (arith, ap head e)))
