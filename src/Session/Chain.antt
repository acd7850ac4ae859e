-- ===== src/Session/Chain.antt =====
-- A chain for the sessions of guac_http/src/lib.rs: it mines what it is sent with both signatures,
-- and shows it.
use guac_rs.Prelude.{ℕ, ◌+◌, ◌^◌, ◌<◌, ◌≡◌, some}
use guac_rs.External.{Address, Signature, Bytes}
use guac_rs.Types.{NewChannelTx, ReDrawTx}
use guac_rs.Outcome.{ok}
use guac_rs.Node.{BlockchainApi}

-- `height` is the number of the current block, `id` that of the channel of the two nodes.
pub record Mines {W : Type 0} (chain : BlockchainApi W) (height : W → ℕ) (id : Bytes) : Type 0 where
  pub blocks : (w : W) → (chain.get_current_block w).0 ≡ ok (height w)
  pub soon : (w : W) → height w + 40 < 2 ^ 256
  pub opens :
      (amount : ℕ) (tx : NewChannelTx) (w : W) {s0 s1 : Signature}
      → tx.signature_0 ≡ some s0
      → tx.signature_1 ≡ some s1
      → (chain.deposit_then_new_channel amount tx w).0 ≡ ok id
  pub shows : (a b : Address) (w : W) → (chain.check_for_open a b w).0 ≡ ok (some id)
  pub refills :
      (amount : ℕ) (tx : ReDrawTx) (w : W) {s0 s1 : Signature}
      → tx.signature_0 ≡ some s0
      → tx.signature_1 ≡ some s1
      → (chain.deposit_then_re_draw amount tx w).0 ≡ ok tt
  pub pays_out :
      (amount : ℕ) (tx : ReDrawTx) (w : W) {s0 s1 : Signature}
      → tx.signature_0 ≡ some s0
      → tx.signature_1 ≡ some s1
      → (chain.re_draw_then_withdraw amount tx w).0 ≡ ok tt
  pub confirms : (channel_id : Bytes) (w : W) → (chain.check_for_re_draw channel_id w).0 ≡ ok tt
