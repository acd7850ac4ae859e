-- ===== src/Crypto.antt =====
-- guac_core/src/crypto.rs, and the `fingerprint` methods of guac_core/src/types.rs.
pub mod Layout
use guac_rs.Prelude.{ℕ, List, [], ◌∷◌, ◌++◌, as_bytes}
use guac_rs.External.{Address, Signature, Bytes, Uint256, Clarity}
use guac_rs.Types.{NewChannelTx, ReDrawTx, UpdateTx}

pub record Crypto : Type 0 where
  pub contract_address : Address
  pub own_address : Address
  pub secret : ℕ

-- What `hasher.input` was given, buffer after buffer.
abbrev pub inputs : List Bytes → Bytes
inputs [] = []
inputs (buffer ∷ rest) = buffer ++ inputs rest

module _ (lib : Clarity) where
  unfoldable pub eth_sign : Crypto → Bytes → Signature
  eth_sign self bytes = lib.sign_hash self.secret bytes

  unfoldable pub hash_bytes : List Bytes → Uint256
  hash_bytes x = lib.uint_of_bytes (lib.keccak256 (inputs x))

  -- The buffers that each kind of transaction is hashed from.
  abbrev pub new_channel_buffers : NewChannelTx → Address → List Bytes
  new_channel_buffers self contract_address =
      as_bytes "newChannel"
      ∷ lib.address_bytes contract_address
      ∷ lib.address_bytes self.address_0
      ∷ lib.address_bytes self.address_1
      ∷ lib.uint_bytes self.balance_0
      ∷ lib.uint_bytes self.balance_1
      ∷ lib.uint_bytes self.expiration
      ∷ lib.uint_bytes self.settling_period_length
      ∷ []

  abbrev pub re_draw_buffers : ReDrawTx → Address → List Bytes
  re_draw_buffers self contract_address =
      as_bytes "reDraw"
      ∷ lib.address_bytes contract_address
      ∷ self.channel_id
      ∷ lib.uint_bytes self.sequence_number
      ∷ lib.uint_bytes self.old_balance_0
      ∷ lib.uint_bytes self.old_balance_1
      ∷ lib.uint_bytes self.new_balance_0
      ∷ lib.uint_bytes self.new_balance_1
      ∷ lib.uint_bytes self.expiration
      ∷ []

  abbrev pub update_buffers : UpdateTx → Address → List Bytes
  update_buffers self contract_address =
      as_bytes "Update"
      ∷ lib.address_bytes contract_address
      ∷ self.channel_id
      ∷ lib.uint_bytes self.sequence_number
      ∷ lib.uint_bytes self.balance_0
      ∷ lib.uint_bytes self.balance_1
      ∷ []

  -- `NewChannelTx::fingerprint`
  unfoldable pub new_channel_fingerprint : NewChannelTx → Address → Bytes
  unfolding hash_bytes
  new_channel_fingerprint self contract_address =
      lib.uint_bytes (hash_bytes (new_channel_buffers self contract_address))

  -- `ReDrawTx::fingerprint`
  unfoldable pub re_draw_fingerprint : ReDrawTx → Address → Bytes
  unfolding hash_bytes
  re_draw_fingerprint self contract_address =
      lib.uint_bytes (hash_bytes (re_draw_buffers self contract_address))

  -- `UpdateTx::fingerprint`
  unfoldable pub update_fingerprint : UpdateTx → Address → Bytes
  unfolding hash_bytes
  update_fingerprint self contract_address =
      lib.uint_bytes (hash_bytes (update_buffers self contract_address))
