-- ===== src/BlockchainClient/Contract.antt =====
-- What guac_http/src/blockchain_client.rs takes from the crate clarity, which is not in the
-- repository: the encoding of contract calls, transactions and their signing.
use guac_rs.Prelude.{ℕ, Option, String, List}
use guac_rs.External.{Uint256, Address, Signature, Bytes}

pub record Transaction : Type 0 where
  pub nonce : Uint256
  pub gas_price : Uint256
  pub gas_limit : Uint256
  pub to : Address
  pub value : Uint256
  pub call_data : Bytes
  pub signature : Option Signature

pub record Abi (Token : Type 0) : Type 0 where
  pub address : Address → Token  -- `into`
  pub uint : Uint256 → Token
  pub vec : Bytes → Token
  pub bytes : Bytes → Token  -- `Token::Bytes`
  pub encode_call : String → List Token → Bytes
  pub derive_signature : String → Bytes
  pub into_bytes : Signature → Bytes
  pub sign : Transaction → ℕ → Option ℕ → Transaction
  pub to_bytes : Transaction → Option Bytes  -- `none` is an error
