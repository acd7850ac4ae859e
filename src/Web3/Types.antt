-- ===== src/Web3/Types.antt =====
-- web3/src/types.rs: what a node is asked with, and what it answers.
use guac_rs.Prelude.{Bool, Option, String, append_text, List}
use guac_rs.External.{Uint256, Address, Bytes}

-- How clarity and num256 write values as text; they are not in the repository.
pub record Hex : Type 0 where
  pub bytes_to_hex_str : Bytes → String
  pub hex_str_to_bytes : String → Option Bytes
  pub address_text : Address → String  -- `to_string`
  pub lower_hex : Uint256 → String  -- `{:#x}`
  pub lower_hex_66 : Uint256 → String  -- `{:#066x}`

-- Byte strings on their way into JSON and out of it.
abbrev pub data_serialize : Hex → Bytes → String
data_serialize hex x = append_text "0x" (hex.bytes_to_hex_str x)

abbrev pub data_deserialize : Hex → String → Option Bytes
data_deserialize hex s = hex.hex_str_to_bytes s

pub record Log : Type 0 where
  pub removed : Option Bool
  pub log_index : Option Uint256
  pub transaction_index : Option Uint256
  pub transaction_hash : Option String
  pub block_hash : Option String
  pub block_number : Option Uint256
  pub address : Address
  pub log_data : Bytes
  pub topics : List String
  pub type_ : Option String

pub record TransactionResponse : Type 0 where
  pub block_hash : Option Bytes
  pub block_number : Option Uint256
  pub from : Address
  pub gas : Uint256
  pub gas_price : Uint256
  pub hash : Bytes
  pub input : Bytes
  pub nonce : Uint256
  pub to : Address
  pub transaction_index : Uint256
  pub value : Uint256
  pub v : Uint256
  pub r : Uint256
  pub s : Uint256

pub record NewFilter : Type 0 where
  pub from_block : Option String
  pub to_block : Option String
  pub address : List Address
  pub topics : Option (List (Option (List (Option String))))

pub record TransactionRequest : Type 0 where
  pub from : Address
  pub to : Option Address
  pub gas : Option Uint256
  pub gas_price : Option Uint256
  pub value : Option Uint256
  pub request_data : Option Bytes
  pub nonce : Option Uint256
