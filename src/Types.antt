-- ===== src/Types.antt =====
-- guac_core/src/types.rs and the struct of guac_core/src/channel.rs: the transactions that the
-- parties sign, the channel, the states of a counterparty, and the errors.
pub mod Update
use guac_rs.Prelude.{ℕ, String, Bool, Option}
use guac_rs.External.{Uint256, Address, Signature, Bytes}

pub record Channel : Type 0 where
  pub channel_id : Bytes
  pub sequence_number : Uint256
  pub balance_0 : Uint256
  pub balance_1 : Uint256
  pub accrual : Uint256
  pub i_am_0 : Bool

pub record NewChannelTx : Type 0 where
  pub address_0 : Address
  pub address_1 : Address
  pub balance_0 : Uint256
  pub balance_1 : Uint256
  pub expiration : Uint256
  pub settling_period_length : Uint256
  pub signature_0 : Option Signature
  pub signature_1 : Option Signature

pub record ReDrawTx : Type 0 where
  pub channel_id : Bytes
  pub sequence_number : Uint256
  pub old_balance_0 : Uint256
  pub old_balance_1 : Uint256
  pub new_balance_0 : Uint256
  pub new_balance_1 : Uint256
  pub expiration : Uint256
  pub signature_0 : Option Signature
  pub signature_1 : Option Signature

pub record UpdateTx : Type 0 where
  pub channel_id : Bytes
  pub sequence_number : Uint256
  pub balance_0 : Uint256
  pub balance_1 : Uint256
  pub signature_0 : Option Signature
  pub signature_1 : Option Signature

pub data Counterparty : Type 0 where
  new : (i_am_0 : Bool) → Counterparty
  creating : (new_channel_tx : NewChannelTx) (i_am_0 : Bool) → Counterparty
  other_creating : (new_channel_tx : NewChannelTx) (i_am_0 : Bool) → Counterparty
  re_drawing : (re_draw_tx : ReDrawTx) (channel : Channel) → Counterparty
  other_re_drawing : (re_draw_tx : ReDrawTx) (channel : Channel) → Counterparty
  open_channel : (channel : Channel) → Counterparty

-- A message is its text with the values that `format!` puts into it.
pub data Message : Type 0 where
  text : String → Message
  with_numbers : String → ℕ → ℕ → Message
  with_bytes : String → Bytes → Bytes → Message

-- `current_state` is printed from the state of the counterparty, which stands here itself.
pub data GuacError : Type 0 where
  try_again_later : GuacError
  wrong_state :
      (action : String) (current_state : Counterparty) (correct_state : String) → GuacError
  forbidden : (message : Message) → GuacError
  update_too_old : (correct_seq : Uint256) → GuacError
  not_enough : (stuff : String) → GuacError
  error : (message : String) → GuacError

-- `failure::Error`: an error of the program, a text of `bail!` and `ensure!`, the error of a
-- signature from which no address can be recovered, a status of a response that is not 200, an
-- error of a JSON-RPC node (its code is the bit pattern of an `i64`), or any other error of another
-- crate.
pub data Error : Type 0 where
  guac : GuacError → Error
  bail : String → Error
  bad_signature : Error
  http_error : (status : ℕ) → Error
  rpc_error : (code : ℕ) (message : String) → Error
  foreign : ℕ → Error
