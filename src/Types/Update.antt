-- ===== src/Types/Update.antt =====
-- The methods of `UpdateTx` (guac_core/src/types.rs) that read or set one side's part.
use guac_rs.Prelude.{Bool, true, false, some}
use guac_rs.External.{Uint256, Signature}
use guac_rs.Types.{UpdateTx}

unfoldable pub set_my_signature : UpdateTx → Bool → Signature → UpdateTx
set_my_signature self true signature = record self { signature_0 = some signature }
set_my_signature self false signature = record self { signature_1 = some signature }

-- The source has a TODO here: it does not validate.
unfoldable pub validate_their_signature : UpdateTx → Bool → Bool
validate_their_signature self i_am_0 = true

unfoldable pub their_balance : UpdateTx → Bool → Uint256
their_balance self true = self.balance_1
their_balance self false = self.balance_0

unfoldable pub my_balance : UpdateTx → Bool → Uint256
my_balance self true = self.balance_0
my_balance self false = self.balance_1
