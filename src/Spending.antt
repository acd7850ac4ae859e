-- ===== src/Spending.antt =====
-- The transactions that a node sends to the chain (guac_core/src/channel_manager.rs and
-- counterparty_api.rs), by a count that the world keeps of them.
pub mod Calls
pub mod Requests
pub mod Chain
pub mod Ledger
use guac_rs.Prelude.{ℕ, ◌+◌, ◌≡◌, ◌≤◌, String}
use guac_rs.External.{Uint256, Address, Bytes}
use guac_rs.Types.{NewChannelTx, ReDrawTx, UpdateTx}
use guac_rs.Outcome.{Outcome, ok, err, panic}
use guac_rs.Node.{BlockchainApi, CounterpartyApi}

-- Counts before and after a call that sends one transaction if it succeeds, and otherwise at most one.
abbrev pub Once : {A : Type 0} → ℕ → Outcome A → ℕ → Type 0
Once before (ok a) after = after ≡ before + 1
Once before (err e) after = (before ≤ after) × (after ≤ before + 1)
Once before panic after = (before ≤ after) × (after ≤ before + 1)

-- A client of the chain whose deposits and withdrawals are such calls, and that only looks otherwise.
pub record Spends {W : Type 0} (chain : BlockchainApi W) (count : W → ℕ) : Type 0 where
  pub looks_open : (a b : Address) (w : W) → count (chain.check_for_open a b w).1 ≡ count w
  pub looks_re_draw : (id : Bytes) (w : W) → count (chain.check_for_re_draw id w).1 ≡ count w
  pub looks_block : (w : W) → count (chain.get_current_block w).1 ≡ count w
  pub opens :
      (amount : Uint256) (tx : NewChannelTx) (w : W)
      → let (r, w') = chain.deposit_then_new_channel amount tx w in Once (count w) r (count w')
  pub deposits :
      (amount : Uint256) (tx : ReDrawTx) (w : W)
      → let (r, w') = chain.deposit_then_re_draw amount tx w in Once (count w) r (count w')
  pub withdraws :
      (amount : Uint256) (tx : ReDrawTx) (w : W)
      → let (r, w') = chain.re_draw_then_withdraw amount tx w in Once (count w) r (count w')

-- A client of the other node whose calls send no transaction of this node.
pub record IsQuiet {W : Type 0} (client : CounterpartyApi W) (count : W → ℕ) : Type 0 where
  pub channel :
      (a : Address) (url : String) (tx : NewChannelTx) (w : W)
      → count (client.propose_channel a url tx w).1 ≡ count w
  pub re_draw :
      (a : Address) (url : String) (tx : ReDrawTx) (w : W)
      → count (client.propose_re_draw a url tx w).1 ≡ count w
  pub opened :
      (a : Address) (url : String) (w : W)
      → count (client.notify_channel_opened a url w).1 ≡ count w
  pub re_drawn :
      (a : Address) (url : String) (w : W) → count (client.notify_re_draw a url w).1 ≡ count w
  pub payment :
      (a : Address) (url : String) (tx : UpdateTx) (w : W)
      → count (client.receive_payment a url tx w).1 ≡ count w
