-- ===== src/Node.antt =====
-- The struct `Guac` and the traits of its clients (guac_core/src/channel_manager.rs and
-- counterparty_api.rs). `W` is whatever the clients act on: the chain, and the other node.
use guac_rs.Prelude.{Option, none, some, String, ltb}
use guac_rs.External.{Uint256, Address, Signature, Bytes}
use guac_rs.Types.{Counterparty, new, NewChannelTx, ReDrawTx, UpdateTx, guac, error}
use guac_rs.Outcome.{ok, err, panic, Action, pure, or_raise, or_panic, modify, ◌>>=◌, ◌>>◌}
use guac_rs.Crypto.{Crypto}
use guac_rs.Storage.{Storage, insert, get_counterparty, new_counterparty}

pub record BlockchainApi (W : Type 0) : Type 0 where
  pub balance_of : Action W Uint256
  pub check_for_open : Address → Address → Action W (Option Bytes)
  pub check_for_re_draw : Bytes → Action W (Unit {0})
  pub quick_deposit : Uint256 → Action W (Unit {0})
  pub get_current_block : Action W Uint256
  pub deposit_then_new_channel : Uint256 → NewChannelTx → Action W Bytes
  pub deposit_then_re_draw : Uint256 → ReDrawTx → Action W (Unit {0})
  pub re_draw_then_withdraw : Uint256 → ReDrawTx → Action W (Unit {0})

pub record CounterpartyApi (W : Type 0) : Type 0 where
  pub propose_channel : Address → String → NewChannelTx → Action W Signature
  pub propose_re_draw : Address → String → ReDrawTx → Action W Signature
  pub notify_channel_opened : Address → String → Action W (Unit {0})
  pub notify_re_draw : Address → String → Action W (Unit {0})
  pub receive_payment : Address → String → UpdateTx → Action W (Option Uint256)

-- The parts of `Guac` that never change; its storage is the state.
pub record Guac (W : Type 0) : Type 0 where
  pub blockchain_client : BlockchainApi W
  pub counterparty_client : CounterpartyApi W
  pub crypto : Crypto

pub record Node (W : Type 0) : Type 0 where
  pub storage : Storage
  pub world : W

module _ {W A : Type 0} where
  -- a call of `storage`
  abbrev pub on_storage : Action Storage A → Action (Node W) A
  on_storage m n = let (r, storage) = m n.storage in (r, record n { storage = storage })

  -- a call of one of the clients
  abbrev pub on_world : Action W A → Action (Node W) A
  on_world m n = let (r, world) = m n.world in (r, record n { world = world })

-- a method called on a clone: its result and the clone as it is after the call
abbrev pub on_clone : {S C A : Type 0} → Action C A → C → Action S (A × C)
on_clone m c s =
    let (r, c') = m c in elim r [ ok a ↦ (ok (a, c'), s) | err e ↦ (err e, s) | panic ↦ (panic, s) ]

module _ {W : Type 0} where
  -- `*counterparty = …`, through the guard
  abbrev pub write : Address → Counterparty → Action (Node W) (Unit {0})
  write k v = modify (λ n. record n { storage = insert k v n.storage })

  unfoldable pub check_for_counterparty : Option Counterparty → Action (Node W) Counterparty
  check_for_counterparty counterparty =
      or_raise counterparty (guac (error "Cannot find counterparty"))

  unfoldable pub make_counterparty_if_none :
      Address → Address → Option Counterparty → Action (Node W) Counterparty
  unfolding get_counterparty new_counterparty
  make_counterparty_if_none their_address my_address (some counterparty) = pure counterparty
  make_counterparty_if_none their_address my_address none = do
    on_storage (new_counterparty their_address (new (ltb my_address their_address)))
    counterparty ← on_storage (get_counterparty their_address)
    or_panic counterparty
