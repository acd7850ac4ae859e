-- ===== src/TwoParty.antt =====
-- Two nodes that are connected: Alice's client calls Bob's handlers directly, and both act on one
-- chain. So a call of Alice's runs the whole protocol of guac_core/src/channel_manager.rs against
-- guac_core/src/counterparty_api.rs.
pub mod Payment
pub mod Refill
pub mod Withdrawal
pub mod Opening
pub mod OverHttp
use guac_rs.Prelude.{◌≡◌, some}
use guac_rs.External.{Num, Clarity, Bytes}
use guac_rs.Crypto.{Crypto}
use guac_rs.Node.{BlockchainApi, Guac, Node, on_world}
use guac_rs.CounterpartyApi.{as_api}

-- Alice reaches the chain that Bob's node stands on.
abbrev pub through : {W : Type 0} → BlockchainApi W → BlockchainApi (Node W)
through chain = record {
  balance_of = on_world chain.balance_of;
  check_for_open = λ a b. on_world (chain.check_for_open a b);
  check_for_re_draw = λ id. on_world (chain.check_for_re_draw id);
  quick_deposit = λ value. on_world (chain.quick_deposit value);
  get_current_block = on_world chain.get_current_block;
  deposit_then_new_channel = λ amount tx. on_world (chain.deposit_then_new_channel amount tx);
  deposit_then_re_draw = λ amount tx. on_world (chain.deposit_then_re_draw amount tx);
  re_draw_then_withdraw = λ amount tx. on_world (chain.re_draw_then_withdraw amount tx);
}

abbrev pub connected : {W : Type 0} → Num → Clarity → Crypto → Guac W → Guac (Node W)
connected num lib crypto bob = record {
  blockchain_client = through bob.blockchain_client;
  counterparty_client = as_api num lib bob;
  crypto = crypto;
}

-- A signature is recovered to its signer's address.
pub record Signs (lib : Clarity) (crypto : Crypto) : Type 0 where
  pub recovers :
      (digest : Bytes)
      → lib.recover (lib.sign_hash crypto.secret digest) digest ≡ some crypto.own_address
