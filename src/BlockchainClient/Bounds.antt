-- ===== src/BlockchainClient/Bounds.antt =====
-- The channel ids that guac_http/src/blockchain_client.rs hands out.
use native.Mathlib.Decide.{ℕ_discrete}
use guac_rs.Prelude.{◌≡◌, Option, none, some, [], ◌∷◌, length}
use guac_rs.External.{Uint256, Address, Bytes, Clarity}
use guac_rs.Types.{NewChannelTx}
use guac_rs.Outcome.{Outcome, ok, err, panic}
use guac_rs.Task.{Task, run, finish}
use guac_rs.Task.Run.{run-then, go_on}
use guac_rs.Web3.{Web3}
use guac_rs.Web3.Types.{Hex, Log}
use guac_rs.BlockchainClient.Contract.{Abi}
use guac_rs.BlockchainClient.Events.{check_for_event, address_word}
use guac_rs.BlockchainClient.Send.{BlockchainClient, new_channel_payload}
use guac_rs.BlockchainClient.Lookup.{not_32}
use guac_rs.BlockchainClient.{
  Timing, id_of, id_if_found, call_and_wait, deposit_then_new_channel, check_for_open,
}

-- An id that a call ends with has 32 bytes.
abbrev Sized : {S : Type 0} → Option (Outcome Bytes) × S → Type 0
Sized (some (ok id), s) = length id ≡ 32
Sized _ = Unit

abbrev SizedIfAny : {S : Type 0} → Outcome (Option Bytes) × S → Type 0
SizedIfAny (ok (some id), s) = length id ≡ 32
SizedIfAny _ = Unit

module _ {W : Type 0} where
  id_of-Sized : (log : Log) (w : W) → Sized (run (finish (id_of log)) w)
  unfolding run
  id_of-Sized log w = elim (ℕ_discrete (length log.log_data) 32) [
    | yes e ↦ rw e e
    | no ne ↦ rw (not_32 (length log.log_data) ne) tt
  ]

  opened-Sized :
      (p : Option (Outcome (Uint256 × Log)) × W) → Sized (go_on (λ res. finish (id_of res.1)) p)
  opened-Sized (some (ok (tx, log)), w) = id_of-Sized log w
  opened-Sized (some (err e), w) = tt
  opened-Sized (some panic, w) = tt
  opened-Sized (none, w) = tt

  found-Sized : (found : Option Log) (w : W) → SizedIfAny (id_if_found found w)
  found-Sized none w = tt
  found-Sized (some log) w = elim (ℕ_discrete (length log.log_data) 32) [
    | yes e ↦ rw e e
    | no ne ↦ rw (not_32 (length log.log_data) ne) tt
  ]

module _ {W Token : Type 0} (lib : Clarity) (hex : Hex) (abi : Abi Token) (web3 : Web3 W)
    (timing : Timing) (self : BlockchainClient) where
  deposit-Sized :
      (amount : Uint256) (tx : NewChannelTx) (w : W)
      → Sized (run (deposit_then_new_channel lib hex abi web3 timing self amount tx) w)
  unfolding deposit_then_new_channel
  deposit-Sized amount tx w =
      rw (run-then (opening amount tx) (λ res. finish (id_of res.1)) w)
        (opened-Sized (run (opening amount tx) w))
    where
      opening : Uint256 → NewChannelTx → Task W (Uint256 × Log)
      opening amount tx =
          call_and_wait lib hex abi web3 timing self (new_channel_payload abi tx) amount
            "ChannelOpened(address,address,bytes32)" (some (address_word lib tx.address_0 ∷ []))
            (some (address_word lib tx.address_1 ∷ []))

  open-Sized :
      (address_0 address_1 : Address) (w : W)
      → SizedIfAny (check_for_open lib hex abi web3 timing self address_0 address_1 w)
  unfolding check_for_open
  open-Sized address_0 address_1 w = looked (
      check_for_event hex abi self.contract_address web3 "ChannelOpened(address,address,bytes32)"
        (some (address_word lib address_0 ∷ [])) (some (address_word lib address_1 ∷ [])) w)
    where
      looked :
          (p : Outcome (Option Log) × W)
          → SizedIfAny (elim p.0 as (λ x. Outcome (Option Bytes) × W) [
            | ok a ↦ id_if_found a p.1
            | err e ↦ (err e, p.1)
            | panic ↦ (panic, p.1)
          ])
      looked (ok found, v) = found-Sized found v
      looked (err e, v) = tt
      looked (panic, v) = tt

  -- An id that `deposit_then_new_channel` or `check_for_open` hands out has 32 bytes, whatever the
  -- Ethereum node answers.
  channel_ids-Sized :
      (amount : Uint256) (tx : NewChannelTx) (address_0 address_1 : Address) (w : W)
      → Sized (run (deposit_then_new_channel lib hex abi web3 timing self amount tx) w)
        × SizedIfAny (check_for_open lib hex abi web3 timing self address_0 address_1 w)
  channel_ids-Sized amount tx address_0 address_1 w =
      (deposit-Sized amount tx w, open-Sized address_0 address_1 w)
