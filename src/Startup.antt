-- ===== src/Startup.antt =====
-- guac_http/src/lib.rs: `init_guac`, which puts a node together from the clients of the chain and of
-- the other nodes. The port only says where the server listens.
use guac_rs.Prelude.{ℕ, Bool, String}
use guac_rs.External.{Address, Clarity}
use guac_rs.Storage.{empty}
use guac_rs.Node.{Guac, Node}
use guac_rs.Web3.{Web3, over}
use guac_rs.Web3.Types.{Hex}
use guac_rs.Web3.JsonRpc.{Rpc, Wire, Decoders}
use guac_rs.BlockchainClient.{Timing, as_blockchain}
use guac_rs.BlockchainClient.Contract.{Abi}
use guac_rs.HttpClient.{Network, Serde, as_client}

-- What a node is made with that is not in the repository.
pub record Crates (W Token Reply Value SocketAddr : Type 0) : Type 0 where
  pub clarity : Clarity
  pub hex : Hex
  pub abi : Abi Token
  pub wire : Wire W Reply
  pub decoders : Decoders Reply Value
  pub network : Network (Rpc W) SocketAddr
  pub serde : Serde

module _ {W Token Reply Value SocketAddr : Type 0} (crates : Crates W Token Reply Value SocketAddr)
    (checked : Bool) (timing : Timing) where
  -- The client of the chain, over a client of its JSON-RPC interface.
  abbrev pub web3_of : String → Web3 (Rpc W)
  web3_of full_node_url =
      over crates.hex checked crates.wire crates.decoders (record { url = full_node_url })

  unfoldable pub init_guac : Address → Address → ℕ → String → Guac (Rpc W)
  init_guac contract_address own_address secret full_node_url = record {
    blockchain_client =
        as_blockchain crates.clarity crates.hex crates.abi (web3_of full_node_url) timing (record {
          contract_address = contract_address;
          own_address = own_address;
          secret = secret;
        });
    counterparty_client = as_client crates.network crates.serde;
    crypto = record {
      contract_address = contract_address;
      own_address = own_address;
      secret = secret;
    };
  }

-- The state that it starts in: no counterparty, and no request sent.
abbrev pub started : {W : Type 0} → W → Node (Rpc W)
started w = record { storage = empty; world = record { id_counter = 0; world = w } }
