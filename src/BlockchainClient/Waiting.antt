-- ===== src/BlockchainClient/Waiting.antt =====
-- What `get_event` (guac_http/src/blockchain_client.rs) comes to.
use guac_rs.Prelude.{
  ◌↔◌, ℕ, ◌≡◌, ◌∙◌, sym, ◌<◌, refl, Bool, true, false, Option, none, some, String, List,
}
use guac_rs.External.{Uint256, Address, Bytes}
use guac_rs.Outcome.{Outcome, ok, err, panic}
use guac_rs.Task.{run, call}
use guac_rs.Task.Run.{run-then, run-call, go_on, answer}
use guac_rs.Web3.{Web3}
use guac_rs.Web3.Types.{Hex, Log, NewFilter}
use guac_rs.BlockchainClient.Contract.{Abi}
use guac_rs.BlockchainClient.Events.{
  event_filter, stream_head, uninstall, removed, await_head, expect_log, get_event,
}
use guac_rs.BlockchainClient.Polling.{Polls, Found, stream_head-finds, stream_head-Found}

-- A filter is set, brings its first logs within `polls` polls, and is removed.
abbrev pub IsAwaited : {W : Type 0} → Web3 W → ℕ → NewFilter → W → Log → W → Type 0
IsAwaited {W} web3 polls filter w log w' =
    (id : Uint256) × (w1 : W) × (i : ℕ) × (w2 : W) × (web3.eth_new_filter filter w ≡ (ok id, w1))
    × (i < polls)
    × Polls web3 id i w1 log w2
    × (web3.eth_uninstall_filter id w2 ≡ (ok true, w'))

module _ {W : Type 0} (web3 : Web3 W) (polls : ℕ) (filter : NewFilter) (w : W) where
  -- What a run that ends with a log says.
  abbrev Ends : Option (Outcome Log) × W → Type 0
  Ends (some (ok log), w') = IsAwaited web3 polls filter w log w'
  Ends _ = Unit

  uninstalled :
      (id : Uint256) (w1 : W) (i : ℕ) (log : Log) (w2 : W) (p : Outcome Bool × W)
      → web3.eth_new_filter filter w ≡ (ok id, w1)
      → i < polls
      → Polls web3 id i w1 log w2
      → web3.eth_uninstall_filter id w2 ≡ p
      → Ends (go_on expect_log (answer (removed (some log)) p))
  unfolding run
  uninstalled id w1 i log w2 (ok true, w') set less found e = (id, w1, i, w2, set, less, found, e)
  uninstalled id w1 i log w2 (ok false, w') set less found e = tt
  uninstalled id w1 i log w2 (err x, w') set less found e = tt
  uninstalled id w1 i log w2 (panic, w') set less found e = tt

  headed :
      (id : Uint256) (w1 : W) (p : Option (Outcome (Option Log)) × W)
      → web3.eth_new_filter filter w ≡ (ok id, w1)
      → Found web3 id polls w1 p
      → Ends (go_on expect_log (go_on (uninstall web3 id) p))
  headed id w1 (some (ok (some log)), w2) set (i, less, found) =
      rw (run-call (web3.eth_uninstall_filter id) (removed (some log)) w2)
        (uninstalled id w1 i log w2 (web3.eth_uninstall_filter id w2) set less found refl)
  headed id w1 (some (ok none), w2) set h = absurd h
  headed id w1 (some (err x), w2) set h = tt
  headed id w1 (some panic, w2) set h = tt
  headed id w1 (none, w2) set h = tt

  filtered :
      (p : Outcome Uint256 × W)
      → web3.eth_new_filter filter w ≡ p
      → Ends (go_on expect_log (answer (await_head web3 polls) p))
  filtered (ok id, w1) set =
      rw (run-then (stream_head web3 polls id) (uninstall web3 id) w1)
        (headed id w1 (run (stream_head web3 polls id) w1) set (stream_head-Found web3 id polls w1))
  filtered (err x, w1) set = tt
  filtered (panic, w1) set = tt

module _ {W Token : Type 0} (hex : Hex) (abi : Abi Token) (contract_address : Address)
    (web3 : Web3 W) (polls : ℕ) (event : String) (topic1 topic2 : Option (List Bytes))
    (from_block to_block : Option String) where
  abbrev filter : NewFilter
  filter = event_filter hex abi contract_address event topic1 topic2 from_block to_block

  get_event-run :
      (w : W)
      → run
          (get_event hex abi contract_address web3 polls event topic1 topic2 from_block to_block)
          w
        ≡ go_on expect_log (answer (await_head web3 polls) (web3.eth_new_filter filter w))
  unfolding get_event
  get_event-run w =
      rw
        (
          run-then (call (web3.eth_new_filter filter) (await_head web3 polls)) expect_log w,
          run-call (web3.eth_new_filter filter) (await_head web3 polls) w,
        )
        refl

  get_event-gives :
      {w w' : W} {log : Log}
      → IsAwaited web3 polls filter w log w'
      → run
          (get_event hex abi contract_address web3 polls event topic1 topic2 from_block to_block)
          w
        ≡ (some (ok log), w')
  unfolding run
  get_event-gives {w} {w'} {log} (id, w1, i, w2, set, less, found, gone) =
      rw
        (
          get_event-run w,
          set,
          run-then (stream_head web3 polls id) (uninstall web3 id) w1,
          stream_head-finds web3 id polls found less,
          run-call (web3.eth_uninstall_filter id) (removed (some log)) w2,
          gone,
        )
        refl

  -- `get_event`, watched for `polls` polls, ends with `log` in the world w' if and only if the
  -- filter is set and gets an id, one of those polls is the first to bring logs, `log` is the first
  -- of these, no poll before it fails, and the filter is then removed, which leaves w'.
  pub get_event-awaits :
      (w w' : W) (log : Log)
      → (run
            (get_event hex abi contract_address web3 polls event topic1 topic2 from_block to_block)
            w
          ≡ (some (ok log), w'))
        ↔ IsAwaited web3 polls filter w log w'
  get_event-awaits w w' log = (
    λ e.
        rw (sym (get_event-run w) ∙ e) at
          (filtered web3 polls filter w (web3.eth_new_filter filter w) refl),
    get_event-gives,
  )
