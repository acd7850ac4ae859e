-- ===== src/BlockchainClient/Polling.antt =====
-- When the wait for an event ends (guac_http/src/blockchain_client.rs, `get_event`).
use guac_rs.Prelude.{ℕ, zero, suc, ◌≡◌, ◌<◌, refl, Option, none, some, List, [], ◌∷◌, arith}
use guac_rs.External.{Uint256}
use guac_rs.Outcome.{Outcome, ok, err, panic}
use guac_rs.Task.{run}
use guac_rs.Task.Run.{run-call, answer}
use guac_rs.Web3.{Web3}
use guac_rs.Web3.Types.{Log}
use guac_rs.BlockchainClient.Events.{head_or, stream_head}

-- `i` polls bring nothing, and the next one brings logs, of which `log` is the first.
pub data Polls {W : Type 0} (web3 : Web3 W) (filter_id : Uint256) : ℕ → W → Log → W → Type 0 where
  now :
      {w w' : W} {log : Log} (rest : List Log)
      → web3.eth_get_filter_changes filter_id w ≡ (ok (log ∷ rest), w')
      → Polls web3 filter_id 0 w log w'
  later :
      {i : ℕ} {w w' w'' : W} {log : Log}
      → web3.eth_get_filter_changes filter_id w ≡ (ok [], w')
      → Polls web3 filter_id i w' log w''
      → Polls web3 filter_id (suc i) w log w''

module _ {W : Type 0} (web3 : Web3 W) (filter_id : Uint256) where
  stream_head-run :
      (n : ℕ) (w : W)
      → run (stream_head web3 (suc n) filter_id) w
        ≡ answer (head_or (stream_head web3 n filter_id)) (web3.eth_get_filter_changes filter_id w)
  unfolding stream_head
  stream_head-run n w =
      run-call (web3.eth_get_filter_changes filter_id) (head_or (stream_head web3 n filter_id)) w

  pub stream_head-finds :
      (n : ℕ) {i : ℕ} {w w' : W} {log : Log}
      → Polls web3 filter_id i w log w'
      → i < n
      → run (stream_head web3 n filter_id) w ≡ (some (ok (some log)), w')
  unfolding run
  stream_head-finds zero p less = absurd (omega arith)
  stream_head-finds (suc n) {w = w} (now rest e) less = rw (stream_head-run n w, e) refl
  stream_head-finds (suc n) {w = w} (later e p) less =
      rw (stream_head-run n w, e) (stream_head-finds n p (omega arith))

  -- What a run of the head says.
  abbrev pub Found : ℕ → W → Option (Outcome (Option Log)) × W → Type 0
  Found n w (some (ok (some log)), w') = (i : ℕ) × (i < n) × Polls web3 filter_id i w log w'
  Found n w (some (ok none), w') = ⊥
  Found n w _ = Unit

  Found-later :
      (n : ℕ) {w v : W} (p : Option (Outcome (Option Log)) × W)
      → web3.eth_get_filter_changes filter_id w ≡ (ok [], v)
      → Found n v p
      → Found (suc n) w p
  Found-later n (some (ok (some log)), w') e (i, less, polls) = (suc i, omega arith, later e polls)
  Found-later n (some (ok none), w') e h = h
  Found-later n (some (err x), w') e h = tt
  Found-later n (some panic, w') e h = tt
  Found-later n (none, w') e h = tt

  answer-Found :
      (n : ℕ) (w : W) (p : Outcome (List Log) × W)
      → ((v : W) → Found n v (run (stream_head web3 n filter_id) v))
      → web3.eth_get_filter_changes filter_id w ≡ p
      → Found (suc n) w (answer (head_or (stream_head web3 n filter_id)) p)
  unfolding run
  answer-Found n w (ok [], v) rest e =
      Found-later n (run (stream_head web3 n filter_id) v) e (rest v)
  answer-Found n w (ok (log ∷ logs), v) rest e = (0, omega arith, now logs e)
  answer-Found n w (err x, v) rest e = tt
  answer-Found n w (panic, v) rest e = tt

  pub stream_head-Found : (n : ℕ) (w : W) → Found n w (run (stream_head web3 n filter_id) w)
  unfolding run
  stream_head-Found zero w = unfold stream_head in tt
  stream_head-Found (suc n) w =
      rw (stream_head-run n w)
        (answer-Found n w (web3.eth_get_filter_changes filter_id w) (stream_head-Found n) refl)
