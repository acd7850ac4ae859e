-- ===== src/BlockchainClient/Tally.antt =====
-- How many transactions and filters the calls of guac_http/src/blockchain_client.rs cost.
use guac_rs.Prelude.{ℕ, zero, suc, ◌+◌, ◌≡◌, refl, Option, none, some, String, List, [], ◌∷◌, arith}
use guac_rs.External.{Uint256, Address, Bytes, Clarity}
use guac_rs.Types.{NewChannelTx, ReDrawTx}
use guac_rs.Outcome.{Outcome, ok, err, panic, Action}
use guac_rs.Task.{Task, done, call, then, just, join, run, Order}
use guac_rs.Task.Count.{
  Counts, Counted, Counts-exact, Counts-then, Counts-call, Counts-join, run-Counted,
}
use guac_rs.Web3.{Web3}
use guac_rs.Web3.Types.{Hex, Log}
use guac_rs.BlockchainClient.Contract.{Abi}
use guac_rs.BlockchainClient.Events.{
  head_or, removed, expect_log, stream_head, uninstall, await_head, event_filter, get_event,
  wait_for_event,
}
use guac_rs.BlockchainClient.Send.{BlockchainClient, submit, transaction_of, send_raw_transaction}
use guac_rs.BlockchainClient.{
  Timing, call_and_wait, deposit_then_new_channel, deposit_then_re_draw, re_draw_then_withdraw,
  quick_deposit,
}

-- A count that the world keeps: it goes up by `sent` with each raw transaction that is handed to the
-- node, by `set` with each filter and by `gone` with each removal of one, whatever the answers.
pub record Tally {W : Type 0} (web3 : Web3 W) (count : W → ℕ) (sent set gone : ℕ) : Type 0 where
  pub raw :
      (bytes : Bytes) (w : W) → count (web3.eth_send_raw_transaction bytes w).1 ≡ count w + sent
  pub filter : (f : _) (w : W) → count (web3.eth_new_filter f w).1 ≡ count w + set
  pub removal : (id : ℕ) (w : W) → count (web3.eth_uninstall_filter id w).1 ≡ count w + gone
  pub poll : (id : ℕ) (w : W) → count (web3.eth_get_filter_changes id w).1 ≡ count w + 0
  pub logs : (f : _) (w : W) → count (web3.eth_get_logs f w).1 ≡ count w + 0
  pub block : (w : W) → count (web3.eth_block_number w).1 ≡ count w + 0
  pub price : (w : W) → count (web3.eth_gas_price w).1 ≡ count w + 0
  pub nonce : (a : Address) (w : W) → count (web3.eth_get_transaction_count a w).1 ≡ count w + 0

Counts-done : {W A : Type 0} (count : W → ℕ) (r : Outcome A) → Counts count 0 (done r)
Counts-done count (ok a) = refl
Counts-done count (err e) = tt
Counts-done count panic = tt

-- What is computed at the end costs nothing.
Counts-last :
    {W A B : Type 0} (count : W → ℕ) (n : ℕ) (t : Task W A) (r : A → Outcome B)
    → Counts count n t
    → Counts count n (then t (λ a. done (r a)))
Counts-last count n t r h =
    Counts-exact count (n + 0) n (then t (λ a. done (r a))) (omega arith)
      (Counts-then count n 0 t (λ a. done (r a)) h (λ a. Counts-done count (r a)))

module _ {W Token : Type 0} (hex : Hex) (abi : Abi Token) (web3 : Web3 W) (count : W → ℕ)
    {sent set gone : ℕ} (tally : Tally web3 count sent set gone) where
  Counts-just :
      {A : Type 0} (i : ℕ) (m : Action W A)
      → ((w : W) → count (m w).1 ≡ count w + i)
      → Counts count i (just m)
  Counts-just i m does =
      Counts-exact count (i + 0) i (just m) (omega arith)
        (Counts-call count 0 i m (λ a. done (ok a)) does (λ a. refl))

  submit-Counts : (payload : Option Bytes) → Counts count sent (submit web3 payload)
  submit-Counts none = tt
  submit-Counts (some bytes) =
      Counts-just sent (web3.eth_send_raw_transaction bytes) (tally.raw bytes)

  module _ (self : BlockchainClient) where
    send_raw_transaction-Counts :
        (order : Order) (to_address : Address) (payload : Bytes) (value : Uint256)
        → Counts count sent (send_raw_transaction abi web3 self order to_address payload value)
    unfolding send_raw_transaction
    send_raw_transaction-Counts order to_address payload value =
        let price = just web3.eth_gas_price in
        let nonce = just (web3.eth_get_transaction_count self.own_address) in
        Counts-exact count ((0 + 0) + sent) sent _ (omega arith) (
          Counts-then count (0 + 0) sent (join order price nonce) _
            (Counts-join count 0 0 order price nonce (Counts-just 0 web3.eth_gas_price tally.price)
              (Counts-just 0 (web3.eth_get_transaction_count self.own_address)
                (tally.nonce self.own_address)))
            (λ props. submit-Counts (
              abi.to_bytes (
                abi.sign (transaction_of self to_address payload value props.0 props.1) self.secret
                  (some 1)))))

  head_or-Counts :
      (later : Task W (Option Log)) (logs : List Log)
      → Counts count 0 later
      → Counts count 0 (head_or later logs)
  head_or-Counts later [] h = h
  head_or-Counts later (log ∷ logs) h = refl

  stream_head-Counts : (n id : ℕ) → Counts count 0 (stream_head web3 n id)
  unfolding stream_head
  stream_head-Counts zero id = tt
  stream_head-Counts (suc n) id =
      Counts-call count 0 0 (web3.eth_get_filter_changes id) (head_or (stream_head web3 n id))
        (tally.poll id)
        (λ logs. head_or-Counts (stream_head web3 n id) logs (stream_head-Counts n id))

  await_head-Counts : (n id : ℕ) → Counts count gone (await_head web3 n id)
  await_head-Counts n id = Counts-exact count (0 + gone) gone (await_head web3 n id) (omega arith) (
      Counts-then count 0 gone (stream_head web3 n id) (uninstall web3 id) (stream_head-Counts n id)
        (λ head. Counts-exact count (gone + 0) gone (uninstall web3 id head) (omega arith) (
          Counts-call count 0 gone (web3.eth_uninstall_filter id) (removed head) (tally.removal id)
            (λ r. Counts-done count _))))

  wait_for_event-Counts :
      (contract : Address) (n : ℕ) (event : String) (topic1 topic2 : Option (List Bytes))
      → Counts count (set + gone) (wait_for_event hex abi contract web3 n event topic1 topic2)
  unfolding wait_for_event get_event
  wait_for_event-Counts contract n event topic1 topic2 =
      let filter = event_filter hex abi contract event topic1 topic2 none none in
      Counts-exact count ((set + gone) + 0) (set + gone) _ (omega arith) (
        Counts-then count (set + gone) 0 (call (web3.eth_new_filter filter) (await_head web3 n))
          expect_log
          (Counts-call count gone set (web3.eth_new_filter filter) (await_head web3 n)
            (tally.filter filter) (await_head-Counts n))
          (λ log. Counts-done count _))

  module _ (lib : Clarity) (timing : Timing) (self : BlockchainClient) where
    call_and_wait-Counts :
        (payload : Option Bytes) (amount : ℕ) (event : String) (topic1 topic2 : Option (List Bytes))
        → Counts count
            (sent + (set + gone))
            (call_and_wait lib hex abi web3 timing self payload amount event topic1 topic2)
    unfolding call_and_wait
    call_and_wait-Counts none amount event topic1 topic2 = tt
    call_and_wait-Counts (some payload) amount event topic1 topic2 =
        Counts-join count sent (set + gone) timing.outer
          (send_raw_transaction abi web3 self timing.inner self.contract_address payload amount)
          (wait_for_event hex abi self.contract_address web3 timing.polls event topic1 topic2)
          (send_raw_transaction-Counts self timing.inner self.contract_address payload amount)
          (wait_for_event-Counts self.contract_address timing.polls event topic1 topic2)

    -- What a call costs that waits for the event that it causes.
    abbrev waits : ℕ
    waits = sent + (set + gone)

    pub deposit_then_new_channel-Counted :
        (amount : Uint256) (tx : NewChannelTx) (w : W)
        → Counted count waits w
            (run (deposit_then_new_channel lib hex abi web3 timing self amount tx) w)
    unfolding deposit_then_new_channel
    deposit_then_new_channel-Counted amount tx w =
        run-Counted count waits _ w (Counts-last count waits _ _ (call_and_wait-Counts _ _ _ _ _))

    pub deposit_then_re_draw-Counted :
        (amount : Uint256) (tx : ReDrawTx) (w : W)
        → Counted count waits w
            (run (deposit_then_re_draw lib hex abi web3 timing self amount tx) w)
    unfolding deposit_then_re_draw
    deposit_then_re_draw-Counted amount tx w =
        run-Counted count waits _ w (Counts-last count waits _ _ (call_and_wait-Counts _ _ _ _ _))

    pub re_draw_then_withdraw-Counted :
        (amount : Uint256) (tx : ReDrawTx) (w : W)
        → Counted count waits w
            (run (re_draw_then_withdraw lib hex abi web3 timing self amount tx) w)
    unfolding re_draw_then_withdraw
    re_draw_then_withdraw-Counted amount tx w =
        run-Counted count waits _ w (Counts-last count waits _ _ (call_and_wait-Counts _ _ _ _ _))

    quick_deposit-Counted :
        (amount : Uint256) (w : W)
        → Counted count sent w (run (quick_deposit lib hex abi web3 timing self amount) w)
    unfolding quick_deposit
    quick_deposit-Counted amount w = run-Counted count sent _ w (
        Counts-last count sent _ _
          (send_raw_transaction-Counts self timing.inner self.contract_address _ amount))

    -- Given a count in the world that goes up by `sent` with each raw transaction that the Ethereum
    -- node is handed, by `set` with each filter, by `gone` with each removal of one, and with no
    -- other request of the client of the chain, and whatever that node answers and in whatever
    -- order: `deposit_then_new_channel`, `deposit_then_re_draw` and `re_draw_then_withdraw` add
    -- exactly sent + set + gone if they succeed, and at most that if they fail, panic or still
    -- wait; `quick_deposit` adds exactly `sent` if it succeeds, and at most that otherwise.
    pub calls-Counted :
        (amount : ℕ) (tx : NewChannelTx) (re_draw : ReDrawTx) (w : W)
        → Counted count
            (sent + (set + gone))
            w
            (run (deposit_then_new_channel lib hex abi web3 timing self amount tx) w)
          × Counted count
              (sent + (set + gone))
              w
              (run (deposit_then_re_draw lib hex abi web3 timing self amount re_draw) w)
          × Counted count
              (sent + (set + gone))
              w
              (run (re_draw_then_withdraw lib hex abi web3 timing self amount re_draw) w)
          × Counted count sent w (run (quick_deposit lib hex abi web3 timing self amount) w)
    calls-Counted amount tx re_draw w = (
      deposit_then_new_channel-Counted amount tx w,
      deposit_then_re_draw-Counted amount re_draw w,
      re_draw_then_withdraw-Counted amount re_draw w,
      quick_deposit-Counted amount w,
    )
