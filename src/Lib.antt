-- ===== src/Lib.antt =====
-- Guac: two nodes pay each other through payment channels on Ethereum. A channel is opened by a
-- transaction that both sign, payments are signed updates that are exchanged off the chain, and a
-- re-draw changes the deposit. This library models the Rust program and proves what its parts promise.
--
-- Parts and files
--   Prelude, Outcome    shared names and tests; `Action S A`, a call on a state `S` that returns a
--                       value, fails with an error or panics, and keeps what it wrote before that.
--   External            num256, clarity and sha3, which are not in the repository: parameters, with
--                       their documented behaviour as the hypotheses IsExact and IsSized.
--   Types               guac_core/src/types.rs: transactions, `Counterparty`, errors.
--   Channel             guac_core/src/channel.rs: `make_payment`, `receive_payment`, `check_accrual`.
--                       Channel/Payment has their outcomes, Channel/Exchange one payment between two
--                       copies, Channel/Link the "Proof of balance liveness" at the head of the file,
--                       Channel/Sessions the exchanges of its tests.
--   Crypto              guac_core/src/crypto.rs and the `fingerprint` methods; Crypto/Layout is about
--                       the bytes that are hashed.
--   Storage, Node       guac_core/src/storage.rs, the struct `Guac` and the traits of its clients.
--   CounterpartyApi     guac_core/src/counterparty_api.rs: the handlers of the other node's calls.
--                       Each reads the entry and goes on by cases in `<handler>_at`. Their
--                       specification is CounterpartyApi/Transition.
--   ChannelManager      guac_core/src/channel_manager.rs: `fill_channel` (Fill), `withdraw`
--                       (Withdraw), `make_payment` (Pay) and the readers. Their specification is
--                       ChannelManager/Transition.
--   HttpServer          guac_http/src/counterparty_server.rs: requests, dispatch, status codes.
--   HttpClient          guac_http/src/counterparty_client.rs: the calls over HTTP, with the network and
--                       serde as parameters; HttpClient/Wire runs them against the server.
--   Task                Futures that wait for another machine: one step for each request with its
--                       answer. `then` is `and_then`, `join` runs two tasks in the order of an
--                       argument. Task/Run and Task/Count are about runs and what they cost.
--   Web3                web3/src: the methods of an Ethereum node (client.rs) as a record, and `over`,
--                       which fills it by requests of a JSON-RPC client (jsonrpc, Web3/JsonRpc). The
--                       data are in Web3/Types (types.rs); Web3/Ids is about the requests' numbers.
--   BlockchainClient    guac_http/src/blockchain_client.rs over any `Web3`: the contract's events
--                       (Events), its calls (Send) and the trait. Waiting and Polling are about the
--                       wait for an event, Tally about transactions and filters, Lookup, Confirm and
--                       Bounds about what is found.
--   Startup             guac_http/src/lib.rs: `init_guac`, with the clients above and no entry.
--   History             requests that a node serves and calls of its user, in any sequence, with the
--                       sums of what was put in, taken out, gained and told. Waiting and Stuck are
--                       about entries in `Creating` and `ReDrawing`, Lost about a failed notice.
--   Spending            the transactions that the calls of the user and the requests of others send,
--                       by call (Calls, Requests), for the client of the chain (Chain) and over a
--                       history (Ledger).
--   Race                two calls with one counterparty on one node, step by step between the locks of
--                       storage.rs, in any order: Serial, Ready and Orders are about any two calls,
--                       Calls about `fill_channel` and `propose_channel`.
--   Interleave          the calls of the user and the handlers once more as tasks, each action a step
--                       (Steps, User, Requests, Jobs). Alone and Direct are about one task at a time,
--                       Pair and Together about two at once, Crowd is a step relation for any number
--                       at once, with a lock for each counterparty, and Serial and Ledger are about
--                       its runs. `Meets` is what a task does to its counterparty's entry.
--   TwoParty            Alice's client calls Bob's handlers, directly or over HTTP, so that the calls
--                       of the manager run against the handlers of the other node.
--   Session             guac_http/src/lib.rs, the tests: both users call their nodes in turn, over a
--                       chain that does what it is asked (Chain). Shares is what the two nodes hold
--                       of the channel, Story what the calls of each test come to.
--   Tests               runs on sample data.
--
-- How state and operations correspond to the code
--   A method with `&mut self` is an action on its record. A future chain is a do block: `?` and `bail!`
--   end it with `err`, a panic of num256 (overflow, underflow) with `panic`. `Node W` is the storage of
--   a node with a world `W`, on which the clients of the chain and of the other node act; nothing is
--   assumed of what they answer unless a theorem says so. A `Uint256` is its value, and the panic at
--   2 ^ 256 is the documented one. A write through the guard of an entry is an insert at that moment,
--   so what a failing call leaves behind is modelled. The one loop of
--   the program, the polls of `get_event`, goes on for ever in the code; the model looks at `polls` of
--   them and is then `waiting`, and any number that reaches the first poll with logs is
--   enough. A step of a task is a request with its answer, and an `Order` says whose comes next; a
--   task that has no answer left to wait for is `done`. A JSON-RPC counter is an u64 that panics or
--   wraps around at its end, as the build says.
--
-- Not modelled
--   The locks of qutex, but for Race and Interleave: elsewhere a call is one action. The code holds the
--   lock of a known entry from start to end of a call, so two calls with one counterparty meet between
--   their steps only when both find no entry (Race). Calls and handlers about different counterparties
--   alternate in the code as in Interleave, where every action is a step, more than the code has.
--   There a job for an unknown counterparty keeps others out as well, which the locks do not do.
--   `check_accrual` and the readers are left out of it.
--   actix, serde, tokio and the HTTP transports: requests and answers arrive decoded, or not at all.
--   The crate clarity (contract calls, hexadecimal text, signing) and the contract, which the
--   repository does not have, are parameters. `over` awaits a future where it
--   is made, so the client of the chain takes a number where it sends the request; the code takes
--   those of the gas price, the nonce and the filter before it sends any of them (Web3/Ids has the
--   numbers for every order). A request that is under way when the other half of a join fails is not
--   followed. A call that waits for ever has no result. Configuration, the thread and port of the
--   server, and of the tests all but the calls that they make are left out, as is the enum `Action` of
--   the client of the chain, which nothing uses. The texts of errors keep their values and their
--   format, not the printed string.
pub mod Prelude
pub mod Outcome
pub mod External
pub mod Types
pub mod Web3
pub mod Task
pub mod Crypto
pub mod Storage
pub mod Node
pub mod Race
pub mod Interleave
pub mod Channel
pub mod CounterpartyApi
pub mod ChannelManager
pub mod BlockchainClient
pub mod HttpServer
pub mod HttpClient
pub mod TwoParty
pub mod Session
pub mod Spending
pub mod History
pub mod Startup
pub mod Tests
