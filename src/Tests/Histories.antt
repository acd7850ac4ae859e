-- ===== src/Tests/Histories.antt =====
-- A history of Alice's node, and the numbers of JSON-RPC requests.
use guac_rs.Prelude.{ℕ, ◌+◌, ◌≡◌, ◌≤◌, Option, some, List, [], ◌∷◌}
use guac_rs.External.{Uint256}
use guac_rs.Outcome.{ok}
use guac_rs.Storage.{lookup}
use guac_rs.HttpServer
use guac_rs.HttpServer.Safety.{owned_with}
use guac_rs.History.{
  Event, served, fills, withdraws, pays, checks, after_all, over, put_in, taken_out, gained,
  reported, accrued_with,
}
use guac_rs.History.Ledger.{history_keeps_balance, history_reports_gains}
use guac_rs.Web3.JsonRpc.{Request, Response, success, Rpc, HttpClient, Wire, Params}
use guac_rs.Tests.Samples.{num, num-IsExact, lib, alice, both}

-- Alice fills, pays, asks for the accrual and withdraws; Bob asks to notify her.
abbrev events : List Event
events =
    fills 9 "" 10
    ∷ pays 9 "" 3
    ∷ checks 9
    ∷ served (HttpServer.notify_re_draw 9)
    ∷ withdraws 9 "" 5
    ∷ []

history_keeps_balance_example :
    let n' = after_all num lib alice events both in
    owned_with (lookup 9 both.storage) + over num lib alice (put_in num lib alice 9) events both
    ≤ owned_with (lookup 9 n'.storage) + over num lib alice (taken_out num lib alice 9) events both
history_keeps_balance_example =
    history_keeps_balance num num-IsExact lib alice events both 9 (unfold lookup in tt)

history_reports_gains_example :
    let n' = after_all num lib alice events both in
    accrued_with (lookup 9 both.storage) + over num lib alice (gained num lib alice 9) events both
    ≡ accrued_with (lookup 9 n'.storage) + over num lib alice (reported num lib alice 9) events both
history_reports_gains_example =
    history_reports_gains num num-IsExact lib alice events both 9 (unfold lookup in tt)

-- A node that answers every request with 7, and counts them.
abbrev wire : Wire ℕ ℕ
wire = record { post = λ url request w. (ok 7, w + 1) }

abbrev number_of : ℕ → Option (Response Uint256 ℕ)
number_of reply = some (record { id = 0; jsonrpc = "2.0"; response_data = success reply })

abbrev rpc : HttpClient
rpc = record { url = "http://[::1]:8545" }

abbrev fresh : Rpc (ℕ × List (Request Params))
fresh = record { id_counter = 0; world = (0, []) }
