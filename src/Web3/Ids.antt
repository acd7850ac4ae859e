-- ===== src/Web3/Ids.antt =====
-- The numbers of the requests that a client sends (web3/src/jsonrpc/client.rs).
use guac_rs.Prelude.{
  ℕ, suc, ◌+◌, ◌==◌, ◌&&◌, ltb, leb, if◌then◌else◌, Bool, Option, String, List, [], ◌∷◌, ◌++◌,
}
use guac_rs.Outcome.{Outcome, ok, err, panic}
use guac_rs.Web3.JsonRpc.{
  Params, Request, Response, Rpc, HttpClient, Wire, prepare, send_request, request_method,
}

-- The same transport, with a list of all that was sent, the newest first.
abbrev pub recorded : {W Reply : Type 0} → Wire W Reply → Wire (W × List (Request Params)) Reply
recorded wire = record {
  post = λ url request state.
      let (r, w) = wire.post url request state.0 in (r, (w, request ∷ state.1));
}

-- A call's request, if it was built, waits to be sent.
abbrev pub kept : Outcome (Request Params) → List (Request Params) → List (Request Params)
kept (ok request) pending = request ∷ pending
kept (err e) pending = pending
kept panic pending = pending

-- A client after `n` calls of `request_method`, with the requests that are not sent yet: a call takes
-- a number and builds its request, and any future is awaited at any time after, or never, whatever
-- is answered.
pub data Asks {W Reply : Type 0} (Value : Type 0) (checked : Bool) (wire : Wire W Reply)
    (client : HttpClient) (start : Rpc W) : ℕ → List (Request Params) → Rpc W → Type 1 where
  begun : Asks Value checked wire client start 0 [] start
  calls :
      {R : Type 0} (decode : Reply → Option (Response R Value)) (method : String) (params : Params)
      → {n : ℕ} {pending : List (Request Params)} {s : Rpc W}
      → Asks Value checked wire client start n pending s
      → Asks Value checked wire client start
          (suc n)
          (kept (prepare checked method params s).0 pending)
          (request_method wire client decode checked method params s).1
  awaits :
      {R : Type 0} (decode : Reply → Option (Response R Value)) {n : ℕ}
      → (before after : List (Request Params)) (request : Request Params) {s : Rpc W}
      → Asks Value checked wire client start n (before ++ request ∷ after) s
      → Asks Value checked wire client start n
          (before ++ after)
          (send_request wire client decode request s).1

-- How many requests of a list have this number.
abbrev pub numbered : ℕ → List (Request Params) → ℕ
numbered i [] = 0
numbered i (request ∷ rest) = (if request.id == i then 1 else 0) + numbered i rest

-- 1 for the numbers from 1 to `n`, and 0 for the others.
abbrev pub once : ℕ → ℕ → ℕ
once n i = if ltb 0 i && leb i n then 1 else 0
