-- ===== src/Interleave/Jobs.antt =====
-- What a node works on: a call of its user, or a request of another node, step by step
-- (guac_core/src/channel_manager.rs, counterparty_api.rs and guac_http/src/counterparty_server.rs).
use guac_rs.External.{Address, Num, Clarity}
use guac_rs.Outcome.{Action, pure, ◌>>=◌}
use guac_rs.Node.{Guac, Node}
use guac_rs.Task.{Task}
use guac_rs.CounterpartyApi
use guac_rs.HttpServer.{
  Request, propose_channel, propose_re_draw, notify_channel_opened, notify_re_draw, receive_payment,
  sender, Json, signature_json, unit_json, sequence_json,
}
use guac_rs.Interleave.User.{UserCall, user_steps, user_call}
use guac_rs.Interleave.Requests.{request_steps}

pub data Job : Type 0 where
  own : Address → UserCall → Job
  asked : Request → Job

-- The counterparty whose entry the job is about.
abbrev pub party : Job → Address
party (own their_address call) = their_address
party (asked request) = sender request

abbrev pub Result : Job → Type 0
Result (own their_address call) = Unit {0}
Result (asked request) = Json

module _ (num : Num) (lib : Clarity) {W : Type 0} (self : Guac W) where
  abbrev pub job_steps : (job : Job) → Task (Node W) (Result job)
  job_steps (own their_address call) = user_steps num lib self their_address call
  job_steps (asked request) = request_steps num lib self request

  -- The handler of a request as one action.
  abbrev pub handled : Request → Action (Node W) Json
  handled (propose_channel from tx) = do
    result ← CounterpartyApi.propose_channel num lib self from "" tx
    pure (signature_json result)
  handled (propose_re_draw from tx) = do
    result ← CounterpartyApi.propose_re_draw num lib self from "" tx
    pure (signature_json result)
  handled (notify_channel_opened from) = do
    result ← CounterpartyApi.notify_channel_opened num lib self from ""
    pure (unit_json result)
  handled (notify_re_draw from) = do
    result ← CounterpartyApi.notify_re_draw num lib self from ""
    pure (unit_json result)
  handled (receive_payment from tx) = do
    result ← CounterpartyApi.receive_payment num lib self from "" tx
    pure (sequence_json result)

  abbrev pub job_action : (job : Job) → Action (Node W) (Result job)
  job_action (own their_address call) = user_call num lib self their_address call
  job_action (asked request) = handled request
