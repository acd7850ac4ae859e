-- ===== src/Interleave/Direct.antt =====
-- Jobs whose steps no other job comes between (guac_core/src/channel_manager.rs and
-- counterparty_api.rs).
use guac_rs.Prelude.{◌≡◌, refl, ltb, Option, none, some, arith}
use guac_rs.External.{Address, Num, Clarity}
use guac_rs.Types.{
  Counterparty, new, other_creating, other_re_drawing, open_channel, NewChannelTx, ReDrawTx,
  UpdateTx,
}
use guac_rs.Outcome.{Action, pure, ◌>>=◌}
use guac_rs.Storage.{lookup, insert, get_counterparty, new_counterparty_unknown}
use guac_rs.Node.{Guac, Node, check_for_counterparty, make_counterparty_if_none}
use guac_rs.Task.{Task, run}
use guac_rs.CounterpartyApi
use guac_rs.CounterpartyApi.{
  propose_channel_at, propose_re_draw_at, notify_channel_opened_at, notify_re_draw_at,
  receive_payment_at, check_new_channel, check_re_draw,
}
use guac_rs.HttpServer.{
  propose_channel, propose_re_draw, notify_channel_opened, notify_re_draw, receive_payment, Json,
  signature_json, unit_json, sequence_json,
}
use guac_rs.Interleave.{stored}
use guac_rs.Interleave.Alone.{finished, user_call_alone}
use guac_rs.Interleave.Requests.{
  propose_channel_steps, propose_re_draw_steps, notify_channel_opened_steps, notify_re_draw_steps,
  receive_payment_steps, known_steps, proposed_steps,
}
use guac_rs.Interleave.Jobs.{Job, own, asked, job_steps, job_action}

-- A result as the server writes it.
abbrev written : {S A : Type 0} → (A → Json) → Action S A → Action S Json
written json m = do result ← m; pure (json result)

module _ (num : Num) (lib : Clarity) {W : Type 0} (self : Guac W) (from : Address) where
  propose_channel_at_alone :
      (tx : NewChannelTx) (c : Counterparty) (n : Node W)
      → run (propose_channel_steps num lib self from tx c) n
        ≡ finished (written signature_json (propose_channel_at num lib self from tx c) n)
  unfolding run check_new_channel
  propose_channel_at_alone tx (new i) n = ground arith
  propose_channel_at_alone tx c n = refl

  propose_re_draw_at_alone :
      (tx : ReDrawTx) (c : Counterparty) (n : Node W)
      → run (propose_re_draw_steps num lib self from tx c) n
        ≡ finished (written signature_json (propose_re_draw_at num lib self from tx c) n)
  unfolding run check_re_draw
  propose_re_draw_at_alone tx (open_channel c) n = ground arith
  propose_re_draw_at_alone tx c n = refl

  notify_channel_opened_at_alone :
      (c : Counterparty) (n : Node W)
      → run (notify_channel_opened_steps num lib self from c) n
        ≡ finished (written unit_json (notify_channel_opened_at num lib self from c) n)
  unfolding run
  notify_channel_opened_at_alone (other_creating tx i) n = ground arith
  notify_channel_opened_at_alone c n = refl

  notify_re_draw_at_alone :
      (c : Counterparty) (n : Node W)
      → run (notify_re_draw_steps num lib self from c) n
        ≡ finished (written unit_json (notify_re_draw_at num lib self from c) n)
  unfolding run
  notify_re_draw_at_alone (other_re_drawing tx c) n = ground arith
  notify_re_draw_at_alone c n = refl

  receive_payment_at_alone :
      (u : UpdateTx) (c : Counterparty) (n : Node W)
      → run (receive_payment_steps num lib self from u c) n
        ≡ finished (written sequence_json (receive_payment_at num lib self from u c) n)
  unfolding run
  receive_payment_at_alone u (open_channel c) n = ground arith
  receive_payment_at_alone u c n = refl

  -- What follows the look at the storage, for a caller that must be known.
  known_alone :
      {A : Type 0} (json : A → Json) (t : Counterparty → Task (Node W) Json)
      → (m : Counterparty → Action (Node W) A) → (v : Option Counterparty) (n : Node W)
      → lookup from n.storage ≡ v
      → ((c : Counterparty) → run (t c) n ≡ finished (written json (m c) n))
      → run (known_steps num lib self from t) n
        ≡ finished (written json (check_for_counterparty v >>= m) n)
  unfolding run get_counterparty check_for_counterparty
  known_alone json t m (some c) n e h = ground (arith, h c)
  known_alone json t m none n e h = ground arith

  proposed_alone :
      (tx : NewChannelTx) (v : Option Counterparty) (n : Node W)
      → lookup from n.storage ≡ v
      → let propose = propose_channel_at num lib self from tx in
        run (proposed_steps num lib self from tx v) n
        ≡ finished (
            written signature_json
              (make_counterparty_if_none from self.crypto.own_address v >>= propose)
              n)
  unfolding run get_counterparty make_counterparty_if_none
  proposed_alone tx (some c) n e = propose_channel_at_alone tx c n
  proposed_alone tx none n e =
      let c = new (ltb self.crypto.own_address from) in
      ground (
        arith,
        new_counterparty_unknown from c n.storage e,
        stored from c n.storage,
        propose_channel_at_alone tx c (record n { storage = insert from c n.storage }),
      )

module _ (num : Num) (lib : Clarity) {W : Type 0} (self : Guac W) where
  -- A call of the user or a handler of a request that runs step by step, with nothing else between
  -- its steps, ends with the result and the node of the call or the handler as one action.
  pub job_alone :
      (job : Job) (n : Node W)
      → run (job_steps num lib self job) n ≡ finished (job_action num lib self job n)
  unfolding CounterpartyApi.propose_channel CounterpartyApi.propose_re_draw
      CounterpartyApi.notify_channel_opened CounterpartyApi.notify_re_draw
      CounterpartyApi.receive_payment run get_counterparty check_for_counterparty
  job_alone (own their call) n = user_call_alone num lib self their call n
  job_alone (asked (propose_channel from tx)) n =
      proposed_alone num lib self from tx (lookup from n.storage) n refl
  job_alone (asked (propose_re_draw from tx)) n =
      known_alone num lib self from signature_json _ (propose_re_draw_at num lib self from tx)
        (lookup from n.storage) n refl (λ c. propose_re_draw_at_alone num lib self from tx c n)
  job_alone (asked (notify_channel_opened from)) n =
      known_alone num lib self from unit_json _ (notify_channel_opened_at num lib self from)
        (lookup from n.storage) n refl (λ c. notify_channel_opened_at_alone num lib self from c n)
  job_alone (asked (notify_re_draw from)) n =
      known_alone num lib self from unit_json _ (notify_re_draw_at num lib self from)
        (lookup from n.storage) n refl (λ c. notify_re_draw_at_alone num lib self from c n)
  job_alone (asked (receive_payment from tx)) n =
      known_alone num lib self from sequence_json _ (receive_payment_at num lib self from tx)
        (lookup from n.storage) n refl (λ c. receive_payment_at_alone num lib self from tx c n)
