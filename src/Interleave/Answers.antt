-- ===== src/Interleave/Answers.antt =====
-- The handlers of guac_core/src/counterparty_api.rs, step by step, and their specification.
use guac_rs.Prelude.{◌==◌, ◌≡◌, refl, Option, none, some, ltb, arith, bytes_eq-eq}
use guac_rs.External.{Uint256, Address, Bytes, Num, Clarity, IsExact}
use guac_rs.Types.{
  Channel, Counterparty, new, other_creating, other_re_drawing, open_channel, NewChannelTx,
  ReDrawTx, UpdateTx, Error,
}
use guac_rs.Outcome.{Outcome, ok, err, panic, pure, raise, ensure, or_raise}
use guac_rs.Node.{Guac, Node, write, check_for_counterparty}
use guac_rs.Task.{Task, done, waiting, step, call, just}
use guac_rs.Channel
use guac_rs.Channel.Payment.{receive_payment-IsReceipt}
use guac_rs.CounterpartyApi.{check_new_channel, check_re_draw}
use guac_rs.CounterpartyApi.Transition.{Effect, IsFair, IsFairReDraw, PeerStep}
use guac_rs.HttpServer.{
  Json, Request, propose_channel, propose_re_draw, notify_channel_opened, notify_re_draw,
  receive_payment, sender,
}
use guac_rs.Interleave.{
  Meets, Meets-get, Meets-new, Meets-pure, Meets-raised, Meets-world, Meets-told, Meets-asks,
  Meets-check, Meets-test, Meets-clone, Meets-write, Meets-just,
}
use guac_rs.Interleave.Requests.{
  propose_channel_steps, propose_re_draw_steps, notify_channel_opened_steps, notify_re_draw_steps,
  opened_steps, receive_payment_steps, request_steps, known_steps,
}

module _ (W : Type 0) (their : Address) {A : Type 0}
    (Q : Outcome A → Option Counterparty → Type 0) where
  -- A call that ends with a write and a result.
  Meets-end :
      (v : Option Counterparty) (c : Counterparty) (a : A)
      → Q (ok a) (some c)
      → Meets their Q (call (write {W = W} their c) (λ _. just (pure a))) v
  Meets-end v c a q =
      Meets-write their Q _ v c (Meets-just their Q (pure a) (some c) (λ n. refl) (λ n. q))

  Meets-fail :
      (e : Error) (v : Option Counterparty)
      → Q (err e) v
      → Meets their Q (just {W = Node W} (raise e)) v
  Meets-fail e v h = Meets-just their Q (raise e) v (λ n. refl) (λ n. h)

module _ {W A : Type 0} (their : Address) (Q R : Outcome A → Option Counterparty → Type 0) where
  Meets-weaker :
      (t : Task (Node W) A) (v : Option Counterparty)
      → ((r : Outcome A) (w : Option Counterparty) → Q r w → R r w)
      → Meets their Q t v
      → Meets their R t v
  unfolding Meets
  Meets-weaker (done r) v h q = h r v q
  Meets-weaker waiting v h q = q
  Meets-weaker (step f k) v h q =
      λ n e. let (later, others) = q n e in (Meets-weaker (k n) _ h later, others)

-- The specification of an answer to a request.
abbrev pub Answers :
    {W : Type 0}
    → Guac W
    → Address
    → Option Counterparty
    → Outcome Json
    → Option Counterparty
    → Type 0
Answers self from before r after = Effect self.crypto.own_address from r before after

module _ (num : Num) (exact : IsExact num) (lib : Clarity) {W : Type 0} (self : Guac W)
    (from : Address) where
  open self use {blockchain_client, crypto}

  propose_channel_steps-Meets :
      (tx : NewChannelTx) (c : Counterparty)
      → Meets from
          (Answers self from (some c))
          (propose_channel_steps num lib self from tx c)
          (some c)
  unfolding check_new_channel
  propose_channel_steps-Meets tx (new i) =
      Meets-check from (Answers self from (some (new i))) _ _
        (check_new_channel crypto.own_address from i tx) (IsFair crypto.own_address from i tx)
        (λ n. ground arith) (λ n e. ground arith)
        (λ fair. Meets-end W from (Answers self from (some (new i))) _ _ _ (refl, fair)) (λ e. refl)
        refl
  propose_channel_steps-Meets tx c = Meets-fail W from (Answers self from (some c)) _ (some c) refl

  propose_re_draw_steps-Meets :
      (tx : ReDrawTx) (c : Counterparty)
      → Meets from
          (Answers self from (some c))
          (propose_re_draw_steps num lib self from tx c)
          (some c)
  unfolding check_re_draw
  propose_re_draw_steps-Meets tx (open_channel c) =
      Meets-check from (Answers self from (some (open_channel c))) _ _ (check_re_draw c tx)
        (IsFairReDraw c tx) (λ n. ground arith)
        (λ n e. ground (arith, bytes_eq-eq tx.channel_id c.channel_id))
        (λ fair. Meets-end W from (Answers self from (some (open_channel c))) _ _ _ (refl, fair))
        (λ e. refl) refl
  propose_re_draw_steps-Meets tx c = Meets-fail W from (Answers self from (some c)) _ (some c) refl

  notify_channel_opened_steps-Meets :
      (c : Counterparty)
      → Meets from
          (Answers self from (some c))
          (notify_channel_opened_steps num lib self from c)
          (some c)
  notify_channel_opened_steps-Meets (other_creating tx i) =
      Meets-world from (Answers self from (some (other_creating tx i))) _ _
        (blockchain_client.check_for_open _ _) opened (λ e. refl) refl
    where
      opened :
          (id : Option Bytes)
          → Meets from
              (Answers self from (some (other_creating tx i)))
              (opened_steps num lib self from tx i id)
              (some (other_creating tx i))
      opened (some id) =
          Meets-end W from (Answers self from (some (other_creating tx i))) _ _ _
            (refl, refl, refl, refl, refl)
      opened none =
          Meets-fail W from (Answers self from (some (other_creating tx i))) _
            (some (other_creating tx i)) refl
  notify_channel_opened_steps-Meets c =
      Meets-fail W from (Answers self from (some c)) _ (some c) refl

  notify_re_draw_steps-Meets :
      (c : Counterparty)
      → Meets from (Answers self from (some c)) (notify_re_draw_steps num lib self from c) (some c)
  notify_re_draw_steps-Meets (other_re_drawing tx c) =
      Meets-told from (Answers self from (some (other_re_drawing tx c))) _ _
        (blockchain_client.check_for_re_draw c.channel_id)
        (Meets-end W from (Answers self from (some (other_re_drawing tx c))) _ _ _ refl) (λ e. refl)
        refl
  notify_re_draw_steps-Meets c = Meets-fail W from (Answers self from (some c)) _ (some c) refl

  taken :
      (c d : Channel) (u : UpdateTx) (seq : Option Uint256)
      → Channel.receive_payment num u c ≡ (ok seq, d)
      → PeerStep crypto.own_address from (open_channel c) (open_channel d)
  taken c d u seq e = ground (arith, receive_payment-IsReceipt num exact c u)

  receive_payment_steps-Meets :
      (u : UpdateTx) (c : Counterparty)
      → Meets from
          (Answers self from (some c))
          (receive_payment_steps num lib self from u c)
          (some c)
  receive_payment_steps-Meets u (open_channel c) =
      let Q = Answers self from (some (open_channel c)) in
      Meets-asks from Q _ _ (or_raise _ _) (λ n. ground arith)
        (λ sig.
          Meets-asks from Q _ _ (or_raise (lib.recover sig _) _) (λ n. ground arith)
            (λ signer.
              Meets-test from Q _ _ (ensure (signer == from) _) (λ n. ground arith)
                (Meets-clone from Q _ _ (Channel.receive_payment num u) c
                  (λ seq d e. Meets-end W from Q _ _ _ (taken c d u seq e)) (λ e. refl) refl)
                (λ e. refl) refl)
            (λ e. refl) refl)
        (λ e. refl) refl
  receive_payment_steps-Meets u c = Meets-fail W from (Answers self from (some c)) _ (some c) refl

module _ (num : Num) (exact : IsExact num) (lib : Clarity) {W : Type 0} (self : Guac W) where
  known_steps-Meets :
      (from : Address) (handle : Counterparty → Task (Node W) Json) (v : Option Counterparty)
      → ((c : Counterparty) → Meets from (Answers self from (some c)) (handle c) (some c))
      → Meets from (Answers self from v) (known_steps num lib self from handle) v
  unfolding check_for_counterparty
  known_steps-Meets from handle (some c) h =
      Meets-get from _ _ (some c) (Meets-pure from _ handle (some c) c (h c))
  known_steps-Meets from handle none h =
      Meets-get from _ _ none (Meets-raised from (Answers self from none) handle none _ tt)

  -- An unknown caller is one that is `new`.
  from_new :
      (from : Address) (r : Outcome Json) (after : Option Counterparty)
      → Answers self from (some (new (ltb self.crypto.own_address from))) r after
      → Answers self from none r after
  from_new from (ok a) (some d) h = h
  from_new from (err e) (some d) h = h
  from_new from panic (some d) h = h
  from_new from (ok a) none h = h
  from_new from (err e) none h = tt
  from_new from panic none h = tt

  pub request_steps-Meets :
      (request : Request) (v : Option Counterparty)
      → Meets
          (sender request)
          (Answers self (sender request) v)
          (request_steps num lib self request)
          v
  request_steps-Meets (propose_channel from tx) (some c) =
      Meets-get from _ _ (some c) (propose_channel_steps-Meets num exact lib self from tx c)
  request_steps-Meets (propose_channel from tx) none =
      let c = new (ltb self.crypto.own_address from) in
      Meets-get from _ _ none (
        Meets-new from _ _ c (
          Meets-get from _ _ (some c) (
            Meets-pure from _ (propose_channel_steps num lib self from tx) (some c) c (
              Meets-weaker from _ _ _ (some c) (from_new from)
                (propose_channel_steps-Meets num exact lib self from tx c)))))
  request_steps-Meets (propose_re_draw from tx) v =
      known_steps-Meets from (propose_re_draw_steps num lib self from tx) v
        (propose_re_draw_steps-Meets num exact lib self from tx)
  request_steps-Meets (notify_channel_opened from) v =
      known_steps-Meets from (notify_channel_opened_steps num lib self from) v
        (notify_channel_opened_steps-Meets num exact lib self from)
  request_steps-Meets (notify_re_draw from) v =
      known_steps-Meets from (notify_re_draw_steps num lib self from) v
        (notify_re_draw_steps-Meets num exact lib self from)
  request_steps-Meets (receive_payment from tx) v =
      known_steps-Meets from (receive_payment_steps num lib self from tx) v
        (receive_payment_steps-Meets num exact lib self from tx)
