-- ===== src/HttpServer/Safety.antt =====
-- What no sequence of requests can do to a node.
use native.Mathlib.Decide.{ℕ_discrete}
use guac_rs.Prelude.{ℕ, ◌≡◌, ◌≢◌, ◌≤◌, Option, none, some, List, [], ◌∷◌, arith}
use guac_rs.External.{Address, Num, IsExact, Clarity}
use guac_rs.Types.{
  Counterparty, new, creating, other_creating, re_drawing, other_re_drawing, open_channel,
}
use guac_rs.Outcome.{Outcome, ok, err, panic}
use guac_rs.Channel.{mine}
use guac_rs.Channel.Payment.{my_balance}
use guac_rs.Storage.{Storage, lookup}
use guac_rs.Node.{Guac, Node}
use guac_rs.CounterpartyApi.{as_api}
use guac_rs.CounterpartyApi.Transition.{PeerStep, Effect, Refused}
use guac_rs.CounterpartyApi.Effect.{
  Keeps, propose_channel-Keeps, propose_re_draw-Keeps, notify_channel_opened-Keeps,
  notify_re_draw-Keeps, receive_payment-Keeps,
}
use guac_rs.CounterpartyApi.Others.{
  propose_channel-others, propose_re_draw-others, notify_channel_opened-others,
  notify_re_draw-others, receive_payment-others,
}
use guac_rs.HttpServer.{
  Request, propose_channel, propose_re_draw, notify_channel_opened, notify_re_draw, receive_payment,
  sender, serve, serve_all,
}

-- What this node owns in the channel with a counterparty.
abbrev pub owned : Counterparty → ℕ
owned (new i) = 0
owned (creating tx i) = mine i tx.balance_0 tx.balance_1
owned (other_creating tx i) = mine i tx.balance_0 tx.balance_1
owned (re_drawing tx c) = my_balance c
owned (other_re_drawing tx c) = my_balance c
owned (open_channel c) = my_balance c

abbrev pub owned_with : Option Counterparty → ℕ
owned_with none = 0
owned_with (some c) = owned c

-- A re-draw that the other side proposed leaves this node's balance alone.
abbrev pub IsSound : Option Counterparty → Type 0
IsSound (some (other_re_drawing tx c)) =
    mine c.i_am_0 tx.new_balance_0 tx.new_balance_1 ≡ my_balance c
IsSound _ = Unit

PeerStep-owned :
    (my from : Address) (c d : Counterparty)
    → IsSound (some c)
    → PeerStep my from c d
    → IsSound (some d) × (owned c ≤ owned d)
PeerStep-owned my from (new i) (other_creating tx j) s h = ground arith
PeerStep-owned my from (other_creating tx i) (open_channel d) s h = ground arith
PeerStep-owned my from (open_channel c) (other_re_drawing tx d) s h = ground arith
PeerStep-owned my from (other_re_drawing tx c) (open_channel d) s h = ground arith
PeerStep-owned my from (open_channel c) (open_channel d) s h = ground arith
PeerStep-owned my from _ _ s h = absurd h

Refused-owned :
    (my from : Address) (before after : Option Counterparty)
    → IsSound before
    → Refused my from before after
    → IsSound after × (owned_with before ≤ owned_with after)
Refused-owned my from none none s h = (tt, omega arith)
Refused-owned my from none (some d) s h = rw h (tt, omega arith)
Refused-owned my from (some c) (some d) s h = rw h (s, omega arith)
Refused-owned my from (some c) none s h = absurd h

Effect-owned :
    {A : Type 0} (my from : Address) (r : Outcome A) (before after : Option Counterparty)
    → IsSound before
    → Effect my from r before after
    → IsSound after × (owned_with before ≤ owned_with after)
Effect-owned my from (ok a) none (some (other_creating tx i)) s h = ground arith
Effect-owned my from (ok a) none (some d) s h = absurd h
Effect-owned my from (ok a) (some c) (some d) s h = PeerStep-owned my from c d s h
Effect-owned my from (ok a) none none s h = absurd h
Effect-owned my from (ok a) (some c) none s h = absurd h
Effect-owned my from (err e) before after s h = Refused-owned my from before after s h
Effect-owned my from panic before after s h = Refused-owned my from before after s h

-- The re-draws that the other sides proposed leave this node's balances alone.
abbrev pub IsSafe : Storage → Type 0
IsSafe storage = (k : Address) → IsSound (lookup k storage)

-- No counterparty's entry holds less for this node.
abbrev pub NoLoss : Storage → Storage → Type 0
NoLoss before after = (k : Address) → owned_with (lookup k before) ≤ owned_with (lookup k after)

module _ (num : Num) (exact : IsExact num) (lib : Clarity) {W : Type 0} (self : Guac W) where
  open self use {crypto}

  -- From what a handler does to its caller's entry and to the others.
  handled :
      {A : Type 0} (from : Address) (n : Node W) (p : Outcome A × Node W)
      → Keeps num lib self from n p
      → ((k : Address) → k ≢ from → lookup k p.1.storage ≡ lookup k n.storage)
      → IsSafe n.storage
      → IsSafe p.1.storage × NoLoss n.storage p.1.storage
  handled from n (r, n') kept others safe =
      let here = Effect-owned crypto.own_address from r _ _ (safe from) kept in
      (
        λ k. elim (ℕ_discrete k from) [ yes e ↦ rw e here.0 | no ne ↦ rw (others k ne) (safe k) ],
        λ k. elim (ℕ_discrete k from) [
          | yes e ↦ rw e here.1
          | no ne ↦ rw (others k ne) (omega arith)
        ],
      )

  serve-NoLoss :
      (request : Request) (n : Node W)
      → IsSafe n.storage
      → let n' = (serve (as_api num lib self) request n).1 in
        IsSafe n'.storage × NoLoss n.storage n'.storage
  unfolding serve
  serve-NoLoss (propose_channel from tx) n =
      handled from n ((as_api num lib self).propose_channel from "" tx n)
        (propose_channel-Keeps num lib self from "" tx n)
        (λ k. propose_channel-others num lib self from k "" tx n)
  serve-NoLoss (propose_re_draw from tx) n =
      handled from n ((as_api num lib self).propose_re_draw from "" tx n)
        (propose_re_draw-Keeps num lib self from "" tx n)
        (λ k. propose_re_draw-others num lib self from k "" tx n)
  serve-NoLoss (notify_channel_opened from) n =
      handled from n ((as_api num lib self).notify_channel_opened from "" n)
        (notify_channel_opened-Keeps num lib self from "" n)
        (λ k. notify_channel_opened-others num lib self from k "" n)
  serve-NoLoss (notify_re_draw from) n =
      handled from n ((as_api num lib self).notify_re_draw from "" n)
        (notify_re_draw-Keeps num lib self from "" n)
        (λ k. notify_re_draw-others num lib self from k "" n)
  serve-NoLoss (receive_payment from u) n =
      handled from n ((as_api num lib self).receive_payment from "" u n)
        (receive_payment-Keeps num exact lib self from "" u n)
        (λ k. receive_payment-others num lib self from k "" u n)

  -- Given exact arithmetic: let a node serve any list of requests, from any senders, with a chain
  -- that may answer anything. If at the start every re-draw that another side has proposed leaves
  -- this node's own balance as its channel has it, that is so at the end too, and with every
  -- address the node then owns at least what it owned at the start. (It owns its side of the
  -- balances of a channel, or of one that is being created, and 0 with a `new` or an unknown
  -- counterparty.)
  pub serve_all-NoLoss :
      (requests : List Request) (n : Node W)
      → IsSafe n.storage
      → let n' = serve_all (as_api num lib self) requests n in
        IsSafe n'.storage × NoLoss n.storage n'.storage
  unfolding serve_all
  serve_all-NoLoss [] n safe = (safe, λ k. omega arith)
  serve_all-NoLoss (request ∷ rest) n safe =
      let (safe', more) = serve-NoLoss request n safe in
      let (safe'', more') = serve_all-NoLoss rest (serve (as_api num lib self) request n).1 safe' in
      (safe'', λ k. omega (arith, more k, more' k))

module _ (num : Num) (lib : Clarity) {W : Type 0} (self : Guac W) where
  -- Serving a request leaves the entry of every address but the sender's as it was.
  pub serve-others :
      (request : Request) (n : Node W) (k : Address)
      → k ≢ sender request
      → lookup k (serve (as_api num lib self) request n).1.storage ≡ lookup k n.storage
  unfolding serve
  serve-others (propose_channel from tx) n k = propose_channel-others num lib self from k "" tx n
  serve-others (propose_re_draw from tx) n k = propose_re_draw-others num lib self from k "" tx n
  serve-others (notify_channel_opened from) n k =
      notify_channel_opened-others num lib self from k "" n
  serve-others (notify_re_draw from) n k = notify_re_draw-others num lib self from k "" n
  serve-others (receive_payment from u) n k = receive_payment-others num lib self from k "" u n
