-- ===== src/CounterpartyApi/Receipt.antt =====
-- Whose payments `Guac::receive_payment` takes (guac_core/src/counterparty_api.rs).
use guac_rs.Prelude.{
  ◌≡◌, refl, Option, none, some, String, arith, inl, inr, if◌then◌else◌, Option-cases,
}
use guac_rs.External.{Address, Uint256, Num, Clarity}
use guac_rs.Types.{
  Channel, Counterparty, new, creating, other_creating, re_drawing, other_re_drawing, open_channel,
  UpdateTx,
}
use guac_rs.Outcome.{Outcome, ok, err, panic}
use guac_rs.Crypto.{Crypto, update_fingerprint}
use guac_rs.Storage.{lookup, insert}
use guac_rs.Node.{Guac, Node}
use guac_rs.Channel
use guac_rs.CounterpartyApi.{receive_payment_at, receive_payment}

-- The address whose key signed the update for the sender's end of the channel, if one did.
abbrev pub signer : Clarity → Crypto → Channel → UpdateTx → Option Address
signer lib crypto c u = elim (if c.i_am_0 then u.signature_1 else u.signature_0) [
  | none ↦ none
  | some sig ↦ lib.recover sig (update_fingerprint lib u crypto.contract_address)
]

module _ (num : Num) (lib : Clarity) {W : Type 0} (self : Guac W) (from : Address)
    (u : UpdateTx) where
  -- What a payment may do: if it is taken, the caller's own key has signed it, the open channel takes
  -- it, and the node stores the channel as it then is.
  abbrev pub Receives : Option Counterparty → Node W → Outcome (Option Uint256) × Node W → Type 0
  Receives (some (open_channel c)) n (ok seq, n') =
      let (r, d) = Channel.receive_payment num u c in
      (signer lib self.crypto c u ≡ some from)
      × (r ≡ ok seq)
      × (n' ≡ record n { storage = insert from (open_channel d) n.storage })
  Receives _ n (ok seq, n') = ⊥
  Receives _ n (err e, n') = n' ≡ n
  Receives _ n (panic, n') = n' ≡ n

  receive_payment_at-Receives :
      (c : Counterparty) (n : Node W)
      → Receives (some c) n (receive_payment_at num lib self from u c n)
  receive_payment_at-Receives (open_channel c) n = ground arith
  receive_payment_at-Receives (new i) n = refl
  receive_payment_at-Receives (creating tx i) n = refl
  receive_payment_at-Receives (other_creating tx i) n = refl
  receive_payment_at-Receives (re_drawing tx c) n = refl
  receive_payment_at-Receives (other_re_drawing tx c) n = refl

  -- A call of `receive_payment` that succeeds found an open channel with the caller, an update
  -- whose fingerprint for this node's contract is signed, at the other end's place, by a key that
  -- is recovered to the caller's address, and that the channel takes with just this answer; it
  -- stores the channel as that leaves it, and changes nothing else of the node. A call that fails
  -- or panics leaves the whole node as it was, and so does every call of an unknown caller or in
  -- another state.
  pub receive_payment-Receives :
      (url : String) (n : Node W)
      → Receives (lookup from n.storage) n (receive_payment num lib self from url u n)
  unfolding receive_payment
  receive_payment-Receives url n = elim (Option-cases (lookup from n.storage)) [
    | inl unknown ↦ rw unknown refl
    | inr (c, found) ↦ rw found (receive_payment_at-Receives c n)
  ]
