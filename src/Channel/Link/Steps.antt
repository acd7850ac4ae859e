-- ===== src/Channel/Link/Steps.antt =====
-- Every step keeps the invariant.
use guac_rs.Prelude.{ℕ, ◌+◌, ◌<◌, ◌≡◌, ◌⊎◌, inl, inr, Option, none, some, ◌∷◌, arith}
use guac_rs.External.{Uint256, Num, IsExact}
use guac_rs.Types.{Channel, UpdateTx}
use guac_rs.Outcome.{Outcome, ok, err, panic}
use guac_rs.Channel.{check_accrual}
use guac_rs.Channel.Payment.{
  total, IsPayment, IsReceipt, base, make_payment-IsPayment, receive_payment-IsReceipt,
}
use guac_rs.Channel.Link.{
  Link, IsAnswer, Step, alice_pays, bob_pays, bob_receives, alice_receives, alice_checks,
  bob_checks, Reach, begin, later,
}
use guac_rs.Channel.Link.Invariant.{
  All-In, AliceSent, BobSent, IsLive, AliceSent-grow, BobSent-grow, AliceSent-old, BobSent-old,
}

module _ {fund : ℕ} where
  alice_pays-IsLive :
      (l : Link) (amount : ℕ) (cur : Option Uint256) (u : UpdateTx) (a : Channel)
      → IsAnswer l.alice cur
      → IsPayment l.alice amount (base l.alice cur) (ok u, a)
      → IsLive fund l
      → IsLive fund (record l { alice = a; from_alice = u ∷ l.from_alice })
  alice_pays-IsLive l amount cur u a ans p h = record {
    alice_end = ground arith;
    bob_end = h.bob_end;
    alice_total = ground arith;
    bob_total = h.bob_total;
    ordered = ground arith;
    alice_sent = (
      ground arith,
      AliceSent-grow fund l.alice l.bob a l.bob (ground arith) (ground arith) (ground arith)
          l.from_alice h.alice_sent,
    );
    bob_sent =
        BobSent-grow fund l.alice l.bob a l.bob (ground arith) (ground arith) (ground arith)
          l.from_bob h.bob_sent;
  }

  bob_pays-IsLive :
      (l : Link) (amount : ℕ) (cur : Option Uint256) (u : UpdateTx) (b : Channel)
      → IsAnswer l.bob cur
      → IsPayment l.bob amount (base l.bob cur) (ok u, b)
      → IsLive fund l
      → IsLive fund (record l { bob = b; from_bob = u ∷ l.from_bob })
  bob_pays-IsLive l amount cur u b ans p h = record {
    alice_end = h.alice_end;
    bob_end = ground arith;
    alice_total = h.alice_total;
    bob_total = ground arith;
    ordered = ground arith;
    alice_sent =
        AliceSent-grow fund l.alice l.bob l.alice b (ground arith) (ground arith) (ground arith)
          l.from_alice h.alice_sent;
    bob_sent = (
      ground arith,
      BobSent-grow fund l.alice l.bob l.alice b (ground arith) (ground arith) (ground arith)
          l.from_bob h.bob_sent,
    );
  }

-- What a side's copy is after an update arrived: as it was, or the update's.
abbrev Took : Channel → UpdateTx → Channel → Type 0
Took c u after =
    ((after.i_am_0 ≡ c.i_am_0)
      × (after.sequence_number ≡ c.sequence_number)
      × (after.balance_0 ≡ c.balance_0)
      × (after.balance_1 ≡ c.balance_1))
    ⊎ ((after.i_am_0 ≡ c.i_am_0)
        × (c.sequence_number < u.sequence_number)
        × (u.balance_0 + u.balance_1 ≡ total c)
        × (after.sequence_number ≡ u.sequence_number)
        × (after.balance_0 ≡ u.balance_0)
        × (after.balance_1 ≡ u.balance_1))

IsReceipt-Took :
    (c : Channel) (u : UpdateTx) (r : Outcome (Option Uint256)) (after : Channel)
    → IsReceipt c u (r, after)
    → Took c u after
IsReceipt-Took c u (ok none) after h = ground arith
IsReceipt-Took c u (ok (some q)) after h = ground arith
IsReceipt-Took c u (err e) after h = ground arith
IsReceipt-Took c u panic after h = ground arith

module _ {fund : ℕ} where
  bob_receives-IsLive :
      (l : Link) (u : UpdateTx) (b : Channel)
      → AliceSent fund l.alice l.bob u
      → Took l.bob u b
      → IsLive fund l
      → IsLive fund (record l { bob = b })
  bob_receives-IsLive l u b sent (inl same) h = record {
    alice_end = h.alice_end;
    bob_end = ground arith;
    alice_total = h.alice_total;
    bob_total = ground arith;
    ordered = ground arith;
    alice_sent =
        AliceSent-grow fund l.alice l.bob l.alice b (ground arith) (ground arith) (ground arith)
          l.from_alice h.alice_sent;
    bob_sent =
        BobSent-grow fund l.alice l.bob l.alice b (ground arith) (ground arith) (ground arith)
          l.from_bob h.bob_sent;
  }
  bob_receives-IsLive l u b sent (inr took) h = record {
    alice_end = h.alice_end;
    bob_end = ground arith;
    alice_total = h.alice_total;
    bob_total = ground arith;
    ordered = ground (arith, sent.2);
    alice_sent =
        AliceSent-grow fund l.alice l.bob l.alice b (ground arith) (ground arith) (ground arith)
          l.from_alice h.alice_sent;
    bob_sent =
        BobSent-old fund l.alice l.bob l.alice b (ground arith) (ground arith) l.from_bob
          h.bob_sent;
  }

  alice_receives-IsLive :
      (l : Link) (u : UpdateTx) (a : Channel)
      → BobSent fund l.alice l.bob u
      → Took l.alice u a
      → IsLive fund l
      → IsLive fund (record l { alice = a })
  alice_receives-IsLive l u a sent (inl same) h = record {
    alice_end = ground arith;
    bob_end = h.bob_end;
    alice_total = ground arith;
    bob_total = h.bob_total;
    ordered = ground arith;
    alice_sent =
        AliceSent-grow fund l.alice l.bob a l.bob (ground arith) (ground arith) (ground arith)
          l.from_alice h.alice_sent;
    bob_sent =
        BobSent-grow fund l.alice l.bob a l.bob (ground arith) (ground arith) (ground arith)
          l.from_bob h.bob_sent;
  }
  alice_receives-IsLive l u a sent (inr took) h = record {
    alice_end = ground arith;
    bob_end = h.bob_end;
    alice_total = ground arith;
    bob_total = h.bob_total;
    ordered = ground (arith, sent.2);
    alice_sent =
        AliceSent-old fund l.alice l.bob a l.bob (ground arith) (ground arith) l.from_alice
          h.alice_sent;
    bob_sent =
        BobSent-grow fund l.alice l.bob a l.bob (ground arith) (ground arith) (ground arith)
          l.from_bob h.bob_sent;
  }

module _ (num : Num) (exact : IsExact num) {fund : ℕ} where
  Step-IsLive : {l l' : Link} → Step num l l' → IsLive fund l → IsLive fund l'
  unfolding check_accrual
  Step-IsLive {l} (alice_pays amount cur {u} {a} ans e q) h = rw q (
      alice_pays-IsLive l amount cur u a ans
        (rw e at (make_payment-IsPayment num exact l.alice amount cur)) h)
  Step-IsLive {l} (bob_pays amount cur {u} {b} ans e q) h = rw q (
      bob_pays-IsLive l amount cur u b ans
        (rw e at (make_payment-IsPayment num exact l.bob amount cur)) h)
  Step-IsLive {l} (bob_receives u {r} {b} i e q) h = rw q (
      bob_receives-IsLive l u b (All-In _ l.from_alice i h.alice_sent)
        (IsReceipt-Took l.bob u r b (rw e at (receive_payment-IsReceipt num exact l.bob u))) h)
  Step-IsLive {l} (alice_receives u {r} {a} i e q) h = rw q (
      alice_receives-IsLive l u a (All-In _ l.from_bob i h.bob_sent)
        (IsReceipt-Took l.alice u r a (rw e at (receive_payment-IsReceipt num exact l.alice u))) h)
  Step-IsLive {l} (alice_checks q) h = rw q (record {
    alice_end = h.alice_end;
    bob_end = h.bob_end;
    alice_total = h.alice_total;
    bob_total = h.bob_total;
    ordered = h.ordered;
    alice_sent = h.alice_sent;
    bob_sent = h.bob_sent;
  })
  Step-IsLive {l} (bob_checks q) h = rw q (record {
    alice_end = h.alice_end;
    bob_end = h.bob_end;
    alice_total = h.alice_total;
    bob_total = h.bob_total;
    ordered = h.ordered;
    alice_sent = h.alice_sent;
    bob_sent = h.bob_sent;
  })

  pub Reach-IsLive : {start l : Link} → Reach num start l → IsLive fund start → IsLive fund l
  Reach-IsLive begin h = h
  Reach-IsLive (later r s) h = Step-IsLive s (Reach-IsLive r h)
