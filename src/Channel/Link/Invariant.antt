-- ===== src/Channel/Link/Invariant.antt =====
-- The invariant of two copies of a channel and of what was ever sent between them.
use guac_rs.Prelude.{ℕ, ◌+◌, ◌≤◌, ◌<◌, ◌≡◌, true, false, List, [], ◌∷◌, arith}
use guac_rs.Types.{Channel, UpdateTx}
use guac_rs.Channel.Payment.{total}
use guac_rs.Channel.Link.{Link, In, here, there, IsOpened}

abbrev pub All {ℓ κ} : {A : Type ℓ} → (A → Type κ) → List A → Type κ
All P [] = Unit
All P (x ∷ xs) = P x × All P xs

pub All-In {ℓ κ} : {A : Type ℓ} (P : A → Type κ) {a : A} (xs : List A) → In a xs → All P xs → P a
All-In P [] i h = elim i [ ]
All-In P (x ∷ xs) here h = h.0
All-In P (x ∷ xs) (there i) h = All-In P xs i h.1

-- An update of Alice's that Bob would still take offers him no more than Alice grants him now.
abbrev pub AliceSent : ℕ → Channel → Channel → UpdateTx → Type 0
AliceSent fund a b m =
    (m.sequence_number ≤ a.sequence_number)
    × (m.balance_0 + m.balance_1 ≡ fund)
    × (b.sequence_number < m.sequence_number → m.balance_1 ≤ a.balance_1)

abbrev pub BobSent : ℕ → Channel → Channel → UpdateTx → Type 0
BobSent fund a b m =
    (m.sequence_number ≤ b.sequence_number)
    × (m.balance_0 + m.balance_1 ≡ fund)
    × (a.sequence_number < m.sequence_number → b.balance_1 ≤ m.balance_1)

pub record IsLive (fund : ℕ) (l : Link) : Type 0 where
  pub alice_end : l.alice.i_am_0 ≡ true
  pub bob_end : l.bob.i_am_0 ≡ false
  pub alice_total : total l.alice ≡ fund
  pub bob_total : total l.bob ≡ fund
  pub ordered : l.bob.balance_1 ≤ l.alice.balance_1
  pub alice_sent : All (AliceSent fund l.alice l.bob) l.from_alice
  pub bob_sent : All (BobSent fund l.alice l.bob) l.from_bob

pub IsOpened-IsLive : {f g : ℕ} (l : Link) → IsOpened f g l → IsLive (f + g) l
IsOpened-IsLive l o = record {
  alice_end = o.alice_end;
  bob_end = o.bob_end;
  alice_total = omega arith;
  bob_total = omega arith;
  ordered = omega arith;
  alice_sent = rw o.none_from_alice tt;
  bob_sent = rw o.none_from_bob tt;
}

module _ (fund : ℕ) (a b a' b' : Channel) where
  pub AliceSent-grow :
      a.sequence_number ≤ a'.sequence_number
      → a.balance_1 ≤ a'.balance_1
      → b.sequence_number ≤ b'.sequence_number
      → (ms : List UpdateTx) → All (AliceSent fund a b) ms
      → All (AliceSent fund a' b') ms
  AliceSent-grow n s t [] h = tt
  AliceSent-grow n s t (m ∷ ms) h = (ground (arith, h.0.2), AliceSent-grow n s t ms h.1)

  pub BobSent-grow :
      b.sequence_number ≤ b'.sequence_number
      → b'.balance_1 ≤ b.balance_1
      → a.sequence_number ≤ a'.sequence_number
      → (ms : List UpdateTx) → All (BobSent fund a b) ms
      → All (BobSent fund a' b') ms
  BobSent-grow n s t [] h = tt
  BobSent-grow n s t (m ∷ ms) h = (ground (arith, h.0.2), BobSent-grow n s t ms h.1)

  -- Where the other side has passed every number that was sent, nothing sent counts any more.
  pub AliceSent-old :
      a.sequence_number ≤ b'.sequence_number
      → a.sequence_number ≤ a'.sequence_number
      → (ms : List UpdateTx) → All (AliceSent fund a b) ms
      → All (AliceSent fund a' b') ms
  AliceSent-old n s [] h = tt
  AliceSent-old n s (m ∷ ms) h = (ground arith, AliceSent-old n s ms h.1)

  pub BobSent-old :
      b.sequence_number ≤ a'.sequence_number
      → b.sequence_number ≤ b'.sequence_number
      → (ms : List UpdateTx) → All (BobSent fund a b) ms
      → All (BobSent fund a' b') ms
  BobSent-old n s [] h = tt
  BobSent-old n s (m ∷ ms) h = (ground arith, BobSent-old n s ms h.1)
