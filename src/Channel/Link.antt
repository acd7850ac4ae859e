-- ===== src/Channel/Link.antt =====
-- The setting of the "Proof of balance liveness" at the head of guac_core/src/channel.rs: Alice
-- (end 0) and Bob (end 1) each keep a copy of the channel and send updates that may be lost,
-- delayed, repeated or overtaken. `s` of that text is `balance_1`.
pub mod Invariant
pub mod Steps
pub mod Liveness
use guac_rs.Prelude.{ℕ, ◌+◌, ◌≤◌, ◌≡◌, true, false, Option, none, some, List, [], ◌∷◌}
use guac_rs.External.{Uint256, Num}
use guac_rs.Types.{Channel, UpdateTx}
use guac_rs.Outcome.{Outcome, ok}
use guac_rs.Channel.{make_payment, receive_payment, check_accrual}

pub record Link : Type 0 where
  pub alice : Channel
  pub bob : Channel
  pub from_alice : List UpdateTx  -- every update that was ever sent
  pub from_bob : List UpdateTx

pub data In {ℓ} {A : Type ℓ} (a : A) : List A → Type ℓ where
  here : {xs : List A} → In a (a ∷ xs)
  there : {b : A} {xs : List A} → In a xs → In a (b ∷ xs)

-- A number that the other side answered to an update of ours is not below our own.
abbrev pub IsAnswer : Channel → Option Uint256 → Type 0
IsAnswer c none = Unit
IsAnswer c (some seq) = c.sequence_number ≤ seq

pub data Step (num : Num) (l l' : Link) : Type 0 where
  alice_pays :
      (amount : ℕ) (cur : Option Uint256) {u : UpdateTx} {a : Channel}
      → IsAnswer l.alice cur
      → make_payment num amount cur l.alice ≡ (ok u, a)
      → l' ≡ record l { alice = a; from_alice = u ∷ l.from_alice }
      → Step num l l'
  bob_pays :
      (amount : ℕ) (cur : Option Uint256) {u : UpdateTx} {b : Channel}
      → IsAnswer l.bob cur
      → make_payment num amount cur l.bob ≡ (ok u, b)
      → l' ≡ record l { bob = b; from_bob = u ∷ l.from_bob }
      → Step num l l'
  bob_receives :
      (u : UpdateTx) {r : Outcome (Option Uint256)} {b : Channel}
      → In u l.from_alice
      → receive_payment num u l.bob ≡ (r, b)
      → l' ≡ record l { bob = b }
      → Step num l l'
  alice_receives :
      (u : UpdateTx) {r : Outcome (Option Uint256)} {a : Channel}
      → In u l.from_bob
      → receive_payment num u l.alice ≡ (r, a)
      → l' ≡ record l { alice = a }
      → Step num l l'
  alice_checks : l' ≡ record l { alice = (check_accrual l.alice).1 } → Step num l l'
  bob_checks : l' ≡ record l { bob = (check_accrual l.bob).1 } → Step num l l'

-- A freshly opened channel, of which the ends hold `fund_0` and `fund_1`.
pub record IsOpened (fund_0 fund_1 : ℕ) (l : Link) : Type 0 where
  pub alice_end : l.alice.i_am_0 ≡ true
  pub bob_end : l.bob.i_am_0 ≡ false
  pub alice_0 : l.alice.balance_0 ≡ fund_0
  pub alice_1 : l.alice.balance_1 ≡ fund_1
  pub bob_0 : l.bob.balance_0 ≡ fund_0
  pub bob_1 : l.bob.balance_1 ≡ fund_1
  pub none_from_alice : l.from_alice ≡ []
  pub none_from_bob : l.from_bob ≡ []

pub data Reach (num : Num) (start : Link) : Link → Type 0 where
  begin : Reach num start start
  later : {l l' : Link} → Reach num start l → Step num l l' → Reach num start l'
