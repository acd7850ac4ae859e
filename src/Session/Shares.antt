-- ===== src/Session/Shares.antt =====
-- What two connected nodes hold of one channel, and how the calls of guac_core/src/channel_manager.rs
-- move it.
use guac_rs.Prelude.{ℕ, ◌+◌, ◌-◌, ◌^◌, ◌≤◌, ◌<◌, ◌≡◌, ◌≢◌, ap, refl, sym, none, some, String, arith}
use guac_rs.External.{Address, Bytes, Num, Clarity, IsExact}
use guac_rs.Types.{Channel, open_channel, UpdateTx, Error}
use guac_rs.Outcome.{Outcome, ok, err}
use guac_rs.Crypto.{Crypto}
use guac_rs.Storage.{lookup, lookup-insert}
use guac_rs.Node.{CounterpartyApi, Guac, Node}
use guac_rs.Channel.Payment.{my_balance, paid, received, update_of}
use guac_rs.Channel.Exchange.{IsMirror}
use guac_rs.ChannelManager.Payment.{make_payment_failed}
use guac_rs.ChannelManager.{fill_channel, withdraw, make_payment}
use guac_rs.TwoParty.{connected, Signs}
use guac_rs.TwoParty.Opening.{fill_channel_opens_both}
use guac_rs.TwoParty.Payment.{make_payment_catches_up}
use guac_rs.TwoParty.Refill.{fill_channel_refills_copies}
use guac_rs.TwoParty.Withdrawal.{withdraw_copies}
use guac_rs.Session.{flipped}
use guac_rs.Session.Chain.{Mines}

-- Open copies of one channel at a node with the address `k` and at the other, `j`: the balances of
-- the two, the numbers of their copies, and their accruals.
pub record Shares {W : Type 0} (k j : Address) (n : Node (Node W)) (x y s t p q : ℕ) : Type 0 where
  pub a : Channel
  pub b : Channel
  pub here : lookup j n.storage ≡ some (open_channel a)
  pub there : lookup k n.world.storage ≡ some (open_channel b)
  pub copy : IsMirror a (record b { sequence_number = a.sequence_number })
  pub mine : my_balance a ≡ x
  pub theirs : my_balance b ≡ y
  pub number : a.sequence_number ≡ s
  pub their_number : b.sequence_number ≡ t
  pub accrued : a.accrual ≡ p
  pub they_accrued : b.accrual ≡ q

-- As the other node sees it.
pub Shares-flipped :
    {W : Type 0} {k j : Address} {n : Node (Node W)} {x y s t p q : ℕ}
    → Shares k j n x y s t p q
    → Shares j k (flipped n) y x t s q p
Shares-flipped h = record {
  a = h.b;
  b = h.a;
  here = h.there;
  there = h.here;
  copy = record {
    ids = sym h.copy.ids;
    sequences = refl;
    balances_0 = sym h.copy.balances_0;
    balances_1 = sym h.copy.balances_1;
    ends = ground (arith, h.copy.ends);
  };
  mine = h.theirs;
  theirs = h.mine;
  number = h.their_number;
  their_number = h.number;
  accrued = h.they_accrued;
  they_accrued = h.accrued;
}

whole : {A B : Type 0} (p : A × B) (x : A) → p.0 ≡ x → p ≡ (x, p.1)
whole p x e = ap (λ a. (a, p.1)) e

module _ (num : Num) (exact : IsExact num) (lib : Clarity) {W : Type 0} (crypto : Crypto)
    (bob : Guac W) (signs : Signs lib crypto) (bob_signs : Signs lib bob.crypto)
    (one_contract : bob.crypto.contract_address ≡ crypto.contract_address) (height : W → ℕ)
    (id : Bytes) (mines : Mines bob.blockchain_client height id) where
  abbrev Moves : Outcome (Unit {0}) × Node (Node W) → (x y s t p q : ℕ) → Type 0
  Moves (r, n') x y s t p q =
      (r ≡ ok tt) × Shares crypto.own_address bob.crypto.own_address n' x y s t p q

  module _ (url : String) (amount : ℕ) (n : Node (Node W)) where
    pub fill_channel_starts :
        crypto.own_address ≢ bob.crypto.own_address
        → lookup bob.crypto.own_address n.storage ≡ none
        → lookup crypto.own_address n.world.storage ≡ none
        → Moves
            (fill_channel num lib
              (connected num lib crypto bob)
              bob.crypto.own_address
              url
              amount
              n)
            amount
            0
            0
            0
            0
            0
    fill_channel_starts two_nodes unknown_a unknown_b =
        let (done, here, there, copy, mine, theirs) =
          fill_channel_opens_both num exact lib crypto bob bob_signs one_contract two_nodes url
            amount (height n.world.world) id n _ _ _ unknown_a unknown_b (mines.soon n.world.world)
            (whole _ _ (mines.blocks n.world.world)) (whole _ _ (mines.opens _ _ _ refl refl))
            (whole _ _ (mines.shows _ _ _)) in
        (
          done,
          record {
            a = _;
            b = _;
            here = here;
            there = there;
            copy = copy;
            mine = mine;
            theirs = theirs;
            number = refl;
            their_number = refl;
            accrued = refl;
            they_accrued = refl;
          },
        )

    module _ (x y s t p q : ℕ) (h : Shares crypto.own_address bob.crypto.own_address n x y s t p q)
        (behind : t ≤ s) (room : s + 1 < 2 ^ 256) where
      pub fill_channel-Moves :
          x + amount < 2 ^ 256
          → Moves
              (fill_channel num lib
                (connected num lib crypto bob)
                bob.crypto.own_address
                url
                amount
                n)
              (x + amount)
              y
              s
              (s + 1)
              p
              q
      fill_channel-Moves fits =
          let (done, here, there, mine, theirs, copy, ahead) =
            fill_channel_refills_copies num exact lib crypto bob bob_signs one_contract h.a h.b url
              amount (height n.world.world) n _ _ _ h.here h.there h.copy (ground arith)
              (ground arith) (mines.soon n.world.world) (ground arith)
              (whole _ _ (mines.blocks n.world.world)) (whole _ _ (mines.refills _ _ _ refl refl))
              (whole _ _ (mines.confirms _ _)) in
          (
            done,
            record {
              a = _;
              b = _;
              here = here;
              there = there;
              copy = copy;
              mine = ground arith;
              theirs = ground arith;
              number = h.number;
              their_number = ground arith;
              accrued = h.accrued;
              they_accrued = h.they_accrued;
            },
          )

      pub withdraw-Moves :
          amount ≤ x
          → Moves
              (withdraw num lib (connected num lib crypto bob) bob.crypto.own_address url amount n)
              (x - amount)
              y
              s
              (s + 1)
              p
              q
      withdraw-Moves enough =
          let (done, here, there, mine, theirs, copy, ahead) =
            withdraw_copies num exact lib crypto bob bob_signs one_contract h.a h.b url amount
              (height n.world.world) n _ _ _ h.here h.there h.copy (ground arith) (ground arith)
              (mines.soon n.world.world) (ground arith) (whole _ _ (mines.blocks n.world.world))
              (whole _ _ (mines.pays_out _ _ _ refl refl)) (whole _ _ (mines.confirms _ _)) in
          (
            done,
            record {
              a = _;
              b = _;
              here = here;
              there = there;
              copy = copy;
              mine = ground arith;
              theirs = ground arith;
              number = h.number;
              their_number = ground arith;
              accrued = h.accrued;
              they_accrued = h.they_accrued;
            },
          )

      pub make_payment-Moves :
          x + y < 2 ^ 256
          → q + (x + y) < 2 ^ 256
          → amount ≤ x
          → Moves
              (make_payment num lib
                (connected num lib crypto bob)
                bob.crypto.own_address
                url
                amount
                n)
              (x - amount)
              (y + amount)
              (s + 1)
              (s + 1)
              p
              (q + amount)
      make_payment-Moves fits accruable enough =
          let (done, copy, mine, theirs) =
            make_payment_catches_up num exact lib crypto bob signs one_contract h.a h.b url amount n
              h.here h.there (ground arith) (ground arith) (ground arith) h.copy (ground arith)
              (ground arith) in
          let a' = paid h.a.i_am_0 h.a amount (h.a.sequence_number + 1) in
          let b' = received h.b (update_of a') in
          rw done (
            refl,
            record {
              a = a';
              b = b';
              here = ground (
                arith,
                lookup-insert bob.crypto.own_address bob.crypto.own_address (open_channel a')
                    n.storage,
              );
              there = ground (
                arith,
                lookup-insert crypto.own_address crypto.own_address (open_channel b')
                    n.world.storage,
              );
              copy = ground (arith, copy);
              mine = ground arith;
              theirs = ground arith;
              number = ground arith;
              their_number = ground arith;
              accrued = ground arith;
              they_accrued = ground arith;
            },
          )

    -- Nobody answers.
    pub make_payment_unanswered :
        (x y s t p q : ℕ)
        → Shares crypto.own_address bob.crypto.own_address n x y s t p q
        → s + 1 < 2 ^ 256
        → (nobody : CounterpartyApi (Node W)) (e : Error)
        → ((from : Address) (url : String) (u : UpdateTx) (w : Node W)
            → nobody.receive_payment from url u w ≡ (err e, w))
        → x + y < 2 ^ 256
        → amount ≤ x
        → make_payment num lib
            (record (connected num lib crypto bob) { counterparty_client = nobody })
            bob.crypto.own_address
            url
            amount
            n
          ≡ (err e, n)
    make_payment_unanswered x y s t p q h room nobody e silent fits enough =
        make_payment_failed num exact lib
          (record (connected num lib crypto bob) { counterparty_client = nobody })
          bob.crypto.own_address url amount h.a n h.here (ground arith) (ground arith)
          (ground arith) e n.world (silent _ _ _ _)
