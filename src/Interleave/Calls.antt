-- ===== src/Interleave/Calls.antt =====
-- The calls of guac_core/src/channel_manager.rs, step by step, and their specification.
use native.Mathlib.Decide.{dec_le}
use guac_rs.Prelude.{ℕ, ◌+◌, ◌≤◌, ◌≡◌, refl, Bool, Option, none, some, String, arith}
use guac_rs.External.{Uint256, Address, Signature, Bytes, Num, Clarity, IsExact}
use guac_rs.Types.{Channel, Counterparty, new, open_channel, ReDrawTx, UpdateTx, Error}
use guac_rs.Outcome.{Action, Outcome, ok, err, panic, raise}
use guac_rs.Node.{Guac, Node}
use guac_rs.ChannelManager.Transition.{Stalled, Filled, Withdrawn, Spent}
use guac_rs.Task.{just}
use guac_rs.Channel.{make_payment}
use guac_rs.ChannelManager.Pay.{agree}
use guac_rs.Channel.Payment.{my_balance, paid, make_payment-IsPayment}
use guac_rs.ChannelManager.Sign.{verify}
use guac_rs.Interleave.{
  Meets, Meets-world, Meets-option, Meets-test, Meets-clone, Meets-write, Meets-just, Meets-told,
  Meets-stored,
}
use guac_rs.Interleave.Steps.{
  re_draw_steps, answered_steps, fill_new_steps, fill_at_steps, withdraw_at_steps, pay_at_steps,
}

module _ (lib : Clarity) {W : Type 0} (their : Address) (sig : Signature) (print : Bytes) where
  verify_keeps : (n : Node W) → (verify lib their sig print n).1 ≡ n
  verify_keeps n = ground arith

module _ (W : Type 0) (their : Address)
    (Q : Outcome (Unit {0}) → Option Counterparty → Type 0) where
  pub Meets-raise :
      (e : Error) (v : Option Counterparty)
      → Q (err e) v
      → Meets their Q (just {W = Node W} (raise e)) v
  Meets-raise e v h = Meets-just their Q (raise e) v (λ n. refl) (λ n. h)

module _ (num : Num) (exact : IsExact num) (lib : Clarity) {W : Type 0} (self : Guac W)
    (their : Address) (url : String) (amount : ℕ) where
  open self use {blockchain_client, counterparty_client, crypto}

  fill_new_steps-Meets :
      (i : Bool)
      → Meets their
          (λ r v. Filled amount r (new i) v)
          (fill_new_steps num lib self their url amount i)
          (some (new i))
  fill_new_steps-Meets i =
      Meets-world _ _ _ _ blockchain_client.get_current_block
        (λ block.
          Meets-option _ _ _ _ (num.add block 40)
            (λ expiration fits.
              Meets-world _ _ _ _ (counterparty_client.propose_channel crypto.own_address url _)
                (λ sig.
                  Meets-test _ _ _ _ (verify lib their sig _) (verify_keeps lib their sig _)
                    (Meets-write _ _ _ _ _ (
                      Meets-world _ _ _ _ (blockchain_client.deposit_then_new_channel amount _)
                        (λ id.
                          Meets-told _ _ _ _
                            (counterparty_client.notify_channel_opened crypto.own_address url)
                            (Meets-stored W their (λ r v. Filled amount r (new i) v) _ _
                              (ground arith))
                            (λ e. refl) refl)
                        (λ e. refl) refl))
                    (λ e. refl) refl)
                (λ e. refl) refl)
            refl)
        (λ e. refl) refl

  module _ (c : Channel) (Q : Outcome (Unit {0}) → Option Counterparty → Type 0)
      (on_err : (d : Counterparty) → Stalled (open_channel c) d → (e : Error) → Q (err e) (some d))
      (on_panic : (d : Counterparty) → Stalled (open_channel c) d → Q panic (some d)) where
    re_draw_steps-Meets :
        (submit : ReDrawTx → Action W (Unit {0}))
        → (balance_0 balance_1 : Option Uint256)
        → ((x y : Uint256)
            → balance_0 ≡ some x
            → balance_1 ≡ some y
            → Q (ok tt) (some (open_channel (record c { balance_0 = x; balance_1 = y }))))
        → Meets their Q
            (re_draw_steps num lib self their url amount submit c balance_0 balance_1)
            (some (open_channel c))
    re_draw_steps-Meets submit balance_0 balance_1 on_ok =
        let before = λ (e : Error). on_err (open_channel c) refl e in
        let before_panic = on_panic (open_channel c) refl in
        Meets-option _ _ _ _ balance_0
          (λ x e0.
            Meets-option _ _ _ _ balance_1
              (λ y e1.
                Meets-world _ _ _ _ blockchain_client.get_current_block
                  (λ block.
                    Meets-option _ _ _ _ (num.add c.sequence_number 1)
                      (λ seq next.
                        Meets-option _ _ _ _ (num.add block 40)
                          (λ expiration fits.
                            Meets-world _ _ _ _
                              (counterparty_client.propose_re_draw crypto.own_address url _)
                              (λ sig.
                                Meets-test _ _ _ _ (verify lib their sig _)
                                  (verify_keeps lib their sig _)
                                  (Meets-write _ _ _ _ _ (
                                    Meets-told _ _ _ _ (submit _)
                                      (Meets-told _ _ _ _
                                        (counterparty_client.notify_re_draw crypto.own_address url)
                                        (Meets-stored W their Q _ _ (on_ok x y e0 e1))
                                        (λ e.
                                          on_err _ (refl, (refl, counted seq next, refl, refl)) e)
                                        (on_panic _ (refl, (refl, counted seq next, refl, refl))))
                                      (λ e. on_err _ (refl, (refl, counted seq next, refl, refl)) e)
                                      (on_panic _ (refl, (refl, counted seq next, refl, refl)))))
                                  before before_panic)
                              before before_panic)
                          before_panic)
                      before_panic)
                  before before_panic)
              before_panic)
          before_panic
      where
        counted :
            (seq : Uint256) → num.add c.sequence_number 1 ≡ some seq → seq ≡ c.sequence_number + 1
        counted seq e = ground (arith, exact.add_cases c.sequence_number 1)

  pub fill_at_steps-Meets :
      (c : Counterparty)
      → Meets their
          (λ r v. Filled amount r c v)
          (fill_at_steps num lib self their url amount c)
          (some c)
  fill_at_steps-Meets (new i) = fill_new_steps-Meets i
  fill_at_steps-Meets (open_channel c) =
      re_draw_steps-Meets c (λ r v. Filled amount r (open_channel c) v) (λ d s e. s) (λ d s. s)
        (blockchain_client.deposit_then_re_draw amount) _ _
        (λ x y e0 e1. ground (arith, exact.add_cases (my_balance c) amount))
  fill_at_steps-Meets c = Meets-raise W their (λ r v. Filled amount r c v) _ (some c) refl

  pub withdraw_at_steps-Meets :
      (c : Counterparty)
      → Meets their
          (λ r v. Withdrawn amount r c v)
          (withdraw_at_steps num lib self their url amount c)
          (some c)
  withdraw_at_steps-Meets (open_channel c) =
      re_draw_steps-Meets c (λ r v. Withdrawn amount r (open_channel c) v) (λ d s e. s) (λ d s. s)
        (blockchain_client.re_draw_then_withdraw amount) _ _
        (λ x y e0 e1. elim (dec_le amount (my_balance c)) [
          | yes enough ↦ ground (arith, exact.sub_fits (my_balance c) amount)
          | no short ↦ ground (arith, exact.sub_panics (my_balance c) amount)
        ])
  withdraw_at_steps-Meets c = Meets-raise W their (λ r v. Withdrawn amount r c v) _ (some c) refl

  affords :
      (c c' : Channel) (tx : UpdateTx)
      → make_payment num amount none c ≡ (ok tx, c')
      → (amount ≤ my_balance c) × (c' ≡ paid c.i_am_0 c amount (c.sequence_number + 1))
  affords c c' tx e = ground (arith, make_payment-IsPayment num exact c amount none)

  answered_steps-Meets :
      (c c' : Channel) (res : Option Uint256)
      → amount ≤ my_balance c
      → c' ≡ paid c.i_am_0 c amount (c.sequence_number + 1)
      → Meets their
          (λ r v. Spent amount r (open_channel c) v)
          (answered_steps num lib self their url amount c' res)
          (some (open_channel c))
  answered_steps-Meets c c' none enough e =
      Meets-stored W their (λ r v. Spent amount r (open_channel c) v) _ _ (ground arith)
  answered_steps-Meets c c' (some seq) enough e =
      Meets-clone their (λ r v. Spent amount r (open_channel c) v) _ _
        (make_payment num amount (some seq)) c'
        (λ tx c'' paid.
          Meets-world _ _ _ _ (counterparty_client.receive_payment crypto.own_address url _) agreed
            (λ e. refl) refl)
        (λ e. refl) refl
    where
      agreed :
          (res : Option Uint256)
          → Meets their
              (λ r v. Spent amount r (open_channel c) v)
              (just (agree num lib self res))
              (some (open_channel c))
      agreed (some seq) = Meets-raise W their (λ r v. Spent amount r (open_channel c) v) _ _ refl
      agreed none =
          Meets-just their (λ r v. Spent amount r (open_channel c) v) (agree num lib self none) _
            (λ n. refl) (λ n. ground arith)

  pub pay_at_steps-Meets :
      (c : Counterparty)
      → Meets their
          (λ r v. Spent amount r c v)
          (pay_at_steps num lib self their url amount c)
          (some c)
  pay_at_steps-Meets (open_channel c) =
      Meets-clone their (λ r v. Spent amount r (open_channel c) v) _ _
        (make_payment num amount none) c
        (λ tx c' e.
          Meets-world _ _ _ _ (counterparty_client.receive_payment crypto.own_address url _)
            (λ res.
              let (enough, now) = affords c c' tx e in answered_steps-Meets c c' res enough now)
            (λ e. refl) refl)
        (λ e. refl) refl
  pay_at_steps-Meets c = Meets-raise W their (λ r v. Spent amount r c v) _ (some c) refl
