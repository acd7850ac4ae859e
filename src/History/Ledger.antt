-- ===== src/History/Ledger.antt =====
-- The books over a whole history: guac_core/src/channel_manager.rs and counterparty_api.rs together.
use guac_rs.Prelude.{ℕ, ◌+◌, ◌≡◌, ◌≤◌, List, [], ◌∷◌, Option, arith}
use guac_rs.External.{Address, Num, IsExact, Clarity}
use guac_rs.Storage.{lookup}
use guac_rs.Node.{Guac, Node}
use guac_rs.HttpServer.Safety.{owned_with, IsSound}
use guac_rs.History.{
  Event, after, after_all, over, put_in, taken_out, gained, reported, accrued_with,
}
use guac_rs.History.Moves.{IsBooked, IsBooked-same}
use guac_rs.History.Calls.{event-Booked}

module _ {before middle later : Option _} {more less gain told more' less' gain' told' : ℕ} where
  pub IsBooked-trans :
      IsBooked before middle more less gain told
      → IsBooked middle later more' less' gain' told'
      → IsBooked before later (more + more') (less + less') (gain + gain') (told + told')
  IsBooked-trans b c = record {
    sound = c.sound;
    balance = omega (arith, b.balance, c.balance);
    accrual = omega (arith, b.accrual, c.accrual);
  }

module _ (num : Num) (exact : IsExact num) (lib : Clarity) {W : Type 0} (self : Guac W) where
  history-Booked :
      (k : Address) (events : List Event) (n : Node W)
      → IsSound (lookup k n.storage)
      → IsBooked
          (lookup k n.storage)
          (lookup k (after_all num lib self events n).storage)
          (over num lib self (put_in num lib self k) events n)
          (over num lib self (taken_out num lib self k) events n)
          (over num lib self (gained num lib self k) events n)
          (over num lib self (reported num lib self k) events n)
  unfolding after_all over
  history-Booked k [] n s = IsBooked-same (lookup k n.storage) s
  history-Booked k (event ∷ rest) n s =
      let now = event-Booked num exact lib self k event n s in
      IsBooked-trans now (history-Booked k rest (after num lib self event n) now.sound)

  -- Given exact arithmetic: take any sequence of requests that a node serves and of calls that its
  -- own user makes (fill, withdraw, pay, check the accrual; of any counterparty, and whatever the
  -- chain and the other nodes answer). If at the start a re-draw that `k` has proposed leaves this
  -- node's own balance as its channel has it, then what the node owns with `k` at the end, and what
  -- the user's successful calls took out or paid to `k` in between, are together at least what it
  -- owned at the start and what the user's successful calls put in.
  pub history_keeps_balance :
      (events : List Event) (n : Node W) (k : Address)
      → IsSound (lookup k n.storage)
      → let n' = after_all num lib self events n in
        owned_with (lookup k n.storage) + over num lib self (put_in num lib self k) events n
        ≤ owned_with (lookup k n'.storage) + over num lib self (taken_out num lib self k) events n
  history_keeps_balance events n k s = (history-Booked k events n s).balance

  -- Given exact arithmetic: over any such sequence, if at the start a re-draw that `k` has proposed
  -- leaves this node's own balance as its channel has it, then the accrual kept for `k` at the
  -- start, and what requests gained the node with `k` in between, are together exactly the accrual
  -- at the end and what `check_accrual` told the user of.
  pub history_reports_gains :
      (events : List Event) (n : Node W) (k : Address)
      → IsSound (lookup k n.storage)
      → let n' = after_all num lib self events n in
        accrued_with (lookup k n.storage) + over num lib self (gained num lib self k) events n
        ≡ accrued_with (lookup k n'.storage) + over num lib self (reported num lib self k) events n
  history_reports_gains events n k s = (history-Booked k events n s).accrual
