-- ===== src/Task.antt =====
-- Futures that wait for the answers of another machine. A task goes on step by step, each step one
-- request with its answer, so that `join` can run the steps of two tasks in any order.
pub mod Run
pub mod Count
use guac_rs.Prelude.{ℕ, suc, Bool, true, false, Option, none, some}
use guac_rs.Types.{Error}
use guac_rs.Outcome.{Outcome, ok, err, panic, Action}

-- `waiting` is a task that is still waiting when the model stops looking at it.
pub data Task (W A : Type 0) : Type 0 where
  done : Outcome A → Task W A
  waiting : Task W A
  step : (W → W) → (W → Task W A) → Task W A

module _ {W A B : Type 0} where
  -- One request, and what follows its answer.
  abbrev pub call : Action W A → (A → Task W B) → Task W B
  call m next =
      step (λ w. (m w).1)
        (λ w. elim (m w).0 [ ok a ↦ next a | err e ↦ done (err e) | panic ↦ done panic ])

  -- `and_then`
  unfoldable pub then : Task W A → (A → Task W B) → Task W B
  then (done (ok a)) next = next a
  then (done (err e)) next = done (err e)
  then (done panic) next = done panic
  then waiting next = waiting
  then (step f k) next = step f (λ w. then (k w) next)

abbrev pub just : {W A : Type 0} → Action W A → Task W A
just m = call m (λ a. done (ok a))

-- What is computed without a request.
abbrev pub finish : {W A : Type 0} → Action (Unit {0}) A → Task W A
finish m = done (m tt).0

-- A task by itself; `none` if it is still waiting.
unfoldable pub run : {W A : Type 0} → Task W A → W → Option (Outcome A) × W
run (done r) w = (some r, w)
run waiting w = (none, w)
run (step f k) w = run (k w) (f w)

-- A call that waits for ever has no result, like one that panics.
unfoldable pub settle : {W A : Type 0} → Task W A → Action W A
unfolding run
settle t w = let (r, w') = run t w in (elim r [ none ↦ panic | some r ↦ r ], w')

-- Whose request is answered next, time after time: `true` for the first task.
abbrev pub Order : Type 0
Order = ℕ → Bool

-- `join`: both results, or the first error.
module _ {W A B : Type 0} where
  abbrev pub first_done : Outcome A → Task W B → Task W (A × B)
  first_done (ok a) u = then u (λ b. done (ok (a, b)))
  first_done (err e) u = done (err e)
  first_done panic u = done panic

  abbrev pub second_done : Outcome B → Task W A → Task W (A × B)
  second_done (ok b) t = then t (λ a. done (ok (a, b)))
  second_done (err e) t = done (err e)
  second_done panic t = done panic

  unfoldable pub join : Order → Task W A → Task W B → Task W (A × B)
  unfolding then
  join order (done r) u = first_done r u
  join order waiting u = then u (λ b. waiting)
  join order (step f k) (done r) = second_done r (step f k)
  join order (step f k) waiting = then (step f k) (λ a. waiting)
  join order (step f k) (step g l) =
      let rest = λ (n : ℕ). order (suc n) in
      elim (order 0) [
        | true ↦ step f (λ w. join rest (k w) (step g l))
        | false ↦ step g (λ w. join rest (step f k) (l w))
      ]
