-- ===== src/Task/Run.antt =====
-- Runs of tasks that are put together.
use guac_rs.Prelude.{◌≡◌, refl, Option, none, some}
use guac_rs.Outcome.{Outcome, ok, err, panic, Action}
use guac_rs.Task.{Task, done, waiting, step, call, then, run}

module _ {W A B : Type 0} where
  -- What follows the run of a first task.
  abbrev pub go_on : (A → Task W B) → Option (Outcome A) × W → Option (Outcome B) × W
  go_on next (some (ok a), w) = run (next a) w
  go_on next (some (err e), w) = (some (err e), w)
  go_on next (some panic, w) = (some panic, w)
  go_on next (none, w) = (none, w)

  pub run-then :
      (t : Task W A) (next : A → Task W B) (w : W) → run (then t next) w ≡ go_on next (run t w)
  unfolding run then
  run-then (done (ok a)) next w = refl
  run-then (done (err e)) next w = refl
  run-then (done panic) next w = refl
  run-then waiting next w = refl
  run-then (step f k) next w = run-then (k w) next (f w)

  -- What follows the answer to a request.
  abbrev pub answer : (A → Task W B) → Outcome A × W → Option (Outcome B) × W
  answer next (ok a, w) = run (next a) w
  answer next (err e, w) = (some (err e), w)
  answer next (panic, w) = (some panic, w)

  pub run-call :
      (m : Action W A) (next : A → Task W B) (w : W) → run (call m next) w ≡ answer next (m w)
  unfolding run
  run-call m next w = answered (m w)
    where
      answered :
          (p : Outcome A × W)
          → run
              (elim p.0 as (λ x. Task W B) [
                | ok a ↦ next a
                | err e ↦ done (err e)
                | panic ↦ done panic
              ])
              p.1
            ≡ answer next p
      answered (ok a, w') = refl
      answered (err e, w') = refl
      answered (panic, w') = refl
