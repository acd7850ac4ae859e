-- ===== src/Race.antt =====
-- Two calls for one counterparty that run at once (the locks of guac_core/src/storage.rs and
-- `make_counterparty_if_none` of channel_manager.rs).
-- The guard of an entry is held from the step that finds the entry to the end of the call, so a call
-- for a known counterparty is one step. The first call for an unknown one takes three: it finds no
-- entry, makes one, and then finds it, unless another call has made one meanwhile.
pub mod Serial
pub mod Ready
pub mod Orders
pub mod Calls
use guac_rs.Prelude.{ℕ, suc, ltb, Bool, true, false, Option, none, some}
use guac_rs.External.{Address}
use guac_rs.Types.{Counterparty, new}
use guac_rs.Outcome.{Outcome, ok, err, panic, Action, or_panic, ◌>>=◌}
use guac_rs.Storage.{lookup, get_counterparty, new_counterparty}
use guac_rs.Node.{Node, on_storage, make_counterparty_if_none}
use guac_rs.Task.{Task, done, waiting, step, call, just, run, Order}

module _ {W A B : Type 0} where
  -- Two tasks at once, each to its own end.
  unfoldable pub race :
      Order → Task W A → Task W B → W → (Option (Outcome A) × Option (Outcome B)) × W
  unfolding run
  race order (done r) u w = let (r', w') = run u w in ((some r, r'), w')
  race order waiting u w = let (r', w') = run u w in ((none, r'), w')
  race order (step f k) (done r) w = let (r', w') = run (step f k) w in ((r', some r), w')
  race order (step f k) waiting w = let (r', w') = run (step f k) w in ((r', none), w')
  race order (step f k) (step g l) w =
      let rest = λ (n : ℕ). order (suc n) in
      elim (order 0) [
        | true ↦ race rest (k w) (step g l) (f w)
        | false ↦ race rest (step f k) (l w) (g w)
      ]

abbrev pub found_one : {A : Type 0} → Outcome A → Outcome (Option A)
found_one (ok a) = ok (some a)
found_one (err e) = err e
found_one panic = panic

module _ {W A : Type 0} (their_address my_address : Address)
    (body : Counterparty → Action (Node W) A) where
  -- The call as one action.
  abbrev pub at_once : Action (Node W) A
  at_once = do
    found ← on_storage (get_counterparty their_address)
    counterparty ← make_counterparty_if_none their_address my_address found
    body counterparty

  -- The first step: all of the call, or finding no entry.
  abbrev pub look : Action (Node W) (Option A)
  look n = elim (lookup their_address n.storage) [
    | none ↦ (ok none, n)
    | some c ↦ let (r, n') = body c n in (found_one r, n')
  ]

  -- The last step of a call that found no entry.
  abbrev pub locked : Action (Node W) A
  locked = do
    found ← on_storage (get_counterparty their_address)
    counterparty ← or_panic found
    body counterparty

  abbrev pub looked : Option A → Task (Node W) A
  looked (some a) = done (ok a)
  looked none =
      call (on_storage (new_counterparty their_address (new (ltb my_address their_address))))
        (λ _. just locked)

  -- The call step by step.
  unfoldable pub steps : Task (Node W) A
  steps = call look looked
