-- ===== src/Interleave/Serial.antt =====
-- What each counterparty sees of the jobs of a node, which mix
-- (guac_core/src/storage.rs, channel_manager.rs and counterparty_api.rs).
use mathlib.Core.Path.{subst}
use native.Mathlib.Decide.{ℕ_discrete}
use guac_rs.Prelude.{
  ◌==◌, ◌≡◌, ◌≢◌, ◌∙◌, sym, ap, refl, if◌then◌else◌, Option, none, some, List, [], ◌∷◌, arith,
}
use guac_rs.External.{Address, Num, Clarity, IsExact}
use guac_rs.Types.{Counterparty}
use guac_rs.Storage.{lookup}
use guac_rs.Node.{Guac, Node}
use guac_rs.Task.{Task, done, waiting, step}
use guac_rs.Interleave.{Meets}
use guac_rs.Interleave.Jobs.{Job, party, Result}
use guac_rs.Interleave.Together.{Done, job_steps-Meets}
use guac_rs.Interleave.Crowd.{
  Active, Ended, Crowd, locks, Works, goes, ends, Next, starts, works, Reach, begins, advances,
}

-- The entry that the last job about `k` left, or the one at the start.
abbrev pub last_entry : {W : Type 0} → Address → Node W → List Ended → Option Counterparty
last_entry k n [] = lookup k n.storage
last_entry k n (e ∷ rest) = if party e.job == k then e.after else last_entry k n rest

module _ {W : Type 0} (self : Guac W) (n0 : Node W) where
  -- Every job of the log found the entry that the one before it left, and did what it may do.
  abbrev pub IsSerial : List Ended → Type 0
  IsSerial [] = Unit
  IsSerial (e ∷ rest) =
      Done self e.job e.before e.outcome e.after
      × (e.before ≡ last_entry (party e.job) n0 rest)
      × IsSerial rest

  abbrev Held : List Ended → Node W → Address → Option (Active W) → Type 0
  Held log n k none = lookup k n.storage ≡ last_entry k n0 log
  Held log n k (some a) =
      (party a.job ≡ k)
      × (a.before ≡ last_entry k n0 log)
      × Meets k (Done self a.job a.before) a.task (lookup k n.storage)

  record IsOrderly (s : Crowd W) : Type 0 where
    held : (k : Address) → Held s.log s.node k (s.busy k)
    serial : IsSerial s.log

module _ (num : Num) (exact : IsExact num) (lib : Clarity) {W : Type 0} (self : Guac W)
    (n0 : Node W) where
  -- Another entry is as it was.
  Held-elsewhere :
      (log log' : List Ended) (n n' : Node W) (j : Address) (a : Option (Active W))
      → lookup j n'.storage ≡ lookup j n.storage
      → last_entry j n0 log' ≡ last_entry j n0 log
      → Held self n0 log n j a
      → Held self n0 log' n' j a
  Held-elsewhere log log' n n' j none same kept h = same ∙ h ∙ sym kept
  Held-elsewhere log log' n n' j (some a) same kept (at, found, meets) =
      (at, found ∙ sym kept, subst (Meets j (Done self a.job a.before) a.task) (sym same) meets)

  -- The lock of `k` changes hands.
  locks_same :
      (k : Address) (a : Option (Active W)) (busy : Address → Option (Active W))
      → locks k a busy k ≡ a
  locks_same k a busy = ground arith

  locks_other :
      (k : Address) (a : Option (Active W)) (busy : Address → Option (Active W)) (j : Address)
      → j ≢ k
      → locks k a busy j ≡ busy j
  locks_other k a busy j ne = ground arith

  relocked :
      (log : List Ended) (n : Node W) (k : Address) (a : Option (Active W))
      → (busy : Address → Option (Active W)) → Held self n0 log n k a
      → ((j : Address) → j ≢ k → Held self n0 log n j (busy j))
      → (j : Address) → Held self n0 log n j (locks k a busy j)
  relocked log n k a busy at others j = elim (ℕ_discrete j k) [
    | yes same ↦ rw same (subst (Held self n0 log n k) (sym (locks_same k a busy)) at)
    | no ne ↦ subst (Held self n0 log n j) (sym (locks_other k a busy j ne)) (others j ne)
  ]

  last_entry_same :
      (k : Address) (e : Ended) (log : List Ended)
      → party e.job ≡ k
      → last_entry k n0 (e ∷ log) ≡ e.after
  last_entry_same k e log at = ground arith

  last_entry_other :
      (j k : Address) (e : Ended) (log : List Ended)
      → party e.job ≡ k
      → j ≢ k
      → last_entry j n0 (e ∷ log) ≡ last_entry j n0 log
  last_entry_other j k e log at ne = ground arith

  Works-IsOrderly :
      (k : Address) {s t : Crowd W}
      → Works num lib self k s t
      → IsOrderly self n0 s
      → IsOrderly self n0 t
  unfolding Meets
  Works-IsOrderly k (goes s job before f rest at) h =
      let (same, found, meets) = subst (Held self n0 s.log s.node k) at (h.held k) in
      let (later, others) = meets s.node refl in
      record {
        held =
            relocked s.log (f s.node) k _ s.busy (same, found, later)
              (λ j ne.
                Held-elsewhere s.log s.log s.node (f s.node) j (s.busy j) (others j ne) refl
                  (h.held j));
        serial = h.serial;
      }
  Works-IsOrderly k (ends s job before outcome at) h =
      let (same, found, did) = subst (Held self n0 s.log s.node k) at (h.held k) in
      let e : Ended = record {
        job = job;
        before = before;
        outcome = outcome;
        after = lookup k s.node.storage;
      } in
      record {
        held =
            relocked (e ∷ s.log) s.node k none s.busy (sym (last_entry_same k e s.log same))
              (λ j ne.
                Held-elsewhere s.log (e ∷ s.log) s.node s.node j (s.busy j) refl
                  (last_entry_other j k e s.log same ne) (h.held j));
        serial = (did, found ∙ ap (λ x. last_entry x n0 s.log) (sym same), h.serial);
      }

  Next-IsOrderly :
      {s t : Crowd W} → Next num lib self s t → IsOrderly self n0 s → IsOrderly self n0 t
  Next-IsOrderly (starts s job free) h = record {
    held =
        relocked s.log s.node (party job) _ s.busy
          (
            refl,
            subst (Held self n0 s.log s.node (party job)) free (h.held (party job)),
            job_steps-Meets num exact lib self job _,
          )
          (λ j ne. h.held j);
    serial = h.serial;
  }
  Next-IsOrderly (works k went) h = Works-IsOrderly k went h

  Reach-IsOrderly : {s : Crowd W} → Reach num lib self n0 s → IsOrderly self n0 s
  Reach-IsOrderly begins = record { held = λ k. refl; serial = tt }
  Reach-IsOrderly (advances r next) = Next-IsOrderly next (Reach-IsOrderly r)

  -- A job under way has a step to go, or has come to its end.
  can_go_on :
      (s : Crowd W) (k : Address) (job : Job) (before : Option Counterparty)
      → (task : Task (Node W) (Result job))
      → s.busy k ≡ some (record { job = job; before = before; task = task })
      → Meets k (Done self job before) task (lookup k s.node.storage)
      → (t : Crowd W) × Works num lib self k s t
  unfolding Meets
  can_go_on s k job before (done outcome) at meets = (_, ends s job before outcome at)
  can_go_on s k job before waiting at meets = absurd meets
  can_go_on s k job before (step f rest) at meets = (_, goes s job before f rest at)

  -- Given exact arithmetic: let a node work at once on any number of jobs (calls of its user to
  -- fill, withdraw or pay, and requests for the five handlers), at most one for each counterparty
  -- (as the lock of a known entry has it; of an unknown one this is assumed), each begun at any
  -- time and going on step by step (each request that is sent, each test and each access to the
  -- storage), in any order, and whatever the chain and the counterparties answer. At any moment,
  -- each job that has ended found the entry that the last ended job about its counterparty had left
  -- (or else the one at the start), and its outcome and the entry that it left are allowed by the
  -- specification of the call or of the handler; an entry that no job holds is as the last ended
  -- job about it left it (or else as at the start); and every job that is under way can itself go
  -- on: it has a step to take, or comes to its end.
  pub Reach-IsSerial :
      {s : Crowd W}
      → Reach num lib self n0 s
      → IsSerial self n0 s.log
        × ((k : Address) → s.busy k ≡ none → lookup k s.node.storage ≡ last_entry k n0 s.log)
        × ((k : Address) (a : Active W)
            → s.busy k ≡ some a
            → (t : Crowd W) × Works num lib self k s t)
  Reach-IsSerial {s} r =
      let h = Reach-IsOrderly r in
      (
        h.serial,
        λ k free. subst (Held self n0 s.log s.node k) free (h.held k),
        λ k a at.
            let (_, _, meets) = subst (Held self n0 s.log s.node k) at (h.held k) in
            can_go_on s k a.job a.before a.task at meets,
      )
