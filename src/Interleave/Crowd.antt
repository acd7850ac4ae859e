-- ===== src/Interleave/Crowd.antt =====
-- A node at work on any number of jobs at once (guac_core/src/storage.rs: the lock of an entry is
-- held from the start of a job to its end, so there is at most one job for a known counterparty;
-- here for an unknown one too).
use guac_rs.Prelude.{◌==◌, ◌≡◌, if◌then◌else◌, Option, none, some, List, [], ◌∷◌}
use guac_rs.External.{Address, Num, Clarity}
use guac_rs.Types.{Counterparty}
use guac_rs.Outcome.{Outcome}
use guac_rs.Storage.{lookup}
use guac_rs.Node.{Guac, Node}
use guac_rs.Task.{Task, done, step}
use guac_rs.Interleave.Jobs.{Job, party, Result, job_steps}

-- A job under way, with the entry that it found and what is left of it.
pub record Active (W : Type 0) : Type 0 where
  pub job : Job
  pub before : Option Counterparty
  pub task : Task (Node W) (Result job)

-- A job that has ended, with the entry that it found, its outcome and the entry that it left.
pub record Ended : Type 0 where
  pub job : Job
  pub before : Option Counterparty
  pub outcome : Outcome (Result job)
  pub after : Option Counterparty

-- `busy` has the locks that are held; the log has the last job first.
pub record Crowd (W : Type 0) : Type 0 where
  pub busy : Address → Option (Active W)
  pub node : Node W
  pub log : List Ended

abbrev pub idle : {W : Type 0} → Node W → Crowd W
idle n = record { busy = λ k. none; node = n; log = [] }

-- The lock of `k` is taken, passed on or given back.
abbrev pub locks :
    {W : Type 0}
    → Address
    → Option (Active W)
    → (Address → Option (Active W))
    → Address
    → Option (Active W)
locks k a busy j = if j == k then a else busy j

module _ (num : Num) (lib : Clarity) {W : Type 0} (self : Guac W) where
  -- The job about `k` goes one step on, or comes to its end.
  pub data Works (k : Address) : Crowd W → Crowd W → Type 0 where
    goes :
        (s : Crowd W) (job : Job) (before : Option Counterparty)
        → (f : Node W → Node W) (rest : Node W → Task (Node W) (Result job))
        → s.busy k ≡ some (record { job = job; before = before; task = step f rest })
        → Works k s (record s {
          busy = locks k (some (record { job = job; before = before; task = rest s.node })) s.busy;
          node = f s.node;
        })
    ends :
        (s : Crowd W) (job : Job) (before : Option Counterparty)
        → (outcome : Outcome (Result job))
        → s.busy k ≡ some (record { job = job; before = before; task = done outcome })
        → Works k s (record s {
          busy = locks k none s.busy;
          log =
              record {
                job = job;
                before = before;
                outcome = outcome;
                after = lookup k s.node.storage;
              }
              ∷ s.log;
        })

  -- A job is begun, or one that is under way works.
  pub data Next : Crowd W → Crowd W → Type 0 where
    starts :
        (s : Crowd W) (job : Job)
        → s.busy (party job) ≡ none
        → Next s (record s {
          busy =
              locks
                (party job)
                (some (record {
                  job = job;
                  before = lookup (party job) s.node.storage;
                  task = job_steps num lib self job;
                }))
                s.busy;
        })
    works : (k : Address) {s t : Crowd W} → Works k s t → Next s t

  pub data Reach (n : Node W) : Crowd W → Type 0 where
    begins : Reach n (idle n)
    advances : {s t : Crowd W} → Reach n s → Next s t → Reach n t
