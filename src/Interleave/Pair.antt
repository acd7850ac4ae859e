-- ===== src/Interleave/Pair.antt =====
-- Two calls on one node for different counterparties, at once (guac_core/src/channel_manager.rs).
use mathlib.Core.Path.{subst}
use guac_rs.Prelude.{suc, ◌≡◌, ◌≢◌, ◌∙◌, sym, refl, true, false, Option, none, some}
use guac_rs.External.{Address}
use guac_rs.Types.{Counterparty}
use guac_rs.Outcome.{Outcome}
use guac_rs.Storage.{lookup}
use guac_rs.Node.{Node}
use guac_rs.Task.{Task, done, waiting, step, run, Order}
use guac_rs.Race.{race}
use guac_rs.Interleave.{Meets}

abbrev pub Others : {W : Type 0} → Address → Node W → Node W → Type 0
Others their n n' = (x : Address) → x ≢ their → lookup x n'.storage ≡ lookup x n.storage

-- How a call has come out.
abbrev pub Met :
    {A : Type 0}
    → (Outcome A → Option Counterparty → Type 0)
    → Option (Outcome A)
    → Option Counterparty
    → Type 0
Met Q (some r) v = Q r v
Met Q none v = ⊥

module _ {W A : Type 0} (their : Address) (Q : Outcome A → Option Counterparty → Type 0) where
  run-Meets :
      (t : Task (Node W) A) (n : Node W)
      → Meets their Q t (lookup their n.storage)
      → let (r, n') = run t n in Met Q r (lookup their n'.storage) × Others their n n'
  unfolding run Meets
  run-Meets (done r) n h = (h, λ x ne. refl)
  run-Meets waiting n h = elim h [ ]
  run-Meets (step f k) n h =
      let (later, other) = h n refl in
      let (met, others) = run-Meets (k n) (f n) later in (met, λ x ne. others x ne ∙ other x ne)

module _ {W A B : Type 0} (j k : Address) (Q : Outcome A → Option Counterparty → Type 0)
    (R : Outcome B → Option Counterparty → Type 0) where
  -- Both calls have come out as they should, and no third entry has moved.
  abbrev pub BothMet : Node W → (Option (Outcome A) × Option (Outcome B)) × Node W → Type 0
  BothMet n ((q, r), n') =
      Met Q q (lookup j n'.storage)
      × Met R r (lookup k n'.storage)
      × ((x : Address) → x ≢ j → x ≢ k → lookup x n'.storage ≡ lookup x n.storage)

  pub race-Meets :
      j ≢ k
      → (order : Order) (t : Task (Node W) A) (u : Task (Node W) B) (n : Node W)
      → Meets j Q t (lookup j n.storage)
      → Meets k R u (lookup k n.storage)
      → BothMet n (race order t u n)
  unfolding run race Meets
  race-Meets apart order (done r) u n h i =
      let (met, others) = run-Meets k R u n i in
      (subst (Q r) (sym (others j apart)) h, met, λ x xj xk. others x xk)
  race-Meets apart order waiting u n h i = elim h [ ]
  race-Meets apart order (step f l) (done r) n h i =
      let (met, others) = run-Meets j Q (step f l) n h in
      (met, subst (R r) (sym (others k (λ e. apart (sym e)))) i, λ x xj xk. others x xj)
  race-Meets apart order (step f l) waiting n h i = elim i [ ]
  race-Meets apart order (step f l) (step g m) n h i =
      elim (order 0)
        as (λ o. BothMet n (elim o as (λ x. (Option (Outcome A) × Option (Outcome B)) × Node W) [
          | true ↦ race (λ x. order (suc x)) (l n) (step g m) (f n)
          | false ↦ race (λ x. order (suc x)) (step f l) (m n) (g n)
        ])) [
          | true ↦
              let (later, others) = h n refl in
              let (q, r, rest) =
                race-Meets apart (λ x. order (suc x)) (l n) (step g m) (f n) later
                  (subst (Meets k R (step g m)) (sym (others k (λ e. apart (sym e)))) i) in
              (q, r, λ x xj xk. rest x xj xk ∙ others x xj)
          | false ↦
              let (later, others) = i n refl in
              let (q, r, rest) =
                race-Meets apart (λ x. order (suc x)) (step f l) (m n) (g n)
                  (subst (Meets j Q (step f l)) (sym (others j apart)) h) later in
              (q, r, λ x xj xk. rest x xj xk ∙ others x xk)
        ]
