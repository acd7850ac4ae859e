-- ===== src/Race/Ready.antt =====
-- Two calls whose next steps find the entry.
use guac_rs.Prelude.{suc, ◌≡◌, ◌∙◌, ap, refl, inl, inr, Bool, true, false, some}
use guac_rs.External.{Address}
use guac_rs.Types.{Counterparty}
use guac_rs.Outcome.{ok, Action}
use guac_rs.Storage.{lookup}
use guac_rs.Node.{Node}
use guac_rs.Task.{Task, done, call, run, Order}
use guac_rs.Race.{race, at_once, look, locked, looked}
use guac_rs.Race.Serial.{
  resume, resume-done, resume-looked, race_first, race_second, look-known, locked-known,
  at_once-known, KeepsEntry, InTurn,
}

-- A step that does all of a call once there is an entry.
pub record IsReady {W A C : Type 0} (k my : Address) (body : Counterparty → Action (Node W) A)
    (m : Action (Node W) C) (next : C → Task (Node W) A) : Type 0 where
  pub ends :
      (n : Node W) (c : Counterparty)
      → lookup k n.storage ≡ some c
      → resume next (m n).0 ≡ done (at_once k my body n).0
  pub moves :
      (n : Node W) (c : Counterparty)
      → lookup k n.storage ≡ some c
      → (m n).1 ≡ (at_once k my body n).1

module _ {W A : Type 0} (k my : Address) (body : Counterparty → Action (Node W) A) where
  pub look-IsReady : IsReady k my body (look k my body) (looked k my body)
  look-IsReady = record {
    ends = λ n c e. rw (at_once-known k my body n c e) (
        ap (λ p. resume (looked k my body) p.0) (look-known k my body n c e)
        ∙ resume-looked k my body (body c n).0);
    moves =
        λ n c e. rw (at_once-known k my body n c e) (ap (λ p. p.1) (look-known k my body n c e));
  }

  pub locked-IsReady : IsReady k my body (locked k my body) (λ a. done (ok a))
  locked-IsReady = record {
    ends = λ n c e. rw (at_once-known k my body n c e) (
        ap (λ p. resume (λ a. done (ok a)) p.0) (locked-known k my body n c e)
        ∙ resume-done (body c n).0);
    moves =
        λ n c e. rw (at_once-known k my body n c e) (ap (λ p. p.1) (locked-known k my body n c e));
  }

  pub ready_run :
      {C : Type 0} (m : Action (Node W) C) (next : C → Task (Node W) A)
      → IsReady k my body m next
      → (n : Node W) (c : Counterparty) → lookup k n.storage ≡ some c
      → run (call m next) n ≡ (some (at_once k my body n).0, (at_once k my body n).1)
  unfolding run
  ready_run m next ready n c e =
      ap (λ t. run t (m n).1) (ready.ends n c e)
      ∙ ap (λ w. (some (at_once k my body n).0, w)) (ready.moves n c e)

  pub entry_kept :
      KeepsEntry k body
      → (n : Node W) (c : Counterparty) → lookup k n.storage ≡ some c
      → (d : Counterparty) × (lookup k (at_once k my body n).1.storage ≡ some d)
  entry_kept keeps n c e = rw (at_once-known k my body n c e) (keeps c n e)

module _ {W A B C D : Type 0} (k my : Address) (a : Counterparty → Action (Node W) A)
    (b : Counterparty → Action (Node W) B) (keeps_a : KeepsEntry k a) (keeps_b : KeepsEntry k b)
    (ma : Action (Node W) C) (next_a : C → Task (Node W) A) (ready_a : IsReady k my a ma next_a)
    (mb : Action (Node W) D) (next_b : D → Task (Node W) B)
    (ready_b : IsReady k my b mb next_b) where
  pub both_ready :
      (order : Order) (n : Node W) (c : Counterparty) (o : Bool)
      → order 0 ≡ o
      → lookup k n.storage ≡ some c
      → InTurn k my a b
          (at_once k my a n)
          (at_once k my b n)
          (race order (call ma next_a) (call mb next_b) n)
  unfolding race
  both_ready order n c true o e =
      let n' = (at_once k my a n).1 in
      let (d, found) = entry_kept k my a keeps_a n c e in
      inl (
        race_first ma next_a mb next_b order n (ma n).1 (ma n).0 o refl
        ∙ ap (λ t. race (λ i. order (suc i)) t (call mb next_b) (ma n).1) (ready_a.ends n c e)
        ∙ ap (λ w. race (λ i. order (suc i)) (done (at_once k my a n).0) (call mb next_b) w)
            (ready_a.moves n c e)
        ∙ ap (λ p. ((some (at_once k my a n).0, p.0), p.1))
            (ready_run k my b mb next_b ready_b n' d found))
  both_ready order n c false o e =
      let n' = (at_once k my b n).1 in
      let (d, found) = entry_kept k my b keeps_b n c e in
      inr (
        race_second ma next_a mb next_b order n (mb n).1 (mb n).0 o refl
        ∙ ap (λ t. race (λ i. order (suc i)) (call ma next_a) t (mb n).1) (ready_b.ends n c e)
        ∙ ap (λ w. race (λ i. order (suc i)) (call ma next_a) (done (at_once k my b n).0) w)
            (ready_b.moves n c e)
        ∙ ap (λ p. ((p.0, some (at_once k my b n).0), p.1))
            (ready_run k my a ma next_a ready_a n' d found))
