-- ===== src/Race/Orders.antt =====
-- All orders of the steps of two calls.
use mathlib.Core.Path.{subst⁻¹, subst₂}
use guac_rs.Prelude.{
  suc, ltb, ◌≡◌, ◌∙◌, sym, ap, refl, inl, inr, Bool, true, false, Option, none, some, Option-cases,
}
use guac_rs.External.{Address}
use guac_rs.Types.{Counterparty, new}
use guac_rs.Outcome.{Outcome, ok, Action}
use guac_rs.Storage.{lookup}
use guac_rs.Node.{Node}
use guac_rs.Task.{Task, done, call, just, run, Order}
use guac_rs.Task.Run.{run-call, answer}
use guac_rs.Race.{race, at_once, look, locked, looked, steps}
use guac_rs.Race.Serial.{
  race_first, race_second, look-unknown, made, made_known, make, make-unknown, make-known,
  at_once-known, at_once-unknown, exists, InTurn, OneRefused, Serial, KeepsEntry,
}
use guac_rs.Race.Ready.{look-IsReady, locked-IsReady, ready_run, entry_kept, both_ready}

module _ {W A : Type 0} (k my : Address) (body : Counterparty → Action (Node W) A) where
  -- A call that has found no entry.
  abbrev making : Task (Node W) A
  making = looked k my body none

  at_once-made :
      (n : Node W)
      → lookup k n.storage ≡ none
      → at_once k my body (made k my body n) ≡ at_once k my body n
  at_once-made n e =
      at_once-known k my body (made k my body n) (new (ltb my k)) (made_known k my body n)
      ∙ sym (at_once-unknown k my body n e)

  making_refused :
      (n : Node W) (c : Counterparty)
      → lookup k n.storage ≡ some c
      → run making n ≡ (some exists, n)
  making_refused n c e =
      run-call (make k my body) (λ _. just (locked k my body)) n
      ∙ ap (answer (λ _. just (locked k my body))) (make-known k my body n c e)

module _ {W A B : Type 0} (k my : Address) (a : Counterparty → Action (Node W) A)
    (b : Counterparty → Action (Node W) B) (keeps_a : KeepsEntry k a)
    (keeps_b : KeepsEntry k b) where
  first_made :
      (order : Order) (n : Node W) (c : Counterparty) (o : Bool)
      → order 0 ≡ o
      → lookup k n.storage ≡ some c
      → race order (just (locked k my a)) (making k my b) n
        ≡ ((some (at_once k my a n).0, some exists), (at_once k my a n).1)
  unfolding race
  first_made order n c true o e =
      let (d, found) = entry_kept k my a keeps_a n c e in
      let r = locked-IsReady k my a in
      race_first (locked k my a) (λ x. done (ok x)) (make k my b) (λ _. just (locked k my b)) order
        n (locked k my a n).1 (locked k my a n).0 o refl
      ∙ ap (λ t. race (λ i. order (suc i)) t (making k my b) (locked k my a n).1) (r.ends n c e)
      ∙ ap (λ w. race (λ i. order (suc i)) (done (at_once k my a n).0) (making k my b) w)
          (r.moves n c e)
      ∙ ap (λ p. ((some (at_once k my a n).0, p.0), p.1))
          (making_refused k my b (at_once k my a n).1 d found)
  first_made order n c false o e =
      race_second (locked k my a) (λ x. done (ok x)) (make k my b) (λ _. just (locked k my b)) order
        n n exists o (make-known k my b n c e)
      ∙ ap (λ p. ((p.0, some exists), p.1))
          (ready_run k my a (locked k my a) (λ x. done (ok x)) (locked-IsReady k my a) n c e)

  second_made :
      (order : Order) (n : Node W) (c : Counterparty) (o : Bool)
      → order 0 ≡ o
      → lookup k n.storage ≡ some c
      → race order (making k my a) (just (locked k my b)) n
        ≡ ((some exists, some (at_once k my b n).0), (at_once k my b n).1)
  unfolding race
  second_made order n c false o e =
      let (d, found) = entry_kept k my b keeps_b n c e in
      let r = locked-IsReady k my b in
      race_second (make k my a) (λ _. just (locked k my a)) (locked k my b) (λ x. done (ok x)) order
        n (locked k my b n).1 (locked k my b n).0 o refl
      ∙ ap (λ t. race (λ i. order (suc i)) (making k my a) t (locked k my b n).1) (r.ends n c e)
      ∙ ap (λ w. race (λ i. order (suc i)) (making k my a) (done (at_once k my b n).0) w)
          (r.moves n c e)
      ∙ ap (λ p. ((p.0, some (at_once k my b n).0), p.1))
          (making_refused k my a (at_once k my b n).1 d found)
  second_made order n c true o e =
      race_first (make k my a) (λ _. just (locked k my a)) (locked k my b) (λ x. done (ok x)) order
        n n exists o (make-known k my a n c e)
      ∙ ap (λ p. ((some exists, p.0), p.1))
          (ready_run k my b (locked k my b) (λ x. done (ok x)) (locked-IsReady k my b) n c e)

  abbrev Turned : Node W → (Option (Outcome A) × Option (Outcome B)) × Node W → Type 0
  Turned n = InTurn k my a b (at_once k my a n) (at_once k my b n)

  abbrev Refused : Node W → (Option (Outcome A) × Option (Outcome B)) × Node W → Type 0
  Refused n = OneRefused k my a b (at_once k my a n) (at_once k my b n)

  -- From the node with the new entry back to the one without.
  Turned-made :
      (n : Node W) (p : (Option (Outcome A) × Option (Outcome B)) × Node W)
      → lookup k n.storage ≡ none
      → Turned (made k my a n) p
      → Turned n p
  Turned-made n p e =
      subst₂ (λ x y. InTurn k my a b x y p) (at_once-made k my a n e) (at_once-made k my b n e)

  Refused-made :
      (n : Node W) (p : (Option (Outcome A) × Option (Outcome B)) × Node W)
      → lookup k n.storage ≡ none
      → Refused (made k my a n) p
      → Refused n p
  Refused-made n p e =
      subst₂ (λ x y. OneRefused k my a b x y p) (at_once-made k my a n e) (at_once-made k my b n e)

  -- Neither has found an entry, and neither has made it.
  both_making :
      (order : Order) (n : Node W) (o : Bool)
      → order 0 ≡ o
      → lookup k n.storage ≡ none
      → Refused n (race order (making k my a) (making k my b) n)
  both_making order n true o e =
      let n' = made k my a n in
      Refused-made n _ e (
        inl (
          race_first (make k my a) (λ _. just (locked k my a)) (make k my b)
            (λ _. just (locked k my b)) order n n' (ok tt) o (make-unknown k my a n e)
          ∙ first_made (λ i. order (suc i)) n' (new (ltb my k)) (order 1) refl
              (made_known k my a n)))
  both_making order n false o e =
      let n' = made k my a n in
      Refused-made n _ e (
        inr (
          race_second (make k my a) (λ _. just (locked k my a)) (make k my b)
            (λ _. just (locked k my b)) order n n' (ok tt) o (make-unknown k my b n e)
          ∙ second_made (λ i. order (suc i)) n' (new (ltb my k)) (order 1) refl
              (made_known k my a n)))

  -- The first has found no entry, and the second has not looked.
  first_making :
      (order : Order) (n : Node W) (o : Bool)
      → order 0 ≡ o
      → lookup k n.storage ≡ none
      → Serial
          (at_once k my a)
          (at_once k my b)
          n
          (race order (making k my a) (call (look k my b) (looked k my b)) n)
  first_making order n true o e =
      let n' = made k my a n in
      subst⁻¹ (Serial (at_once k my a) (at_once k my b) n)
        (race_first (make k my a) (λ _. just (locked k my a)) (look k my b) (looked k my b) order n
          n' (ok tt) o (make-unknown k my a n e))
        (inl (
          Turned-made n _ e (
            both_ready k my a b keeps_a keeps_b (locked k my a) (λ x. done (ok x))
              (locked-IsReady k my a) (look k my b) (looked k my b) (look-IsReady k my b)
              (λ i. order (suc i)) n' (new (ltb my k)) (order 1) refl (made_known k my a n))))
  first_making order n false o e =
      subst⁻¹ (Serial (at_once k my a) (at_once k my b) n)
        (race_second (make k my a) (λ _. just (locked k my a)) (look k my b) (looked k my b) order n
          n (ok none) o (look-unknown k my b n e))
        (inr (both_making (λ i. order (suc i)) n (order 1) refl e))

  second_making :
      (order : Order) (n : Node W) (o : Bool)
      → order 0 ≡ o
      → lookup k n.storage ≡ none
      → Serial
          (at_once k my a)
          (at_once k my b)
          n
          (race order (call (look k my a) (looked k my a)) (making k my b) n)
  second_making order n true o e =
      subst⁻¹ (Serial (at_once k my a) (at_once k my b) n)
        (race_first (look k my a) (looked k my a) (make k my b) (λ _. just (locked k my b)) order n
          n (ok none) o (look-unknown k my a n e))
        (inr (both_making (λ i. order (suc i)) n (order 1) refl e))
  second_making order n false o e =
      let n' = made k my b n in
      subst⁻¹ (Serial (at_once k my a) (at_once k my b) n)
        (race_second (look k my a) (looked k my a) (make k my b) (λ _. just (locked k my b)) order n
          n' (ok tt) o (make-unknown k my b n e))
        (inl (
          Turned-made n _ e (
            both_ready k my a b keeps_a keeps_b (look k my a) (looked k my a) (look-IsReady k my a)
              (locked k my b) (λ x. done (ok x)) (locked-IsReady k my b) (λ i. order (suc i)) n'
              (new (ltb my k)) (order 1) refl (made_known k my b n))))

  unknown-Serial :
      (order : Order) (n : Node W) (o : Bool)
      → order 0 ≡ o
      → lookup k n.storage ≡ none
      → Serial (at_once k my a) (at_once k my b) n (race order (steps k my a) (steps k my b) n)
  unfolding steps
  unknown-Serial order n true o e =
      subst⁻¹ (Serial (at_once k my a) (at_once k my b) n)
        (race_first (look k my a) (looked k my a) (look k my b) (looked k my b) order n n (ok none)
          o (look-unknown k my a n e))
        (first_making (λ i. order (suc i)) n (order 1) refl e)
  unknown-Serial order n false o e =
      subst⁻¹ (Serial (at_once k my a) (at_once k my b) n)
        (race_second (look k my a) (looked k my a) (look k my b) (looked k my b) order n n (ok none)
          o (look-unknown k my b n e))
        (second_making (λ i. order (suc i)) n (order 1) refl e)

  pub race-Serial :
      (order : Order) (n : Node W)
      → Serial (at_once k my a) (at_once k my b) n (race order (steps k my a) (steps k my b) n)
  unfolding steps
  race-Serial order n = elim (Option-cases (lookup k n.storage)) [
    | inl unknown ↦ unknown-Serial order n (order 0) refl unknown
    | inr (c, known) ↦ inl (
        both_ready k my a b keeps_a keeps_b (look k my a) (looked k my a) (look-IsReady k my a)
          (look k my b) (looked k my b) (look-IsReady k my b) order n c (order 0) refl known)
  ]
