-- ===== src/Race/Serial.antt =====
-- Two calls for one counterparty come to the same as one after the other.
use guac_rs.Prelude.{suc, ltb, ◌≡◌, ◌∙◌, ap, refl, ◌⊎◌, true, false, Option, none, some, arith}
use guac_rs.External.{Address}
use guac_rs.Types.{Counterparty, new, bail}
use guac_rs.Outcome.{Outcome, ok, err, panic, Action, or_panic, bind_ok, ◌>>=◌}
use guac_rs.Storage.{
  lookup, insert, lookup-insert, get_counterparty, new_counterparty, new_counterparty_unknown,
  new_counterparty_known,
}
use guac_rs.Node.{Node, on_storage, make_counterparty_if_none}
use guac_rs.Task.{Task, done, call, Order}
use guac_rs.Race.{race, found_one, at_once, look, locked, looked}

-- What a request is followed by, given its answer.
abbrev pub resume : {W A B : Type 0} → (A → Task W B) → Outcome A → Task W B
resume next r = elim r [ ok a ↦ next a | err e ↦ done (err e) | panic ↦ done panic ]

pub resume-done : {W A : Type 0} (r : Outcome A) → resume {W = W} (λ a. done (ok a)) r ≡ done r
resume-done (ok a) = refl
resume-done (err e) = refl
resume-done panic = refl

module _ {W A B C D : Type 0} (m : Action W C) (next : C → Task W A) (m' : Action W D)
    (next' : D → Task W B) where
  pub race_first :
      (order : Order) (w w' : W) (r : Outcome C)
      → order 0 ≡ true
      → m w ≡ (r, w')
      → race order (call m next) (call m' next') w
        ≡ race (λ n. order (suc n)) (resume next r) (call m' next') w'
  unfolding race
  race_first order w w' r first e =
      rw first (ap (λ p. race (λ n. order (suc n)) (resume next p.0) (call m' next') p.1) e)

  pub race_second :
      (order : Order) (w w' : W) (r : Outcome D)
      → order 0 ≡ false
      → m' w ≡ (r, w')
      → race order (call m next) (call m' next') w
        ≡ race (λ n. order (suc n)) (call m next) (resume next' r) w'
  unfolding race
  race_second order w w' r second e =
      rw second (ap (λ p. race (λ n. order (suc n)) (call m next) (resume next' p.0) p.1) e)

module _ {W A : Type 0} (k my : Address) (body : Counterparty → Action (Node W) A) where
  pub resume-looked : (r : Outcome A) → resume (looked k my body) (found_one r) ≡ done r
  resume-looked (ok a) = refl
  resume-looked (err e) = refl
  resume-looked panic = refl

  pub look-known :
      (n : Node W) (c : Counterparty)
      → lookup k n.storage ≡ some c
      → look k my body n ≡ (found_one (body c n).0, (body c n).1)
  look-known n c e = rw (e, look) refl

  pub look-unknown : (n : Node W) → lookup k n.storage ≡ none → look k my body n ≡ (ok none, n)
  look-unknown n e = rw (e, look) refl

  pub locked-known :
      (n : Node W) (c : Counterparty) → lookup k n.storage ≡ some c → locked k my body n ≡ body c n
  unfolding get_counterparty
  locked-known n c e = rw e refl

  pub at_once-known :
      (n : Node W) (c : Counterparty) → lookup k n.storage ≡ some c → at_once k my body n ≡ body c n
  unfolding get_counterparty make_counterparty_if_none
  at_once-known n c e = rw e refl

  -- The node once the entry is made.
  abbrev pub made : Node W → Node W
  made n = record n { storage = insert k (new (ltb my k)) n.storage }

  pub made_known : (n : Node W) → lookup k (made n).storage ≡ some (new (ltb my k))
  made_known n = ground (arith, lookup-insert k k (new (ltb my k)) n.storage)

  -- Making the entry, where there is none and where there is one.
  abbrev pub make : Action (Node W) (Unit {0})
  make = on_storage (new_counterparty k (new (ltb my k)))

  pub make-unknown : (n : Node W) → lookup k n.storage ≡ none → make n ≡ (ok tt, made n)
  make-unknown n e =
      ap (λ p. (p.0, record n { storage = p.1 }))
        (new_counterparty_unknown k (new (ltb my k)) n.storage e)

  pub make-known :
      (n : Node W) (c : Counterparty)
      → lookup k n.storage ≡ some c
      → make n ≡ (err (bail "Counterparty already exists"), n)
  make-known n c e =
      ap (λ p. (p.0, record n { storage = p.1 }))
        (new_counterparty_known k (new (ltb my k)) c n.storage e)

  make_counterparty_if_none-unknown :
      (n : Node W)
      → lookup k n.storage ≡ none
      → make_counterparty_if_none k my none n ≡ (ok (new (ltb my k)), made n)
  unfolding make_counterparty_if_none get_counterparty
  make_counterparty_if_none-unknown n e =
      bind_ok make (λ _. do counterparty ← on_storage (get_counterparty k); or_panic counterparty)
        (make-unknown n e)
      ∙ rw (made_known n) refl

  pub at_once-unknown :
      (n : Node W)
      → lookup k n.storage ≡ none
      → at_once k my body n ≡ body (new (ltb my k)) (made n)
  unfolding get_counterparty
  at_once-unknown n e =
      rw e
        (bind_ok (make_counterparty_if_none k my none) body (make_counterparty_if_none-unknown n e))

abbrev pub exists : {A : Type 0} → Outcome A
exists = err (bail "Counterparty already exists")

-- How two calls ended that ran one after the other, or of which one found that the other had just
-- made the entry.
module _ {W A B : Type 0} (k my : Address) (a : Counterparty → Action (Node W) A)
    (b : Counterparty → Action (Node W) B) where
  -- By how each of them ends alone.
  abbrev pub InTurn :
      Outcome A × Node W
      → Outcome B × Node W
      → (Option (Outcome A) × Option (Outcome B)) × Node W
      → Type 0
  InTurn n_a n_b p =
      let n_ab = at_once k my b n_a.1 in
      let n_ba = at_once k my a n_b.1 in
      (p ≡ ((some n_a.0, some n_ab.0), n_ab.1)) ⊎ (p ≡ ((some n_ba.0, some n_b.0), n_ba.1))

  abbrev pub OneRefused :
      Outcome A × Node W
      → Outcome B × Node W
      → (Option (Outcome A) × Option (Outcome B)) × Node W
      → Type 0
  OneRefused n_a n_b p =
      (p ≡ ((some n_a.0, some exists), n_a.1)) ⊎ (p ≡ ((some exists, some n_b.0), n_b.1))

abbrev pub Serial :
    {W A B : Type 0}
    → Action (Node W) A
    → Action (Node W) B
    → Node W
    → (Option (Outcome A) × Option (Outcome B)) × Node W
    → Type 0
Serial a b n p =
    let n_ab = b (a n).1 in
    let n_ba = a (b n).1 in
    ((p ≡ ((some (a n).0, some n_ab.0), n_ab.1)) ⊎ (p ≡ ((some n_ba.0, some (b n).0), n_ba.1)))
    ⊎ ((p ≡ ((some (a n).0, some exists), (a n).1)) ⊎ (p ≡ ((some exists, some (b n).0), (b n).1)))

-- A call that leaves its counterparty an entry.
abbrev pub KeepsEntry : {W A : Type 0} → Address → (Counterparty → Action (Node W) A) → Type 0
KeepsEntry {W} k body =
    (c : Counterparty) (n : Node W)
    → lookup k n.storage ≡ some c
    → (d : Counterparty) × (lookup k (body c n).1.storage ≡ some d)
