-- ===== src/Outcome.antt =====
-- How a call ends, and code that changes a state: `Result<_, failure::Error>`, a panic, and the
-- state that is left, which stays written after an error and after a panic.
use guac_rs.Prelude.{◌≡◌, ap, Bool, true, false, Option, none, some}
use guac_rs.Types.{Error}

pub data Outcome {ℓ} (A : Type ℓ) : Type ℓ where
  ok : A → Outcome A
  err : Error → Outcome A
  panic : Outcome A

abbrev pub Action {ℓ} : Type ℓ → Type ℓ → Type ℓ
Action S A = S → Outcome A × S

module _ {S A : Type 0} where
  abbrev pub pure : A → Action S A
  pure a s = (ok a, s)

  abbrev pub raise : Error → Action S A
  raise e s = (err e, s)

  abbrev pub gets : (S → A) → Action S A
  gets f s = (ok (f s), s)

  -- `ok_or`, `ok_or_else`
  abbrev pub or_raise : Option A → Error → Action S A
  or_raise none e s = (err e, s)
  or_raise (some a) e s = (ok a, s)

  -- arithmetic and `expect`
  abbrev pub or_panic : Option A → Action S A
  or_panic none s = (panic, s)
  or_panic (some a) s = (ok a, s)

  abbrev pub lift : Outcome A → Action S A
  lift r s = (r, s)

abbrev pub modify : {S : Type 0} → (S → S) → Action S (Unit {0})
modify f s = (ok tt, f s)

-- `if !b { return Err(e) }`
abbrev pub ensure : {S : Type 0} → Bool → Error → Action S (Unit {0})
ensure true e s = (ok tt, s)
ensure false e s = (err e, s)

infixl 5 ◌>>=◌ ◌>>◌
abbrev pub ◌>>=◌ : {S A B : Type 0} → Action S A → (A → Action S B) → Action S B
◌>>=◌ m f s =
    let (r, s') = m s in elim r [ ok a ↦ f a s' | err e ↦ (err e, s') | panic ↦ (panic, s') ]

abbrev pub ◌>>◌ : {S B : Type 0} → Action S (Unit {0}) → Action S B → Action S B
m >> k = m >>= λ _. k

-- What follows a call that succeeded.
pub bind_ok :
    {S A B : Type 0} (m : Action S A) (f : A → Action S B) {s s' : S} {a : A}
    → m s ≡ (ok a, s')
    → (m >>= f) s ≡ f a s'
bind_ok m f e =
    ap (λ p. elim p.0 [ ok a ↦ f a p.1 | err e ↦ (err e, p.1) | panic ↦ (panic, p.1) ]) e
