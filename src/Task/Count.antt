-- ===== src/Task/Count.antt =====
-- How often a task does something, by a count that the world keeps of it.
use guac_rs.Prelude.{ℕ, suc, ◌+◌, ◌-◌, ◌≡◌, ◌≤◌, refl, Bool, true, false, Option, none, some, arith}
use guac_rs.Outcome.{Outcome, ok, err, panic, Action}
use guac_rs.Task.{Task, done, waiting, step, call, then, run, join, Order, first_done, second_done}

module _ {W : Type 0} (count : W → ℕ) where
  -- A task that does it `n` times if it succeeds, and otherwise at most that often.
  abbrev pub Counts : {A : Type 0} → ℕ → Task W A → Type 0
  Counts n (done (ok a)) = n ≡ 0
  Counts n (done (err e)) = Unit
  Counts n (done panic) = Unit
  Counts n waiting = Unit
  Counts n (step f k) =
      (w : W) → (m : ℕ) × (count (f w) ≡ count w + m) × (m ≤ n) × Counts (n - m) (k w)

  -- What that says of a run.
  abbrev pub Counted : {A : Type 0} → ℕ → W → Option (Outcome A) × W → Type 0
  Counted n w (some (ok a), w') = count w' ≡ count w + n
  Counted n w (some (err e), w') = (count w ≤ count w') × (count w' ≤ count w + n)
  Counted n w (some panic, w') = (count w ≤ count w') × (count w' ≤ count w + n)
  Counted n w (none, w') = (count w ≤ count w') × (count w' ≤ count w + n)

  Counted-later :
      {A : Type 0} (n m : ℕ) (w v : W) (p : Option (Outcome A) × W)
      → count v ≡ count w + m
      → m ≤ n
      → Counted (n - m) v p
      → Counted n w p
  Counted-later n m w v (some (ok a), w') e le h = omega arith
  Counted-later n m w v (some (err x), w') e le h = omega arith
  Counted-later n m w v (some panic, w') e le h = omega arith
  Counted-later n m w v (none, w') e le h = omega arith

  pub run-Counted : {A : Type 0} (n : ℕ) (t : Task W A) (w : W) → Counts n t → Counted n w (run t w)
  unfolding run
  run-Counted n (done (ok a)) w h = omega arith
  run-Counted n (done (err e)) w h = omega arith
  run-Counted n (done panic) w h = omega arith
  run-Counted n waiting w h = omega arith
  run-Counted n (step f k) w h =
      let (m, e, le, later) = h w in
      Counted-later n m w (f w) (run (k w) (f w)) e le (run-Counted (n - m) (k w) (f w) later)

  module _ {A : Type 0} where
    pub Counts-exact : (m n : ℕ) (t : Task W A) → m ≡ n → Counts m t → Counts n t
    Counts-exact m n t e h = rw (← e) h

  pub Counts-then :
      {A B : Type 0} (m n : ℕ) (t : Task W A) (next : A → Task W B)
      → Counts m t
      → ((a : A) → Counts n (next a))
      → Counts (m + n) (then t next)
  unfolding then
  Counts-then m n (done (ok a)) next h k = Counts-exact n (m + n) (next a) (omega arith) (k a)
  Counts-then m n (done (err e)) next h k = tt
  Counts-then m n (done panic) next h k = tt
  Counts-then m n waiting next h k = tt
  Counts-then m n (step f g) next h k = λ w.
      let (i, e, le, later) = h w in
      (
        i,
        e,
        omega arith,
        Counts-exact ((m - i) + n) ((m + n) - i) (then (g w) next) (omega arith)
            (Counts-then (m - i) n (g w) next later k),
      )

  Counts-answered :
      {A B : Type 0} (n : ℕ) (r : Outcome A) (next : A → Task W B)
      → ((a : A) → Counts n (next a))
      → Counts n
          (elim r as (λ x. Task W B) [ ok a ↦ next a | err e ↦ done (err e) | panic ↦ done panic ])
  Counts-answered n (ok a) next k = k a
  Counts-answered n (err e) next k = tt
  Counts-answered n panic next k = tt

  -- One request that does it `n` times whatever the answer, and what follows it.
  pub Counts-call :
      {A B : Type 0} (n i : ℕ) (m : Action W A) (next : A → Task W B)
      → ((w : W) → count (m w).1 ≡ count w + i)
      → ((a : A) → Counts n (next a))
      → Counts (i + n) (call m next)
  Counts-call n i m next does k w = (
    i,
    does w,
    omega arith,
    Counts-exact n ((i + n) - i) _ (omega arith) (Counts-answered n (m w).0 next k),
  )

  Counts-elim :
      {A : Type 0} (n : ℕ) (b : Bool) (t u : Task W A)
      → Counts n t
      → Counts n u
      → Counts n (elim b as (λ x. Task W A) [ true ↦ t | false ↦ u ])
  Counts-elim n true t u h k = h
  Counts-elim n false t u h k = k

  Counts-first_done :
      {A B : Type 0} (m n : ℕ) (r : Outcome A) (u : Task W B)
      → Counts m (done r)
      → Counts n u
      → Counts (m + n) (first_done r u)
  Counts-first_done m n (ok a) u h k =
      Counts-exact (n + 0) (m + n) (then u (λ b. done (ok (a, b)))) (omega arith)
        (Counts-then n 0 u (λ b. done (ok (a, b))) k (λ b. refl))
  Counts-first_done m n (err e) u h k = tt
  Counts-first_done m n panic u h k = tt

  Counts-second_done :
      {A B : Type 0} (m n : ℕ) (r : Outcome B) (t : Task W A)
      → Counts m t
      → Counts n (done r)
      → Counts (m + n) (second_done r t)
  Counts-second_done m n (ok b) t h k =
      Counts-exact (m + 0) (m + n) (then t (λ a. done (ok (a, b)))) (omega arith)
        (Counts-then m 0 t (λ a. done (ok (a, b))) h (λ a. refl))
  Counts-second_done m n (err e) t h k = tt
  Counts-second_done m n panic t h k = tt

  -- Two tasks at once do it as often as both, in whatever order their requests are answered.
  pub Counts-join :
      {A B : Type 0} (m n : ℕ) (order : Order) (t : Task W A) (u : Task W B)
      → Counts m t
      → Counts n u
      → Counts (m + n) (join order t u)
  unfolding join
  Counts-join m n order (done r) u h k = Counts-first_done m n r u h k
  Counts-join m n order waiting u h k =
      Counts-exact (n + m) (m + n) (then u (λ b. waiting)) (omega arith)
        (Counts-then n m u (λ b. waiting) k (λ b. tt))
  Counts-join m n order (step f g) (done r) h k = Counts-second_done m n r (step f g) h k
  Counts-join m n order (step f g) waiting h k =
      Counts-then m n (step f g) (λ a. waiting) h (λ a. tt)
  Counts-join m n order (step f g) (step f' g') h k =
      let rest = λ (i : ℕ). order (suc i) in
      Counts-elim (m + n) (order 0) _ _
        (λ w.
          let (i, e, le, later) = h w in
          (
            i,
            e,
            omega arith,
            Counts-exact ((m - i) + n) ((m + n) - i) _ (omega arith)
                (Counts-join (m - i) n rest (g w) (step f' g') later k),
          ))
        (λ w.
          let (i, e, le, later) = k w in
          (
            i,
            e,
            omega arith,
            Counts-exact (m + (n - i)) ((m + n) - i) _ (omega arith)
                (Counts-join m (n - i) rest (step f g) (g' w) h later),
          ))
