-- ===== src/Interleave.antt =====
-- Calls whose steps alternate with those of other calls on one node (the futures of
-- guac_core/src/channel_manager.rs and counterparty_api.rs). Every action of a call is a step of its
-- own here, so that others may come between any two; the code lets them come at its requests.
pub mod Steps
pub mod Calls
pub mod Pair
pub mod User
pub mod Alone
pub mod Requests
pub mod Answers
pub mod Jobs
pub mod Direct
pub mod Together
pub mod Crowd
pub mod Serial
pub mod Ledger
use guac_rs.Prelude.{◌≡◌, ◌≢◌, ◌∙◌, refl, Option, none, some, arith, if◌then◌else◌}
use guac_rs.External.{Address}
use guac_rs.Types.{Error, Counterparty}
use guac_rs.Outcome.{Outcome, ok, err, panic, Action, pure, or_panic, raise}
use guac_rs.Storage.{
  Storage, insert, lookup, lookup-insert, get_counterparty, new_counterparty,
  new_counterparty_unknown,
}
use guac_rs.Node.{Node, on_storage, on_world, on_clone, write}
use guac_rs.Task.{Task, done, waiting, step, call, just}

pub stored : (k : Address) (c : Counterparty) (s : Storage) → lookup k (insert k c s) ≡ some c
stored k c s = ground (arith, lookup-insert k k c s)

module _ {W A : Type 0} (their : Address) (Q : Outcome A → Option Counterparty → Type 0) where
  -- A call on the entry of `their` that ends with `Q`, if nobody else moves that entry, and that moves
  -- no other entry.
  unfoldable pub Meets : Task (Node W) A → Option Counterparty → Type 0
  Meets (done r) v = Q r v
  Meets waiting v = ⊥
  Meets (step f k) v =
      (n : Node W)
      → lookup their n.storage ≡ v
      → Meets (k n) (lookup their (f n).storage)
        × ((x : Address) → x ≢ their → lookup x (f n).storage ≡ lookup x n.storage)

  -- What may follow the outcome of an action.
  abbrev Goes : {X : Type 0} → (X → Task (Node W) A) → Outcome X → Option Counterparty → Type 0
  Goes next (ok a) v = Meets (next a) v
  Goes next (err e) v = Q (err e) v
  Goes next panic v = Q panic v

  went :
      {X : Type 0} (next : X → Task (Node W) A) (r : Outcome X) (v : Option Counterparty)
      → Goes next r v
      → Meets
          (elim r as (λ x. Task (Node W) A) [
            | ok a ↦ next a
            | err e ↦ done (err e)
            | panic ↦ done panic
          ])
          v
  unfolding Meets
  went next (ok a) v h = h
  went next (err e) v h = h
  went next panic v h = h

  Goes-by :
      {X : Type 0} (next : X → Task (Node W) A) (v : Option Counterparty) (r : Outcome X)
      → ((a : X) → Meets (next a) v)
      → ((e : Error) → Q (err e) v)
      → Q panic v
      → Goes next r v
  Goes-by next v (ok a) on_ok on_err on_panic = on_ok a
  Goes-by next v (err e) on_ok on_err on_panic = on_err e
  Goes-by next v panic on_ok on_err on_panic = on_panic

  module _ {X : Type 0} (next : X → Task (Node W) A) (v : Option Counterparty) where
    -- An action that leaves the storage alone.
    Meets-reads :
        (m : Action (Node W) X)
        → ((n : Node W) → (m n).1.storage ≡ n.storage)
        → ((n : Node W) → lookup their n.storage ≡ v → Goes next (m n).0 v)
        → Meets (call m next) v
    unfolding Meets
    Meets-reads m same goes n e =
        (rw (same n, e) (went next (m n).0 v (goes n e)), λ x ne. rw (same n) refl)

    -- An action that cannot but succeed, or cannot but fail.
    pub Meets-pure : (a : X) → Meets (next a) v → Meets (call (pure a) next) v
    Meets-pure a h = Meets-reads (pure a) (λ n. refl) (λ n e. h)

    pub Meets-raised : (e : Error) → Q (err e) v → Meets (call (raise e) next) v
    Meets-raised e h = Meets-reads (raise e) (λ n. refl) (λ n e. h)

    -- An action that changes nothing.
    pub Meets-asks :
        (m : Action (Node W) X)
        → ((n : Node W) → (m n).1 ≡ n)
        → ((a : X) → Meets (next a) v)
        → ((e : Error) → Q (err e) v)
        → Q panic v
        → Meets (call m next) v
    Meets-asks m same on_ok on_err on_panic =
        Meets-reads m (λ n. rw (same n) refl) (λ n e. Goes-by next v (m n).0 on_ok on_err on_panic)

    pub Meets-world :
        (m : Action W X)
        → ((a : X) → Meets (next a) v)
        → ((e : Error) → Q (err e) v)
        → Q panic v
        → Meets (call (on_world m) next) v
    Meets-world m on_ok on_err on_panic =
        Meets-reads (on_world m) (λ n. refl)
          (λ n e. Goes-by next v (m n.world).0 on_ok on_err on_panic)

    pub Meets-option :
        (o : Option X)
        → ((a : X) → o ≡ some a → Meets (next a) v)
        → Q panic v
        → Meets (call (or_panic o) next) v
    Meets-option (some a) on_some on_none =
        Meets-reads (or_panic (some a)) (λ n. refl) (λ n e. on_some a refl)
    Meets-option none on_some on_none = Meets-reads (or_panic none) (λ n. refl) (λ n e. on_none)

  module _ (t : Task (Node W) A) (v : Option Counterparty) where
    pub Meets-told :
        (m : Action W (Unit {0}))
        → Meets t v
        → ((e : Error) → Q (err e) v)
        → Q panic v
        → Meets (call (on_world m) (λ _. t)) v
    Meets-told m on_ok on_err on_panic = Meets-world (λ _. t) v m (λ _. on_ok) on_err on_panic

    -- A test, with what it shows if it is passed.
    pub Meets-check :
        (m : Action (Node W) (Unit {0})) (P : Type 0)
        → ((n : Node W) → (m n).1 ≡ n)
        → ((n : Node W) → (m n).0 ≡ ok tt → P)
        → (P → Meets t v)
        → ((e : Error) → Q (err e) v)
        → Q panic v
        → Meets (call m (λ _. t)) v
    Meets-check m P same shows on_ok on_err on_panic =
        Meets-reads (λ _. t) v m (λ n. rw (same n) refl) (λ n e. checked (m n).0 (shows n))
      where
        checked : (r : Outcome (Unit {0})) → (r ≡ ok tt → P) → Goes (λ _. t) r v
        checked (ok a) h = on_ok (h refl)
        checked (err e) h = on_err e
        checked panic h = on_panic

    -- An action that is only a test.
    pub Meets-test :
        (m : Action (Node W) (Unit {0}))
        → ((n : Node W) → (m n).1 ≡ n)
        → Meets t v
        → ((e : Error) → Q (err e) v)
        → Q panic v
        → Meets (call m (λ _. t)) v
    Meets-test m same on_ok on_err on_panic =
        Meets-reads (λ _. t) v m (λ n. rw (same n) refl)
          (λ n e. Goes-by (λ _. t) v (m n).0 (λ _. on_ok) on_err on_panic)

  pub Meets-clone :
      {X C : Type 0} (next : X × C → Task (Node W) A) (v : Option Counterparty)
      → (m : Action C X) (c : C) → ((a : X) (c' : C) → m c ≡ (ok a, c') → Meets (next (a, c')) v)
      → ((e : Error) → Q (err e) v)
      → Q panic v
      → Meets (call (on_clone m c) next) v
  Meets-clone {X} {C} next v m c on_ok on_err on_panic =
      Meets-reads next v (on_clone m c) (λ n. unmoved n (m c)) (λ n e. cloned n (m c) refl)
    where
      unmoved :
          (n : Node W) (p : Outcome X × C)
          → (elim p.0 as (λ x. Outcome (X × C) × Node W) [
            | ok a ↦ (ok (a, p.1), n)
            | err e ↦ (err e, n)
            | panic ↦ (panic, n)
          ]).1.storage
            ≡ n.storage
      unmoved n (ok a, c') = refl
      unmoved n (err x, c') = refl
      unmoved n (panic, c') = refl

      cloned :
          (n : Node W) (p : Outcome X × C)
          → m c ≡ p
          → Goes next
              (elim p.0 as (λ x. Outcome (X × C) × Node W) [
                | ok a ↦ (ok (a, p.1), n)
                | err e ↦ (err e, n)
                | panic ↦ (panic, n)
              ]).0
              v
      cloned n (ok a, c') e = on_ok a c' e
      cloned n (err x, c') e = on_err x
      cloned n (panic, c') e = on_panic

  writes :
      (next : Unit {0} → Task (Node W) A) (v : Option Counterparty) (c : Counterparty)
      → Meets (next tt) (some c)
      → Meets (call (write their c) next) v
  unfolding Meets
  writes next v c h n e =
      (rw (stored their c n.storage) h, λ x ne. ground (arith, lookup-insert their x c n.storage))

  -- The entry is read.
  pub Meets-get :
      (next : Option Counterparty → Task (Node W) A) (v : Option Counterparty)
      → Meets (next v) v
      → Meets (call (on_storage (get_counterparty their)) next) v
  unfolding get_counterparty
  Meets-get next v h =
      Meets-reads next v (on_storage (get_counterparty their)) (λ n. refl) (λ n e. rw e h)

  -- The entry of an unknown counterparty is made.
  pub Meets-new :
      (t : Task (Node W) A) (c : Counterparty)
      → Meets t (some c)
      → Meets (call (on_storage (new_counterparty their c)) (λ _. t)) none
  unfolding Meets
  Meets-new t c h n e =
      rw (new_counterparty_unknown their c n.storage e) (writes (λ _. t) none c h n e)

  pub Meets-write :
      (t : Task (Node W) A) (v : Option Counterparty) (c : Counterparty)
      → Meets t (some c)
      → Meets (call (write their c) (λ _. t)) v
  Meets-write t v c h = writes (λ _. t) v c h

  -- The last action of a call.
  pub Meets-just :
      (m : Action (Node W) A) (v : Option Counterparty)
      → ((n : Node W) → (m n).1 ≡ n)
      → ((n : Node W) → Q (m n).0 v)
      → Meets (just m) v
  unfolding Meets
  Meets-just m v same h =
      Meets-reads (λ a. done (ok a)) v m (λ n. rw (same n) refl) (λ n e. ended (m n).0 (h n))
    where
      ended : (r : Outcome A) → Q r v → Goes (λ a. done (ok a)) r v
      ended (ok a) q = q
      ended (err e) q = q
      ended panic q = q

module _ (W : Type 0) (their : Address)
    (Q : Outcome (Unit {0}) → Option Counterparty → Type 0) where
  -- A call that ends with a write.
  pub Meets-stored :
      (v : Option Counterparty) (c : Counterparty)
      → Q (ok tt) (some c)
      → Meets their Q (just (write {W = W} their c)) v
  unfolding Meets
  Meets-stored v c q = writes {W = W} their Q (λ a. done (ok a)) v c q
