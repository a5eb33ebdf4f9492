-- ===== src/Session/Outcome.antt =====
-- How a call may end: by a return, with a fact about the value and the database that it leaves, or
-- by a raise, with a fact about the error.
use operations_management.Base.{◌≡◌, arith}
use operations_management.Errors.{Failure, Result, ok, err}
use operations_management.Session.{Session, Service, continue, get_session}

module _ {D M A : Type 0} where
  -- After a raise nothing has been committed since the call began, so a rollback undoes it all.
  abbrev pub Atomic : Session D M → Result A × Session D M → Type 0
  Atomic s (ok a, s') = Unit
  Atomic s (err e, s') = s'.committed ≡ s.committed

  pub get_session-Atomic :
      (m : Service D M A) (s : Session D M) (e : Failure)
      → Atomic s (m s)
      → (get_session m s).0 ≡ err e
      → (get_session m s).1.db ≡ s.committed
  unfolding get_session
  get_session-Atomic m s e h p = ground arith

  -- A fact about the database after a return.
  abbrev pub Returns : (D → Type 0) → Result A × Session D M → Type 0
  Returns P (ok a, s') = P s'.db
  Returns P (err e, s') = Unit

  -- A fact about the whole session after a return.
  abbrev pub Leaves : (Session D M → Type 0) → Result A × Session D M → Type 0
  Leaves Q (ok a, s') = Q s'
  Leaves Q (err e, s') = Unit

module _ {D M : Type 0} where
  -- A fact about both what the session sees and what is durable.
  abbrev pub Safe : (D → Type 0) → Session D M → Type 0
  Safe P s = P s.db × P s.committed

-- The rule for one step and the rest.
module _ {D M A B : Type 0} (P : D → Type 0) (f : A → Service D M B) where
  pub Returns-bind :
      (x : Result A × Session D M)
      → Returns P x
      → ((a : A) (s : Session D M) → P s.db → Returns P (f a s))
      → Returns P (continue x.0 f x.1)
  Returns-bind (ok a, s) h k = k a s h
  Returns-bind (err e, s) h k = tt

module _ {D M A B : Type 0} (Q : Session D M → Type 0) (f : A → Service D M B) where
  pub Leaves-bind :
      (x : Result A × Session D M)
      → Leaves Q x
      → ((a : A) (s : Session D M) → Q s → Leaves Q (f a s))
      → Leaves Q (continue x.0 f x.1)
  Leaves-bind (ok a, s) h k = k a s h
  Leaves-bind (err e, s) h k = tt
