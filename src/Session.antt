-- ===== src/Session.antt =====
-- app/infra/database/session.py: a request works in one session on the database. A service call is
-- a state transformer that may raise; what it wrote stays in the session until `commit` makes it
-- durable or `rollback` drops it. `D` is the database, `M` what the service object itself holds.
pub mod Outcome
use operations_management.Base.{ℕ, ◌+◌, Bool, true, false, Option, none, some, if◌then◌else◌}
use operations_management.Errors.{Failure, Result, ok, err}

-- The clock and the generator of uuids are read in order: `clock n` is the n-th reading.
pub record Session (D M : Type 0) : Type 0 where
  pub db : D
  pub committed : D
  pub memory : M
  pub clock : ℕ → ℕ
  pub reads : ℕ
  pub uuids : ℕ → ℕ
  pub drawn : ℕ

abbrev pub Service : Type 0 → Type 0 → Type 0 → Type 0
Service D M A = Session D M → Result A × Session D M

module _ {D M A : Type 0} where
  abbrev pub pure : A → Service D M A
  pure a s = (ok a, s)

  abbrev pub raise : Failure → Service D M A
  raise e s = (err e, s)

  abbrev pub gets : (D → A) → Service D M A
  gets f s = (ok (f s.db), s)

  -- `if x is None: raise e`
  abbrev pub or_raise : Option A → Failure → Service D M A
  or_raise none e = raise e
  or_raise (some a) e = pure a

module _ {D M A B : Type 0} where
  abbrev pub continue : Result A → (A → Service D M B) → Service D M B
  continue (ok a) f s = f a s
  continue (err e) f s = (err e, s)

  infixl 5 ◌>>=◌ ◌>>◌
  abbrev pub ◌>>=◌ : Service D M A → (A → Service D M B) → Service D M B
  ◌>>=◌ m f s = let (r, s') = m s in continue r f s'

  abbrev pub ◌>>◌ : Service D M A → Service D M B → Service D M B
  m >> k = m >>= λ _. k

module _ {D M : Type 0} where
  -- `if test: raise e`
  abbrev pub raise_if : Bool → Failure → Service D M (Unit {0})
  raise_if true e = raise e
  raise_if false e = pure tt

  abbrev pub modify : (D → D) → Service D M (Unit {0})
  modify f s = (ok tt, record s { db = f s.db })

  abbrev pub remember : (M → M) → Service D M (Unit {0})
  remember f s = (ok tt, record s { memory = f s.memory })

  -- `datetime.now(timezone.utc)`
  abbrev pub now : Service D M ℕ
  now s = (ok (s.clock s.reads), record s { reads = s.reads + 1 })

  -- `uuid.uuid7()`
  abbrev pub uuid7 : Service D M ℕ
  uuid7 s = (ok (s.uuids s.drawn), record s { drawn = s.drawn + 1 })

  abbrev pub commit : Service D M (Unit {0})
  commit s = (ok tt, record s { committed = s.db })

  abbrev pub rollback : Session D M → Session D M
  rollback s = record s { db = s.committed }

-- How `get_session` ends a request: commit on a return, roll back on a raise.
module _ {D M A : Type 0} where
  abbrev pub close_session : Result A × Session D M → Result A × Session D M
  close_session (ok a, s) = (ok a, record s { committed = s.db })
  close_session (err e, s) = (err e, rollback s)

  unfoldable pub get_session : Service D M A → Service D M A
  get_session m s = close_session (m s)

-- `except IntegrityError: await session.rollback(); raise e`
module _ {D M A : Type 0} where
  abbrev pub roll_back_refused : Failure → Result A × Session D M → Result A × Session D M
  roll_back_refused e (ok a, s) = (ok a, s)
  roll_back_refused e (err Failure.integrity_error, s) = (err e, rollback s)
  roll_back_refused e (err f, s) = (err f, s)

  abbrev pub or_roll_back : Service D M A → Failure → Service D M A
  or_roll_back m e s = roll_back_refused e (m s)
