-- ===== src/Shop/Transaction.antt =====
-- Transactions that a service owns: the steps before its commit, and the whole.
use operations_management.Base.{◌≡◌, refl, arith}
use operations_management.Errors.{Result, ok, err}
use operations_management.Session.{Session, continue}
use operations_management.Shop.{Shop, Notices, Action, Staged}

module _ {A B : Type 0} (f : A → Action B) (s : Session Shop Notices) where
  pub Staged-bind :
      (x : Result A × Session Shop Notices)
      → Staged s x
      → ((a : A) (s' : Session Shop Notices) → Staged s' (f a s'))
      → Staged s (continue x.0 f x.1)
  Staged-bind (ok a, s') h k = ground (arith, k a s')
  Staged-bind (err e, s') h k = h

-- A whole transaction. A return has committed a database with the property; a raise has committed
-- nothing and sent nothing.
abbrev pub Transacts :
    {A : Type 0} → (Shop → Type 0) → Session Shop Notices → Result A × Session Shop Notices → Type 0
Transacts P s (ok a, s') = P s'.db × (s'.committed ≡ s'.db)
Transacts P s (err e, s') = (s'.committed ≡ s.committed) × (s'.memory.sent ≡ s.memory.sent)

-- A staged step in front of the rest of a transaction.
module _ {A B : Type 0} (P : Shop → Type 0) (f : A → Action B) (s : Session Shop Notices) where
  pub Transacts-bind :
      (x : Result A × Session Shop Notices)
      → Staged s x
      → ((a : A) (s' : Session Shop Notices) → x ≡ (ok a, s') → Transacts P s' (f a s'))
      → Transacts P s (continue x.0 f x.1)
  Transacts-bind (ok a, s') h k = rebase (f a s') (k a s' refl)
    where
      rebase : (y : Result B × Session Shop Notices) → Transacts P s' y → Transacts P s y
      rebase (ok b, s'') t = t
      rebase (err e, s'') t = ground arith
  Transacts-bind (err e, s') h k = h
