-- ===== src/Rbac/Guard.antt =====
-- app/rbac/dependencies.py: the guard of a route, `require_permission`, over the caller that
-- app/auth/dependencies.py finds.
use operations_management.Base.{
  ℕ, ◌≡◌, refl, ◌⊎◌, inl, inr, Bool, true, false, ◌&&◌, arith, Bool-cases,
}
use operations_management.Text.{Text}
use operations_management.Errors.{Failure, AuthError, RbacError, Result, ok, err}
use operations_management.Session.{Session}
use operations_management.Rbac.{Access, is_user, has_permission, ensure_permission}
use operations_management.Auth.{User, Accounts, Outside, is_active}
use operations_management.Auth.Identity.{
  Decoded, get_current_user, Speaks, Speaks-unique, Answer, get_current_user-Identifies,
}

-- `except PermissionDenied: raise HTTPException(403)`
abbrev pub hide_denied : Result (Unit {0}) → Result (Unit {0})
hide_denied (ok x) = ok x
hide_denied (err (Failure.rbac RbacError.permission_denied)) = err (Failure.http 403)
hide_denied (err e) = err e

module _ (decode : ℕ → Text → Decoded) where
  abbrev pub permit : Text → Session Access (Unit {0}) → Result User → Result (Unit {0})
  permit code rights (ok u) = hide_denied (ensure_permission u.id code rights).0
  permit code rights (err e) = err e

  -- `dependency`, made by `require_permission(code)`, for a request with a token. The two parts of the
  -- database that it reads are two sessions here.
  unfoldable pub require_permission :
      Text → Text → Session Accounts Outside → Session Access (Unit {0}) → Result (Unit {0})
  require_permission code token s rights = permit code rights (get_current_user decode token s).0

  module _ (code token : Text) (s : Session Accounts Outside)
      (rights : Session Access (Unit {0})) where
    -- The user is known to the tables of rights and has the permission there.
    abbrev pub may : User → Bool
    may u = is_user u.id rights.db && has_permission u.id code rights.db

    -- How a guard may end.
    abbrev pub Guards : Result (Unit {0}) → Type 0
    Guards (ok _) = (u : User) × Speaks decode token s u × (is_active u ≡ true) × (may u ≡ true)
    Guards (err (Failure.http n)) =
        ((n ≡ 401) × ((u : User) → Speaks decode token s u → ⊥))
        ⊎ ((n ≡ 403)
            × ((u : User) × Speaks decode token s u × (is_active u ≡ true) × (may u ≡ false)))
    Guards (err (Failure.auth AuthError.account_disabled)) =
        (u : User) × Speaks decode token s u × (is_active u ≡ false)
    Guards (err _) = ⊥

    -- The caller of the token has the permission.
    abbrev pub IsAllowed : Type 0
    IsAllowed = (u : User) × Speaks decode token s u × (is_active u ≡ true) × (may u ≡ true)

    -- An allowed caller is not refused.
    pub refusal_excludes : (e : Failure) → Guards (err e) → IsAllowed → ⊥
    refusal_excludes (Failure.http n) (inl (_, nobody)) (u, spoken, active, has) = nobody u spoken
    refusal_excludes (Failure.http n) (inr (_, (v, spoken', _, lacks))) (u, spoken, active, has) =
        let same = Speaks-unique decode token s u v spoken spoken' in cc
    refusal_excludes (Failure.auth AuthError.account_disabled) (v, spoken', disabled)
          (u, spoken, active, has) =
        let same = Speaks-unique decode token s u v spoken spoken' in cc
    refusal_excludes (Failure.auth AuthError.invalid_credentials) h k = elim h [ ]
    refusal_excludes (Failure.auth AuthError.token_expired) h k = elim h [ ]
    refusal_excludes (Failure.auth AuthError.token_invalid) h k = elim h [ ]
    refusal_excludes (Failure.inventory _) h k = elim h [ ]
    refusal_excludes (Failure.order _) h k = elim h [ ]
    refusal_excludes (Failure.rbac _) h k = elim h [ ]
    refusal_excludes (Failure.user _) h k = elim h [ ]
    refusal_excludes (Failure.assistant _) h k = elim h [ ]
    refusal_excludes Failure.integrity_error h k = elim h [ ]
    refusal_excludes Failure.value_error h k = elim h [ ]
    refusal_excludes Failure.type_error h k = elim h [ ]

    permit-Guards : (r : Result User) → Answer decode token s r → Guards (permit code rights r)
    unfolding ensure_permission
    permit-Guards (err (Failure.http n)) h = inl h
    permit-Guards (err (Failure.auth AuthError.account_disabled)) h = h
    permit-Guards (err (Failure.auth AuthError.invalid_credentials)) h = elim h [ ]
    permit-Guards (err (Failure.auth AuthError.token_expired)) h = elim h [ ]
    permit-Guards (err (Failure.auth AuthError.token_invalid)) h = elim h [ ]
    permit-Guards (err (Failure.inventory _)) h = elim h [ ]
    permit-Guards (err (Failure.order _)) h = elim h [ ]
    permit-Guards (err (Failure.rbac _)) h = elim h [ ]
    permit-Guards (err (Failure.user _)) h = elim h [ ]
    permit-Guards (err (Failure.assistant _)) h = elim h [ ]
    permit-Guards (err Failure.integrity_error) h = elim h [ ]
    permit-Guards (err Failure.value_error) h = elim h [ ]
    permit-Guards (err Failure.type_error) h = elim h [ ]
    permit-Guards (ok u) (spoken, active) = elim (Bool-cases (is_user u.id rights.db)) [
      | inr unknown ↦ rw unknown (inr (refl, (u, spoken, active, ground arith)))
      | inl known ↦ rw known (elim (Bool-cases (has_permission u.id code rights.db)) [
        | inr lacks ↦ rw lacks (inr (refl, (u, spoken, active, ground arith)))
        | inl has ↦ rw has (u, spoken, active, ground arith)
      ])
    ]

    -- `require_permission` lets a request through only for an active user whom a decoded access
    -- token names and who has the permission. It refuses with 403 only an active user whom the token
    -- names and who lacks the permission, with 401 only a token that names no stored user, and with
    -- `AccountDisabled` only a user whom the token names and who is disabled; it gives no other
    -- answer.
    pub require_permission-Guards : Guards (require_permission code token s rights)
    unfolding require_permission
    require_permission-Guards =
        permit-Guards (get_current_user decode token s).0
          (get_current_user-Identifies decode token s).0
