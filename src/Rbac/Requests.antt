-- ===== src/Rbac/Requests.antt =====
-- app/rbac/routers.py: the routes of roles and permissions as requests, each behind the permission
-- that its `Depends(require_permission(...))` names, in the session of the request.
pub mod Unique
use operations_management.Base.{ℕ, ◌≡◌, refl, ◌⊎◌, inl, inr, true, Option, List, [], ◌∷◌}
use operations_management.Text.{Text}
use operations_management.Errors.{Result, ok, err}
use operations_management.Session.{
  Session, pure, gets, get_session, close_session, continue, ◌>>=◌, ◌>>◌,
}
use operations_management.Auth.{User, Accounts, Outside, is_active}
use operations_management.Auth.Identity.{Decoded, Speaks}
use operations_management.Rbac.{
  Access, AccessAction, Role, create_role, update_role, assign_role_to_user, remove_role_from_user,
  add_permission_to_role, remove_permission_from_role,
}
use operations_management.Rbac.Guard.{
  require_permission, IsAllowed, refusal_excludes, may, Guards, require_permission-Guards,
}

pub data RbacRequest : Type 0 where
  add_role : Text → Option Text → RbacRequest
  edit_role : ℕ → Option Text → Option Text → RbacRequest
  show_roles : RbacRequest
  grant : ℕ → ℕ → RbacRequest
  revoke : ℕ → ℕ → RbacRequest
  assign : ℕ → ℕ → RbacRequest
  unassign : ℕ → ℕ → RbacRequest

pub data RbacAnswer : Type 0 where
  role : Role → RbacAnswer
  roles : List Role → RbacAnswer
  nothing : RbacAnswer

-- The nouns and verbs of the codes in app/common/constants/system_permissions.py.
abbrev roles_ : Text → Text
roles_ verb = b'r' ∷ b'o' ∷ b'l' ∷ b'e' ∷ b's' ∷ b':' ∷ verb

abbrev role_ : Text → Text
role_ verb = b'r' ∷ b'o' ∷ b'l' ∷ b'e' ∷ b':' ∷ verb

abbrev users_ : Text → Text
users_ verb = b'u' ∷ b's' ∷ b'e' ∷ b'r' ∷ b's' ∷ b':' ∷ verb

abbrev assign_ : Text → Text
assign_ noun = b'a' ∷ b's' ∷ b's' ∷ b'i' ∷ b'g' ∷ b'n' ∷ b'_' ∷ noun

abbrev remove_ : Text → Text
remove_ noun = b'r' ∷ b'e' ∷ b'm' ∷ b'o' ∷ b'v' ∷ b'e' ∷ b'_' ∷ noun

abbrev permission_noun : Text
permission_noun = b'p' ∷ b'e' ∷ b'r' ∷ b'm' ∷ b'i' ∷ b's' ∷ b's' ∷ b'i' ∷ b'o' ∷ b'n' ∷ []

abbrev role_noun : Text
role_noun = b'r' ∷ b'o' ∷ b'l' ∷ b'e' ∷ []

-- The permission that a route asks for.
abbrev pub required : RbacRequest → Text
required (RbacRequest.add_role _ _) = roles_ (b'c' ∷ b'r' ∷ b'e' ∷ b'a' ∷ b't' ∷ b'e' ∷ [])
required (RbacRequest.edit_role _ _ _) = roles_ (b'u' ∷ b'p' ∷ b'd' ∷ b'a' ∷ b't' ∷ b'e' ∷ [])
required RbacRequest.show_roles = roles_ (b'v' ∷ b'i' ∷ b'e' ∷ b'w' ∷ [])
required (RbacRequest.grant _ _) = role_ (assign_ permission_noun)
required (RbacRequest.revoke _ _) = role_ (remove_ permission_noun)
required (RbacRequest.assign _ _) = users_ (assign_ role_noun)
required (RbacRequest.unassign _ _) = users_ (remove_ role_noun)

abbrev pub silent : AccessAction (Unit {0}) → AccessAction RbacAnswer
silent m = m >> pure RbacAnswer.nothing

-- The body of a route.
abbrev pub perform : RbacRequest → AccessAction RbacAnswer
perform (RbacRequest.add_role name description) =
    create_role name description >>= λ r. pure (RbacAnswer.role r)
perform (RbacRequest.edit_role i name description) =
    update_role i name description >>= λ r. pure (RbacAnswer.role r)
perform RbacRequest.show_roles = gets (λ d. RbacAnswer.roles d.roles)
perform (RbacRequest.grant i j) = silent (add_permission_to_role i j)
perform (RbacRequest.revoke i j) = silent (remove_permission_from_role i j)
perform (RbacRequest.assign i j) = silent (assign_role_to_user i j)
perform (RbacRequest.unassign i j) = silent (remove_role_from_user i j)

module _ (decode : ℕ → Text → Decoded) where
  -- The guard runs before the body, on the session that the body gets.
  abbrev pub guarded : Text → Session Accounts Outside → RbacRequest → AccessAction RbacAnswer
  guarded token accounts r s =
      continue (require_permission decode (required r) token accounts s) (λ _. perform r) s

  unfoldable pub respond : Text → Session Accounts Outside → RbacRequest → AccessAction RbacAnswer
  respond token accounts r = get_session (guarded token accounts r)

  module _ (token : Text) (accounts : Session Accounts Outside) (r : RbacRequest)
      (s : Session Access (Unit {0})) where
    -- An answer of the guard in place of the body.
    abbrev pub IsRefusal : Result RbacAnswer → Type 0
    IsRefusal (ok _) = ⊥
    IsRefusal (err e) = Guards decode (required r) token accounts s (err e)

    -- Either an allowed caller gets what the body does, or the caller is not allowed, the guard
    -- refuses, and the tables are what they were durably.
    abbrev pub IsGuarded : Result RbacAnswer × Session Access (Unit {0}) → Type 0
    IsGuarded x =
        (IsAllowed decode (required r) token accounts s × (x ≡ get_session (perform r) s))
        ⊎ (IsRefusal x.0
            × (IsAllowed decode (required r) token accounts s → ⊥)
            × (x.1.db ≡ s.committed)
            × (x.1.committed ≡ s.committed))

    after_guard :
        (g : Result (Unit {0}))
        → Guards decode (required r) token accounts s g
        → IsGuarded (close_session (continue g (λ _. perform r) s))
    unfolding get_session
    after_guard (ok _) h = inl (h, refl)
    after_guard (err e) h =
        inr (h, refusal_excludes decode (required r) token accounts s e h, refl, refl)

    -- A route of roles and permissions runs its body for an active caller of a decoded token with
    -- the route's permission, and ends the session as the body's outcome asks. Any other caller is
    -- answered by the guard, 401 without a stored user, 403 without the permission or
    -- `AccountDisabled` for a disabled one, and no table is changed.
    pub respond-IsGuarded : IsGuarded (respond token accounts r s)
    unfolding respond get_session
    respond-IsGuarded =
        after_guard (require_permission decode (required r) token accounts s)
          (require_permission-Guards decode (required r) token accounts s)
