-- ===== src/Rbac/Requests/Unique.antt =====
-- The constraints on the tables of rights under the requests of app/rbac/routers.py.
use operations_management.Base.{ℕ, refl}
use operations_management.Text.{Text}
use operations_management.Errors.{Result, ok, err}
use operations_management.Session.{pure, Session, close_session, continue, get_session}
use operations_management.Session.Outcome.{Safe}
use operations_management.Auth.{Accounts, Outside}
use operations_management.Auth.Identity.{Decoded}
use operations_management.Rbac.{Access, role_key, permission_key}
use operations_management.Rbac.Guard.{require_permission}
use operations_management.Rbac.Requests.{RbacRequest, required, perform, guarded, respond}
use operations_management.Rbac.Constraints.{AccessUnique}
use operations_management.Rbac.Unique.{
  Keeps, create_role-Keeps, update_role-Keeps, assign_role_to_user-Keeps,
  add_permission_to_role-Keeps, remove_role_from_user-Keeps, remove_permission_from_role-Keeps,
}

-- What is answered is no table.
then-Keeps :
    {A B : Type 0} (f : A → B) (s : Session Access (Unit {0}))
    (x : Result A × Session Access (Unit {0}))
    → Keeps s x
    → Keeps s (continue x.0 (λ a. pure (f a)) x.1)
then-Keeps f s (ok a, s') h = h
then-Keeps f s (err e, s') h = h

perform-Keeps :
    (r : RbacRequest) (s : Session Access (Unit {0})) → AccessUnique s.db → Keeps s (perform r s)
perform-Keeps (RbacRequest.add_role name description) s h =
    then-Keeps _ s _ (create_role-Keeps name description s h)
perform-Keeps (RbacRequest.edit_role i name description) s h =
    then-Keeps _ s _ (update_role-Keeps i name description s h)
perform-Keeps RbacRequest.show_roles s h = (h, refl)
perform-Keeps (RbacRequest.grant i j) s h = then-Keeps _ s _ (add_permission_to_role-Keeps i j s h)
perform-Keeps (RbacRequest.revoke i j) s h =
    then-Keeps _ s _ (remove_permission_from_role-Keeps i j s h)
perform-Keeps (RbacRequest.assign i j) s h = then-Keeps _ s _ (assign_role_to_user-Keeps i j s h)
perform-Keeps (RbacRequest.unassign i j) s h =
    then-Keeps _ s _ (remove_role_from_user-Keeps i j s h)

close_session-Safe :
    {A : Type 0} (s : Session Access (Unit {0})) (x : Result A × Session Access (Unit {0}))
    → Safe AccessUnique s
    → Keeps s x
    → Safe AccessUnique (close_session x).1
close_session-Safe s (ok a, s') h k = (k.0, k.0)
close_session-Safe s (err e, s') h k = (rw k.1 h.1, rw k.1 h.1)

module _ (decode : ℕ → Text → Decoded) (token : Text) (accounts : Session Accounts Outside)
    (r : RbacRequest) (s : Session Access (Unit {0})) where
  guarded-Keeps :
      (g : Result (Unit {0})) → AccessUnique s.db → Keeps s (continue g (λ _. perform r) s)
  guarded-Keeps (ok _) h = perform-Keeps r s h
  guarded-Keeps (err e) h = (h, refl)

  -- When no two roles share a key or a name and no role or permission is given twice, in the session
  -- and durably, that stays so after any request of the rights routes, granted or refused.
  pub respond-Unique : Safe AccessUnique s → Safe AccessUnique (respond decode token accounts r s).1
  unfolding respond get_session
  respond-Unique h =
      close_session-Safe s (guarded decode token accounts r s) h
        (guarded-Keeps (require_permission decode (required r) token accounts s) h.0)
