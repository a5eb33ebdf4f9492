-- ===== src/Tests/Rbac.antt =====
-- Roles and permissions.
use operations_management.Base.{refl, arith, List, ◌+◌, ◌≡◌, none, [], ◌∷◌, any, if◌then◌else◌}
use operations_management.Text.{Text, text_eq}
use operations_management.Errors.{Failure, RbacError, ok, err}
use operations_management.Session.{Session}
use operations_management.Rbac.{
  Access, get_user_permissions, ensure_permission, assign_role_to_user,
}
use operations_management.Rbac.Grants.{ensure-get_user_permissions}
use operations_management.Rbac.{create_role}
use operations_management.Session.{get_session}
use operations_management.Rbac.Guard.{require_permission}
use operations_management.Auth.Identity.{get_current_user, verify_access_token, decode_token}
use operations_management.Rbac.Requests.{
  RbacRequest, RbacAnswer, required, respond, IsGuarded, respond-IsGuarded,
}
use operations_management.Rbac.Constraints.{AccessUnique}
use operations_management.Rbac.Requests.Unique.{respond-Unique}
use operations_management.Bootstraps.{
  seed_role, seed_grant, SystemRole, seed_permissions, seed_roles,
}
use operations_management.Bootstraps.Seeding.{Ready, Seeds, seed_permissions-Seeds}
use operations_management.Bootstraps.Roles.{Ends, seed_roles-Ends}
use operations_management.Session.Outcome.{Safe}
use operations_management.Tests.Auth
use operations_management.Tests.Users.{toy_decode}
use operations_management.Rbac.Changes.{Assigns, assign_role_to_user-Assigns}

abbrev view : Text
view = b'v' ∷ []

-- User 1 has role 3, which carries permission 5; role 4 carries nothing.
abbrev access : Access
access = record {
  users = 1 ∷ 2 ∷ [];
  roles =
      record { id = 3; name = b'a' ∷ []; description = none }
      ∷ record { id = 4; name = b'e' ∷ []; description = none }
      ∷ [];
  permissions = record { id = 5; code = view; name = view } ∷ [];
  user_roles = record { user_id = 1; role_id = 3 } ∷ [];
  role_permissions = record { role_id = 3; permission_id = 5 } ∷ [];
}

abbrev session : Session Access (Unit {0})
session = record {
  db = access;
  committed = access;
  memory = tt;
  clock = λ n. n;
  reads = 0;
  uuids = λ n. n + 100;
  drawn = 0;
}

ensure-get_user_permissions_example : ensure_permission 1 view session ≡ (
  if any (λ c. text_eq c view) (get_user_permissions 1 access)
      then ok tt
      else err (Failure.rbac RbacError.permission_denied),
  session,
)
ensure-get_user_permissions_example = ensure-get_user_permissions 1 view session

assign_role_to_user-Assigns_example : Assigns 2 3 session (assign_role_to_user 2 3 session)
assign_role_to_user-Assigns_example = assign_role_to_user-Assigns 2 3 session

-- A request for a new role, by user 1, whose role carries the permission that the route asks for.
abbrev role_wanted : RbacRequest
role_wanted = RbacRequest.add_role (b'z' ∷ []) none

abbrev ruled : Session Access (Unit {0})
ruled =
    let d = record access {
      permissions =
          record { id = 5; code = required role_wanted; name = required role_wanted } ∷ [];
    } in
    record session { db = d; committed = d }

respond_adds :
    (respond toy_decode (1 ∷ []) Auth.session role_wanted ruled).0
    ≡ ok (RbacAnswer.role record { id = 100; name = b'z' ∷ []; description = none })
unfolding respond get_session require_permission get_current_user verify_access_token decode_token
    ensure_permission create_role
respond_adds = refl

respond-IsGuarded_example :
    IsGuarded toy_decode
      (1 ∷ [])
      Auth.session
      role_wanted
      ruled
      (respond toy_decode (1 ∷ []) Auth.session role_wanted ruled)
respond-IsGuarded_example = respond-IsGuarded toy_decode (1 ∷ []) Auth.session role_wanted ruled

access_is_unique : AccessUnique ruled.db
access_is_unique = record {
  keyed = (refl, (refl, tt));
  names = (refl, (refl, tt));
  pairs = (refl, tt);
  grants = (refl, tt);
}

respond-Unique_example :
    Safe AccessUnique (respond toy_decode (1 ∷ []) Auth.session role_wanted ruled).1
respond-Unique_example =
    respond-Unique toy_decode (1 ∷ []) Auth.session role_wanted ruled
      (access_is_unique, access_is_unique)

-- The uuids from 100 on are new here.
session-Ready : Ready session
session-Ready = record {
  distinct = λ m n e. omega arith;
  fresh = λ n. ground arith;
  named = (refl, tt);
}

seed_permissions-Seeds_example :
    ((seed_permissions (view ∷ (b'w' ∷ []) ∷ []) session).0 ≡ ok tt)
    × Seeds (view ∷ (b'w' ∷ []) ∷ []) session (seed_permissions (view ∷ (b'w' ∷ []) ∷ []) session).1
seed_permissions-Seeds_example =
    seed_permissions-Seeds (view ∷ (b'w' ∷ []) ∷ []) session session-Ready

-- The role `a` is there, the role `c` is not.
abbrev items : List SystemRole
items =
    record { name = b'a' ∷ []; codes = view ∷ [] } ∷ record { name = b'c' ∷ []; codes = [] } ∷ []

seed_roles_fails : (seed_roles items session).0 ≡ err Failure.type_error
unfolding seed_roles get_session seed_role seed_grant
seed_roles_fails = refl

seed_roles-Ends_example : Ends items session (seed_roles items session)
seed_roles-Ends_example = seed_roles-Ends items session
