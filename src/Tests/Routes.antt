-- ===== src/Tests/Routes.antt =====
-- A call of a shop route with its token and its header.
use operations_management.Base.{◌≡◌, refl, some, none, [], ◌∷◌}
use operations_management.Int.{pos}
use operations_management.Text.{Text}
use operations_management.Errors.{Failure, err}
use operations_management.Session.{Session, get_session}
use operations_management.Rbac.{Access}
use operations_management.Rbac.Guard.{require_permission}
use operations_management.Auth.Identity.{get_current_user, verify_access_token, decode_token}
use operations_management.Requests.Routes.{Route, permission_of, respond}
use operations_management.Requests.Attributed.{Obeys, respond-Obeys}
use operations_management.Tests.Auth
use operations_management.Tests.Users.{toy_decode}
use operations_management.Tests.Data

-- Three pieces are taken.
abbrev take_three : Route
take_three = Route.post_out 1 (pos 3)

-- User 1 has the permission that the route asks for.
abbrev rights : Session Access (Unit {0})
rights =
    let code : Text = permission_of take_three in
    let d : Access = record {
      users = 1 ∷ [];
      roles = record { id = 3; name = b'a' ∷ []; description = none } ∷ [];
      permissions = record { id = 5; code = code; name = code } ∷ [];
      user_roles = record { user_id = 1; role_id = 3 } ∷ [];
      role_permissions = record { role_id = 3; permission_id = 5 } ∷ [];
    } in
    record {
      db = d;
      committed = d;
      memory = tt;
      clock = λ n. n;
      reads = 0;
      uuids = λ n. n;
      drawn = 0;
    }

respond-Obeys_example :
    Obeys toy_decode
      (1 ∷ [])
      (some 2)
      Auth.session
      rights
      take_three
      Data.session
      (respond toy_decode (1 ∷ []) (some 2) Auth.session rights take_three Data.session)
respond-Obeys_example =
    respond-Obeys toy_decode (1 ∷ []) (some 2) Auth.session rights take_three Data.session

-- Nobody without a token.
no_token :
    (respond toy_decode [] (some 2) Auth.session rights take_three Data.session).0
    ≡ err (Failure.http 401)
unfolding respond get_session require_permission get_current_user verify_access_token decode_token
no_token = refl
