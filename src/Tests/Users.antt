-- ===== src/Tests/Users.antt =====
-- Sign-up, closing and opening accounts, with the toy hash of the sessions' tests.
use operations_management.Base.{ℕ, ◌≡◌, refl, true, some, List, [], ◌∷◌}
use operations_management.Text.{Text}
use operations_management.Session.{Session}
use operations_management.Session.Outcome.{Safe}
use operations_management.Auth.Identity.{Decoded, access_type}
use operations_management.Rbac.{Access}
use operations_management.Rbac.Guard.{require_permission, Guards, require_permission-Guards}
use operations_management.Users.{register_user, disable_account, Field}
use operations_management.Users.Unique.{UsersUnique}
use operations_management.Users.SignUp.{Welcomes, register_user-Welcomes}
use operations_management.Users.Closing.{ShutsOut, disable_account-ShutsOut}
use operations_management.Auth.{Accounts, Outside, refresh_session}
use operations_management.Errors.{Failure, AuthError, err}
use operations_management.Auth.Requests.{AuthRequest, respond_all}
use operations_management.Auth.Spent.{Spent}
use operations_management.Auth.Requests.Replay.{respond_all-Spent}
use operations_management.Tests.Auth.{live_token, toy, toy_right, session}

-- A token that names the user of its first number.
abbrev pub toy_decode : ℕ → Text → Decoded
toy_decode t [] = Decoded.py_jwt_error
toy_decode t (i ∷ _) = Decoded.claims record { token_type = some access_type; sub = some (some i) }

abbrev only_alice : Safe UsersUnique session
only_alice = (
  record { keyed = (refl, tt); emails = (refl, tt); names = (refl, tt) },
  record { keyed = (refl, tt); emails = (refl, tt); names = (refl, tt) },
)

-- Alice may take another mail address, not another key.
abbrev edits : List Field
edits = Field.id_field (some 5) ∷ Field.email_field (some (b'b' ∷ [])) ∷ []

register_user-Welcomes_example :
    Welcomes toy
      (b'b' ∷ [])
      (b'b' ∷ [])
      (b'q' ∷ [])
      session
      (register_user toy (b'b' ∷ []) (b'b' ∷ []) (b'q' ∷ []) session)
register_user-Welcomes_example =
    register_user-Welcomes toy (b'b' ∷ []) (b'b' ∷ []) (b'q' ∷ []) session toy_right
      record { key = refl; hash = refl }

disable_account-ShutsOut_example :
    ShutsOut toy toy_decode 1 1 (b'x' ∷ []) session (disable_account 1 1 (b'x' ∷ []) session)
disable_account-ShutsOut_example =
    disable_account-ShutsOut toy toy_decode 1 1 (b'x' ∷ []) session (only_alice.0)

-- Alice holds no role, so the guard refuses her by 403.
abbrev rights : Session Access (Unit {0})
rights =
    let d : Access = record {
      users = 1 ∷ [];
      roles = [];
      permissions = [];
      user_roles = [];
      role_permissions = [];
    } in
    record {
      db = d;
      committed = d;
      memory = tt;
      clock = λ n. n;
      reads = 0;
      uuids = λ n. n;
      drawn = 0;
    }

require_permission-Guards_example :
    Guards toy_decode
      (b'v' ∷ [])
      (1 ∷ [])
      session
      rights
      (require_permission toy_decode (b'v' ∷ []) (1 ∷ []) session rights)
require_permission-Guards_example =
    require_permission-Guards toy_decode (b'v' ∷ []) (1 ∷ []) session rights

-- The token `t` has been used; a log-in and another use of it follow.
abbrev used : Session Accounts Outside
used =
    let d = record session.db { refresh_tokens = record live_token { is_revoked = true } ∷ [] } in
    record session { db = d; committed = d }

abbrev calls : List AuthRequest
calls = AuthRequest.post_login (b'a' ∷ []) (b'p' ∷ []) ∷ AuthRequest.post_refresh (b't' ∷ []) ∷ []

respond_all-Spent_example :
    Safe (Spent toy (b't' ∷ [])) (respond_all toy toy_decode calls used)
    × ((refresh_session toy (b't' ∷ []) (respond_all toy toy_decode calls used)).0
        ≡ err (Failure.auth AuthError.token_expired))
respond_all-Spent_example =
    respond_all-Spent toy (b't' ∷ []) toy_decode calls used ((refl, refl), (refl, refl))
