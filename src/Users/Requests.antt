-- ===== src/Users/Requests.antt =====
-- The writing routes of app/users/router.py as requests: each finds its caller by the access token,
-- calls the service and ends its session. Their permission checks, which only refuse more, are left
-- out.
use operations_management.Base.{true, ◌⊎◌, ℕ, ◌≡◌, List}
use operations_management.Text.{Text}
use operations_management.Errors.{Failure, UserError, Result, ok, err}
use operations_management.Session.{Session, get_session, ◌>>=◌}
use operations_management.Auth.{Crypto, User, Accounts, Outside, AuthAction, is_active, user_key}
use operations_management.Auth.Identity.{Decoded, Speaks, Answer, get_current_user}
use operations_management.Users.{
  Field, register_user, update_profile, enable_account, disable_account,
}
use operations_management.Users.Profile.{Touches}

module _ (decode : ℕ → Text → Decoded) where
  -- The requests of app/users/router.py that write, their caller known by an access token.
  pub data UserRequest : Type 0 where
    register : Text → Text → Text → UserRequest
    edit_me : Text → List Field → UserRequest
    disable : Text → ℕ → Text → UserRequest
    enable : Text → ℕ → UserRequest

  abbrev pub answer : Crypto → UserRequest → AuthAction User
  answer crypto (UserRequest.register email username password) =
      register_user crypto email username password
  answer crypto (UserRequest.edit_me token fs) =
      get_current_user decode token >>= λ u. update_profile u fs
  answer crypto (UserRequest.disable token i reason) =
      get_current_user decode token >>= λ u. disable_account i u.id reason
  answer crypto (UserRequest.enable token i) =
      get_current_user decode token >>= λ u. enable_account i

  -- One request: what its service did is committed on a return and rolled back on a raise.
  abbrev pub respond : Crypto → UserRequest → AuthAction User
  respond crypto r = get_session (answer crypto r)

  -- How a request for `PATCH /users/me` may end: an active user whom the token names has edited the
  -- own row, durably, or an error is answered and the session holds what was durable before.
  abbrev pub EditsOwn :
      Text → Session Accounts Outside → Result User × Session Accounts Outside → Type 0
  EditsOwn token s (ok u', s') =
      (u : User) × (Speaks decode token s u
        × ((is_active u ≡ true) × (Touches u u' s s' × (s'.committed ≡ s'.db))))
  EditsOwn token s (err e, s') =
      (Answer decode token s (err e) ⊎ (e ≡ Failure.user UserError.user_already_exists))
      × (s'.db ≡ s.committed)
      × (s'.committed ≡ s.committed)
