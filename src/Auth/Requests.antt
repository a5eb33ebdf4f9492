-- ===== src/Auth/Requests.antt =====
-- The routes of app/auth/routers.py as requests, each in a session that `get_session` ends; the
-- rate limits before them, which only refuse more, are left out.
pub mod Replay
use operations_management.Base.{ℕ, List, [], ◌∷◌}
use operations_management.Text.{Text}
use operations_management.Session.{Session, pure, get_session, ◌>>=◌, ◌>>◌}
use operations_management.Auth.{
  Crypto, Accounts, Outside, AuthAction, login, refresh_session, logout, forgot_password,
  reset_password, change_password,
}
use operations_management.Auth.Identity.{Decoded, get_current_user}

pub data AuthRequest : Type 0 where
  post_login : Text → Text → AuthRequest
  post_refresh : Text → AuthRequest
  post_logout : Text → AuthRequest
  post_forgot : Text → AuthRequest
  post_reset : Text → Text → AuthRequest
  post_change : Text → Text → Text → AuthRequest

module _ (crypto : Crypto) (decode : ℕ → Text → Decoded) where
  abbrev pub perform : AuthRequest → AuthAction (Unit {0})
  perform (AuthRequest.post_login email password) = login crypto email password >> pure tt
  perform (AuthRequest.post_refresh token) = refresh_session crypto token >> pure tt
  perform (AuthRequest.post_logout token) = logout crypto token
  perform (AuthRequest.post_forgot email) = forgot_password email
  perform (AuthRequest.post_reset token password) = reset_password crypto token password
  perform (AuthRequest.post_change token old new) =
      get_current_user decode token >>= λ u. change_password crypto u old new

  unfoldable pub respond : AuthRequest → AuthAction (Unit {0})
  respond r = get_session (perform r)

  -- Requests one after another, whatever each answers.
  abbrev pub respond_all : List AuthRequest → Session Accounts Outside → Session Accounts Outside
  respond_all [] s = s
  respond_all (r ∷ rs) s = respond_all rs (respond r s).1
