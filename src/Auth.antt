-- ===== src/Auth.antt =====
-- app/auth/service.py over app/auth/repositories and app/users/repository.py: log-in, the rotation of
-- refresh tokens, and the two ways to a new password. Hashing and signing are other libraries', so
-- they are a parameter.
pub mod Sessions
pub mod Rotation
pub mod Identity
pub mod Requests
pub mod Spent
use operations_management.Base.{
  ℕ, ◌+◌, ◌*◌, Bool, true, false, not, ◌&&◌, ◌||◌, Option, none, some, List, [], ◌∷◌, ◌++◌, map,
  ◌==◌, any, leb, ltb, is_none, is_some, if◌then◌else◌,
}
use operations_management.Text.{Text, text_eq}
use operations_management.Table.{Keyed, find, first, put}
use operations_management.Errors.{Failure, AuthError, Result, ok, err}
use operations_management.Session.{
  Session, Service, pure, raise, gets, raise_if, or_raise, modify, remember, now, uuid7, commit,
  ◌>>=◌, ◌>>◌,
}

-- `sha256`, argon2's `verify` and `hash` (with the salt it draws), `jwt.encode` of an access token,
-- and the life of a refresh token from the settings, in microseconds.
pub record Crypto : Type 0 where
  pub hash_token : Text → Text
  pub verify_password : Text → Text → Bool
  pub hash_password : ℕ → Text → Text
  pub sign : ℕ → List Text → ℕ → ℕ → Text
  pub refresh_life : ℕ

-- `role_names` are the names of `user.roles`; the time stamps of the row are left out.
pub record User : Type 0 where
  pub id : ℕ
  pub email : Text
  pub username : Text
  pub hashed_password : Text
  pub disabled_at : Option ℕ
  pub disabled_by : Option ℕ
  pub reason : Option Text
  pub role_names : List Text

pub record RefreshToken : Type 0 where
  pub id : ℕ
  pub token_hash : Text
  pub user_id : ℕ
  pub expires_at : ℕ
  pub is_revoked : Bool

pub record PasswordResetToken : Type 0 where
  pub id : ℕ
  pub user_id : ℕ
  pub token : Text
  pub expires_at : ℕ
  pub used : Bool

instance abbrev pub user_key : Keyed User
user_key = record { key = λ r. r.id }

instance abbrev pub refresh_token_key : Keyed RefreshToken
refresh_token_key = record { key = λ r. r.id }

instance abbrev pub reset_token_key : Keyed PasswordResetToken
reset_token_key = record { key = λ r. r.id }

pub record Accounts : Type 0 where
  pub users : List User
  pub refresh_tokens : List RefreshToken
  pub reset_tokens : List PasswordResetToken

-- The texts that `secrets.token_urlsafe` gives, the salts of new hashes, and the mails with a reset
-- token that were handed over.
pub record Outside : Type 0 where
  pub secrets : ℕ → Text
  pub drawn_secrets : ℕ
  pub salts : ℕ → ℕ
  pub drawn_salts : ℕ
  pub mails : List (Text × Text)

abbrev pub AuthAction : Type 0 → Type 0
AuthAction = Service Accounts Outside

abbrev pub refused : AuthError → Failure
refused e = Failure.auth e

abbrev pub is_active : User → Bool
is_active u = is_none u.disabled_at

-- `generate_refresh_token` and `generate_reset_token`
abbrev pub token_urlsafe : AuthAction Text
token_urlsafe s = (
  ok (s.memory.secrets s.memory.drawn_secrets),
  record s { memory = record s.memory { drawn_secrets = s.memory.drawn_secrets + 1 } },
)

abbrev pub salt : AuthAction ℕ
salt s = (
  ok (s.memory.salts s.memory.drawn_salts),
  record s { memory = record s.memory { drawn_salts = s.memory.drawn_salts + 1 } },
)

abbrev pub get_by_email : Text → Accounts → Option User
get_by_email email d = first (λ u. text_eq u.email email) d.users

-- `save_user`
abbrev pub save_user : User → AuthAction (Unit {0})
save_user u = do modify (λ d. record d { users = put u d.users }); commit

-- The updates of `RefreshTokenRepository`.
abbrev pub revoke_if : (RefreshToken → Bool) → List RefreshToken → List RefreshToken
revoke_if p [] = []
revoke_if p (t ∷ ts) = (if p t then record t { is_revoked = true } else t) ∷ revoke_if p ts

unfoldable pub revoke : ℕ → AuthAction (Unit {0})
revoke i = do
  modify (λ d. record d { refresh_tokens = revoke_if (λ t. t.id == i) d.refresh_tokens })
  commit

unfoldable pub revoke_all_for_user : ℕ → AuthAction (Unit {0})
revoke_all_for_user user_id = do
  modify (λ d. record d {
    refresh_tokens = revoke_if (λ t. t.user_id == user_id && not t.is_revoked) d.refresh_tokens;
  })
  commit

-- The updates of `PasswordResetTokenRepository`.
abbrev pub use_if : (PasswordResetToken → Bool) → List PasswordResetToken → List PasswordResetToken
use_if p [] = []
use_if p (r ∷ rs) = (if p r then record r { used = true } else r) ∷ use_if p rs

unfoldable pub invalidate : Text → AuthAction (Unit {0})
invalidate token = do
  modify (λ d. record d { reset_tokens = use_if (λ r. text_eq r.token token) d.reset_tokens })
  commit

unfoldable pub invalidate_all_for_user : ℕ → AuthAction (Unit {0})
invalidate_all_for_user user_id = do
  modify (λ d. record d {
    reset_tokens = use_if (λ r. r.user_id == user_id && not r.used) d.reset_tokens;
  })
  commit

unfoldable pub create_reset_token : ℕ → Text → ℕ → AuthAction (Unit {0})
create_reset_token user_id token expires_at = do
  i ← uuid7
  let r : PasswordResetToken = record {
    id = i;
    user_id = user_id;
    token = token;
    expires_at = expires_at;
    used = false;
  }
  raise_if (is_some (find i (← gets (λ d. d.reset_tokens)))) Failure.integrity_error
  raise_if (any (λ x. text_eq x.token token) (← gets (λ d. d.reset_tokens))) Failure.integrity_error
  modify (λ d. record d { reset_tokens = d.reset_tokens ++ r ∷ [] })
  commit

-- `get_valid`
abbrev pub get_valid : Text → ℕ → Accounts → Option PasswordResetToken
get_valid token t d =
    first (λ r. text_eq r.token token && not r.used && ltb t r.expires_at) d.reset_tokens

-- Ten minutes, in microseconds.
abbrev pub reset_life : ℕ
reset_life = 600000000

unfoldable pub forgot_password : Text → AuthAction (Unit {0})
forgot_password email = do
  found ← gets (get_by_email email)
  elim found [
    | none ↦ pure tt
    | some u ↦ if not (is_active u) then pure tt else (do
      invalidate_all_for_user u.id
      token ← token_urlsafe
      t ← now
      create_reset_token u.id token (t + reset_life)
      remember (λ m. record m { mails = m.mails ++ (u.email, token) ∷ [] }))
  ]

module _ (crypto : Crypto) where
  -- `RefreshTokenRepository.create`
  unfoldable pub create_refresh_token : ℕ → Text → ℕ → AuthAction (Unit {0})
  create_refresh_token user_id token expires_at = do
    i ← uuid7
    let r : RefreshToken = record {
      id = i;
      token_hash = crypto.hash_token token;
      user_id = user_id;
      expires_at = expires_at;
      is_revoked = false;
    }
    raise_if (is_some (find i (← gets (λ d. d.refresh_tokens)))) Failure.integrity_error
    raise_if (any (λ x. text_eq x.token_hash r.token_hash) (← gets (λ d. d.refresh_tokens)))
        Failure.integrity_error
    modify (λ d. record d { refresh_tokens = d.refresh_tokens ++ r ∷ [] })
    commit

  abbrev pub is_live : Text → RefreshToken → Bool
  is_live token t = text_eq t.token_hash (crypto.hash_token token) && not t.is_revoked

  abbrev pub get_active : Text → Accounts → Option RefreshToken
  get_active token d = first (is_live token) d.refresh_tokens

  unfoldable pub create_access_token : User → AuthAction Text
  create_access_token u = do t ← now; jti ← uuid7; pure (crypto.sign u.id u.role_names t jti)

  -- What `login` and `refresh_session` share: a new refresh token.
  unfoldable pub issue : ℕ → AuthAction Text
  issue user_id = do
    token ← token_urlsafe
    t ← now
    create_refresh_token user_id token (t + crypto.refresh_life)
    pure token

  unfoldable pub login : Text → Text → AuthAction (Text × Text)
  login email password = do
    u ← or_raise (← gets (get_by_email email)) (refused AuthError.invalid_credentials)
    raise_if (not (crypto.verify_password password u.hashed_password))
        (refused AuthError.invalid_credentials)
    raise_if (not (is_active u)) (refused AuthError.account_disabled)
    access ← create_access_token u
    refresh ← issue u.id
    pure (access, refresh)

  unfoldable pub logout : Text → AuthAction (Unit {0})
  logout refresh_token = do
    t ← or_raise (← gets (get_active refresh_token)) (refused AuthError.token_invalid)
    revoke t.id

  -- The part of `refresh_session` behind its checks.
  unfoldable pub rotate : RefreshToken → User → AuthAction (Text × Text)
  rotate t u = do
    revoke t.id
    refresh ← issue t.user_id
    access ← create_access_token u
    pure (access, refresh)

  unfoldable pub refresh_session : Text → AuthAction (Text × Text)
  refresh_session refresh_token = do
    t ← or_raise (← gets (get_active refresh_token)) (refused AuthError.token_expired)
    raise_if (ltb t.expires_at (← now)) (refused AuthError.token_expired)
    u ← or_raise (← gets (λ d. find t.user_id d.users)) (refused AuthError.token_invalid)
    raise_if (not (is_active u)) (refused AuthError.account_disabled)
    rotate t u

  -- `user.hashed_password = hash_password(...)` and `save_user`.
  unfoldable pub set_password : User → Text → AuthAction (Unit {0})
  set_password u password = do
    k ← salt
    save_user (record u { hashed_password = crypto.hash_password k password })

  unfoldable pub reset_password : Text → Text → AuthAction (Unit {0})
  reset_password token new_password = do
    t ← now
    r ← or_raise (← gets (get_valid token t)) (refused AuthError.token_invalid)
    raise_if (ltb r.expires_at (← now)) (refused AuthError.token_expired)
    u ← or_raise (← gets (λ d. find r.user_id d.users)) (refused AuthError.token_invalid)
    raise_if (not (is_active u)) (refused AuthError.account_disabled)
    set_password u new_password
    invalidate token
    revoke_all_for_user r.user_id

  unfoldable pub change_password : User → Text → Text → AuthAction (Unit {0})
  change_password current_user old_password new_password = do
    raise_if (not (crypto.verify_password old_password current_user.hashed_password))
        (refused AuthError.invalid_credentials)
    set_password current_user new_password
    revoke_all_for_user current_user.id
