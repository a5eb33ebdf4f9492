-- ===== src/Tests/Auth.antt =====
-- Sessions and passwords, with a toy hash that marks what it hashes.
use operations_management.Base.{ℕ, ◌+◌, ◌≡◌, refl, true, false, none, [], ◌∷◌}
use operations_management.Text.{Text, text_eq, text_eq_refl}
use operations_management.Session.{Session}
use operations_management.Auth.{
  Crypto, User, RefreshToken, PasswordResetToken, Accounts, Outside, refresh_session,
  reset_password,
}
use operations_management.Auth.Sessions.{Resets, reset_password-Resets}
use operations_management.Auth.Rotation.{Rotates, refresh_session-Rotates}

abbrev pub toy : Crypto
toy = record {
  hash_token = λ t. b'h' ∷ t;
  verify_password = λ p h. text_eq h (b'h' ∷ p);
  hash_password = λ k p. b'h' ∷ p;
  sign = λ u roles t jti. u ∷ t ∷ jti ∷ [];
  refresh_life = 604800;
}

pub toy_right : (k : ℕ) (p : Text) → toy.verify_password p (toy.hash_password k p) ≡ true
toy_right k p = text_eq_refl p

abbrev pub alice : User
alice = record {
  id = 1;
  email = b'a' ∷ [];
  username = b'a' ∷ [];
  hashed_password = b'h' ∷ b'p' ∷ [];
  disabled_at = none;
  disabled_by = none;
  reason = none;
  role_names = [];
}

abbrev pub live_token : RefreshToken
live_token = record {
  id = 2;
  token_hash = b'h' ∷ b't' ∷ [];
  user_id = 1;
  expires_at = 1000;
  is_revoked = false;
}

abbrev reset : PasswordResetToken
reset = record { id = 3; user_id = 1; token = b'r' ∷ []; expires_at = 1000; used = false }

abbrev pub accounts : Accounts
accounts = record {
  users = alice ∷ [];
  refresh_tokens = live_token ∷ [];
  reset_tokens = reset ∷ [];
}

abbrev pub session : Session Accounts Outside
session = record {
  db = accounts;
  committed = accounts;
  memory = record {
    secrets = λ n. b's' ∷ n ∷ [];
    drawn_secrets = 0;
    salts = λ n. n;
    drawn_salts = 0;
    mails = [];
  };
  clock = λ n. n + 50;
  reads = 0;
  uuids = λ n. n + 100;
  drawn = 0;
}

refresh_session-Rotates_example :
    Rotates toy (b't' ∷ []) session (refresh_session toy (b't' ∷ []) session)
refresh_session-Rotates_example = refresh_session-Rotates toy (b't' ∷ []) session (refl, tt)

reset_password-Resets_example :
    Resets toy toy_right session
      (b'r' ∷ [])
      (b'q' ∷ [])
      (reset_password toy (b'r' ∷ []) (b'q' ∷ []) session)
reset_password-Resets_example = reset_password-Resets toy toy_right session (b'r' ∷ []) (b'q' ∷ [])
