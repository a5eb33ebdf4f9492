-- ===== src/Users/SignUp.antt =====
-- Signing up with app/users/service.py and then logging in with app/auth/service.py.
use operations_management.Base.{
  ℕ, ◌+◌, ◌≡◌, refl, true, false, none, some, [], ◌∷◌, ◌++◌, arith, inl, inr, any, Option-cases,
}
use operations_management.Text.{Text, text_eq, text_eq_refl}
use operations_management.Table.{find}
use operations_management.Table.Laws.{find-append, first-append}
use operations_management.Errors.{Failure, UserError, Result, ok, err}
use operations_management.Session.{Session}
use operations_management.Auth.{
  Crypto, User, RefreshToken, Accounts, Outside, user_key, refresh_token_key, is_active,
  get_by_email, get_active, issue, create_refresh_token, create_access_token, login,
}
use operations_management.Auth.Rotation.{appended_found}
use operations_management.Users.{get_by_username, create_user, register_user}

module _ (crypto : Crypto) where
  -- The texts and uuids that the next log-in draws are in use nowhere, `n` uuids from now.
  pub record Fresh (n : ℕ) (s : Session Accounts Outside) : Type 0 where
    pub key : find (s.uuids (s.drawn + n)) s.db.refresh_tokens ≡ none
    pub hash :
        any
          (λ (t : RefreshToken).
            text_eq t.token_hash (crypto.hash_token (s.memory.secrets s.memory.drawn_secrets)))
          s.db.refresh_tokens
        ≡ false

  -- The refresh token of the answer is a live one of the user.
  abbrev pub Opens : ℕ → Result (Text × Text) × Session Accounts Outside → Type 0
  Opens i (ok (access, fresh), s) =
      (t : RefreshToken) × (get_active crypto fresh s.db ≡ some t) × (t.user_id ≡ i)
  Opens i (err e, s) = ⊥

  login-Opens :
      (email password : Text) (u : User) (s : Session Accounts Outside)
      → get_by_email email s.db ≡ some u
      → crypto.verify_password password u.hashed_password ≡ true
      → is_active u ≡ true
      → Fresh 1 s
      → Opens u.id (login crypto email password s)
  unfolding login issue create_refresh_token create_access_token
  login-Opens email password u s e right active fresh =
      let h = crypto.hash_token (s.memory.secrets s.memory.drawn_secrets) in
      let r : RefreshToken = record {
        id = s.uuids (s.drawn + 1);
        token_hash = h;
        user_id = u.id;
        expires_at = s.clock (s.reads + 1) + crypto.refresh_life;
        is_revoked = false;
      } in
      rw e (
        rw right (
          rw active (
            rw fresh.key (
              rw fresh.hash (
                r,
                appended_found h r s.db.refresh_tokens (text_eq_refl h) refl fresh.hash,
                refl,
              )))))

  module _ (email username : Text) where
    -- The row of a new user.
    abbrev row : ℕ → Text → User
    row i p = record {
      id = i;
      email = email;
      username = username;
      hashed_password = p;
      disabled_at = none;
      disabled_by = none;
      reason = none;
      role_names = [];
    }

  module _ (email username password : Text) (s : Session Accounts Outside) where
    -- The new user is stored, durably, and can log in with the password.
    pub record Welcome (u : User) (s' : Session Accounts Outside) : Type 0 where
      pub same_email : u.email ≡ email
      pub same_username : u.username ≡ username
      pub found : find u.id s'.db.users ≡ some u
      pub durable : s'.committed ≡ s'.db
      pub opens : Opens u.id (login crypto email password s')

    -- How a sign-up may end.
    abbrev pub Welcomes : Result User × Session Accounts Outside → Type 0
    Welcomes (ok u, s') = Welcome u s'
    Welcomes (err e, s') =
        (e ≡ Failure.user UserError.user_already_exists) × (s'.committed ≡ s.committed)

    module _
        (right : (k : ℕ) (p : Text) → crypto.verify_password p (crypto.hash_password k p) ≡ true)
        (fresh : Fresh 2 s) where
      new_user-Welcome :
          (i : ℕ) (p : Text)
          → crypto.verify_password password p ≡ true
          → find i s.db.users ≡ none
          → get_by_email email s.db ≡ none
          → (s' : Session Accounts Outside)
          → s'.db.users ≡ s.db.users ++ row email username i p ∷ []
          → s'.committed ≡ s'.db
          → Fresh 1 s'
          → Welcome (row email username i p) s'
      new_user-Welcome i p matches free unused s' e durable fresh' = record {
        same_email = refl;
        same_username = refl;
        found = rw e (ground (arith, find-append i (row email username i p) s.db.users));
        durable = durable;
        opens =
            login-Opens email password (row email username i p) s'
              (rw e (
                ground (
                  arith,
                  first-append (λ u. text_eq u.email email) (row email username i p) s.db.users,
                  text_eq_refl email,
                )))
              matches refl fresh';
      }

      -- When hashing and checking fit together and the token that the log-in draws is in use nowhere,
      -- `register_user` stores a user who can log in with the password at once; or it raises
      -- `UserAlreadyExists` with nothing committed.
      pub register_user-Welcomes : Welcomes (register_user crypto email username password s)
      unfolding register_user create_user
      register_user-Welcomes =
          let p = crypto.hash_password (s.memory.salts s.memory.drawn_salts) password in
          elim (Option-cases (get_by_email email s.db)) [
            | inr (x, e) ↦ rw e (refl, refl)
            | inl free ↦ rw free (elim (Option-cases (get_by_username username s.db)) [
              | inr (x, e) ↦ rw e (refl, refl)
              | inl unused ↦ rw unused (elim (Option-cases (find (s.uuids s.drawn) s.db.users)) [
                | inr (x, e) ↦ rw e (refl, refl)
                | inl unkeyed ↦
                    rw (unkeyed, free, unused)
                      (new_user-Welcome (s.uuids s.drawn) p (right _ password) unkeyed free _ refl
                        refl (record { key = ground (arith, fresh.key); hash = fresh.hash }))
              ])
            ])
          ]
