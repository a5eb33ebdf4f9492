-- ===== src/Users.antt =====
-- app/users/service.py over app/users/repository.py: sign-up, profiles, and accounts that are closed
-- and opened again. The rows are those of app/auth's model, hashing is its parameter.
pub mod Fixed
pub mod Unique
pub mod Profile
pub mod Requests
pub mod SignUp
pub mod Closing
use operations_management.Base.{
  ℕ, zero, suc, Bool, true, false, ◌||◌, Option, none, some, List, [], ◌∷◌, ◌++◌, ◌==◌, leb, not,
  ◌&&◌, any, is_none, is_some, if◌then◌else◌,
}
use operations_management.Text.{Text, text_eq}
use operations_management.Table.{find, first, put}
use operations_management.Errors.{Failure, UserError}
use operations_management.Session.{
  Service, pure, raise, gets, raise_if, or_raise, or_roll_back, modify, now, uuid7, commit, ◌>>=◌,
  ◌>>◌,
}
use operations_management.Auth.{Crypto, User, Accounts, AuthAction, user_key, get_by_email, salt}

abbrev pub no_user : UserError → Failure
no_user e = Failure.user e

-- `get_by_username`
abbrev pub get_by_username : Text → Accounts → Option User
get_by_username username d = first (λ u. text_eq u.username username) d.users

-- What the database refuses in a new row of `users`: a key, a mail address or a name that is taken.
abbrev pub user_refused : User → Accounts → Bool
user_refused u d =
    is_some (find u.id d.users)
    || is_some (get_by_email u.email d)
    || is_some (get_by_username u.username d)

-- `UserRepository.create_user`, with the key that the insertion draws.
unfoldable pub create_user : Text → Text → Text → AuthAction User
create_user email username hashed_password = do
  i ← uuid7
  let u : User = record {
    id = i;
    email = email;
    username = username;
    hashed_password = hashed_password;
    disabled_at = none;
    disabled_by = none;
    reason = none;
    role_names = [];
  }
  raise_if (← gets (user_refused u)) Failure.integrity_error
  modify (λ d. record d { users = d.users ++ u ∷ [] })
  commit
  pure u

unfoldable pub register_user : Crypto → Text → Text → Text → AuthAction User
register_user crypto email username password = do
  raise_if (is_some (← gets (get_by_email email))) (no_user UserError.user_already_exists)
  raise_if (is_some (← gets (get_by_username username))) (no_user UserError.user_already_exists)
  k ← salt
  or_roll_back (create_user email username (crypto.hash_password k password))
      (no_user UserError.user_already_exists)

-- One item of `data`: an attribute of the user that a caller may set, with `none` for a null, one of
-- the `forbidden_fields`, or a name that the user has no attribute for.
pub data Field : Type 0 where
  email_field username_field password_field : Option Text → Field
  id_field disabled_at_field disabled_by_field : Option ℕ → Field
  reason_field : Option Text → Field
  is_active_field created_at_field updated_at_field : Field
  unknown_field : Text → Field

abbrev pub is_forbidden : Field → Bool
is_forbidden (Field.email_field _) = false
is_forbidden (Field.username_field _) = false
is_forbidden (Field.password_field _) = false
is_forbidden (Field.unknown_field _) = false
is_forbidden _ = true

-- `safe_data`
abbrev pub safe_data : List Field → List Field
safe_data [] = []
safe_data (f ∷ fs) = if is_forbidden f then safe_data fs else f ∷ safe_data fs

-- The columns of the row while `setattr` fills them: they may hold a null until the flush.
pub record Draft : Type 0 where
  pub id : Option ℕ
  pub email : Option Text
  pub username : Option Text
  pub hashed_password : Option Text
  pub disabled_at : Option ℕ
  pub disabled_by : Option ℕ
  pub reason : Option Text

-- `setattr`. The time stamps are not modelled, and `is_active` is no column.
abbrev pub set_field : Field → Draft → Draft
set_field (Field.email_field v) d = record d { email = v }
set_field (Field.username_field v) d = record d { username = v }
set_field (Field.password_field v) d = record d { hashed_password = v }
set_field (Field.id_field v) d = record d { id = v }
set_field (Field.disabled_at_field v) d = record d { disabled_at = v }
set_field (Field.disabled_by_field v) d = record d { disabled_by = v }
set_field (Field.reason_field v) d = record d { reason = v }
set_field _ d = d

-- `for field, value in data.items(): if hasattr(user, field): setattr(user, field, value)`
abbrev pub set_fields : List Field → Draft → Draft
set_fields [] d = d
set_fields (f ∷ fs) d = set_fields fs (set_field f d)

abbrev pub draft_of : User → Draft
draft_of u = record {
  id = some u.id;
  email = some u.email;
  username = some u.username;
  hashed_password = some u.hashed_password;
  disabled_at = u.disabled_at;
  disabled_by = u.disabled_by;
  reason = u.reason;
}

-- The first holder of a value is another row.
abbrev pub is_another : ℕ → Option User → Bool
is_another i none = false
is_another i (some u) = not (u.id == i)

-- `UPDATE` of the row with the key `i`, which may get another key.
abbrev pub update_row : ℕ → User → List User → List User
update_row i u [] = []
update_row i u (x ∷ xs) = if x.id == i then u ∷ xs else x ∷ update_row i u xs

-- The flush of the changed row `i`: the database refuses nulls and values that another row holds.
abbrev pub flush_user : ℕ → User → AuthAction User
flush_user i u = do
  raise_if (is_another i (← gets (λ d. find u.id d.users))) Failure.integrity_error
  raise_if (is_another i (← gets (get_by_email u.email))) Failure.integrity_error
  raise_if (is_another i (← gets (get_by_username u.username))) Failure.integrity_error
  modify (λ d. record d { users = update_row i u d.users })
  commit
  pure u

-- `UserRepository.update_profile`
unfoldable pub update_columns : User → List Field → AuthAction User
update_columns u data_items = do
  let d : Draft = set_fields data_items (draft_of u)
  id ← or_raise d.id Failure.integrity_error
  email ← or_raise d.email Failure.integrity_error
  username ← or_raise d.username Failure.integrity_error
  hashed_password ← or_raise d.hashed_password Failure.integrity_error
  flush_user u.id (record u {
    id = id;
    email = email;
    username = username;
    hashed_password = hashed_password;
    disabled_at = d.disabled_at;
    disabled_by = d.disabled_by;
    reason = d.reason;
  })

-- `if not data` and `if not safe_data`: nothing to do.
abbrev pub update_safe : User → List Field → AuthAction User
update_safe u [] = pure u
update_safe u (f ∷ fs) =
    or_roll_back (update_columns u (f ∷ fs)) (no_user UserError.user_already_exists)

unfoldable pub update_profile : User → List Field → AuthAction User
update_profile current_user data_items = update_safe current_user (safe_data data_items)

unfoldable pub get_user_by_id : ℕ → AuthAction User
get_user_by_id user_id =
    gets (λ d. find user_id d.users) >>= λ u. or_raise u (no_user UserError.user_not_found)

unfoldable pub get_user_by_email : Text → AuthAction User
get_user_by_email email =
    gets (get_by_email email) >>= λ u. or_raise u (no_user UserError.user_not_found)

-- `.offset(skip).limit(limit)`
abbrev pub page {ℓ} : {A : Type ℓ} → ℕ → ℕ → List A → List A
page skip limit [] = []
page zero zero (x ∷ xs) = []
page zero (suc n) (x ∷ xs) = x ∷ page zero n xs
page (suc k) n (x ∷ xs) = page k n xs

-- `min(limit, 100)`
abbrev pub capped : ℕ → ℕ
capped limit = if leb limit 100 then limit else 100

unfoldable pub list_users : ℕ → ℕ → AuthAction (List User)
list_users skip limit = gets (λ d. page skip (capped limit) d.users)

-- The database refuses a `disabled_by` that is no user; the service does not catch that.
-- The assignments of both calls go to the row that the session holds; `commit` makes them durable.
abbrev pub write_user : User → AuthAction User
write_user u = do modify (λ d. record d { users = put u d.users }); commit; pure u

unfoldable pub enable_account : ℕ → AuthAction User
enable_account user_id = do
  u ← get_user_by_id user_id
  write_user (record u { disabled_at = none; disabled_by = none; reason = none })

unfoldable pub disable_account : ℕ → ℕ → Text → AuthAction User
disable_account user_id disabled_by_user_id reason = do
  u ← get_user_by_id user_id
  t ← now
  raise_if (is_none (← gets (λ d. find disabled_by_user_id d.users))) Failure.integrity_error
  write_user (record u {
    disabled_at = some t;
    disabled_by = some disabled_by_user_id;
    reason = some reason;
  })
