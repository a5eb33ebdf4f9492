-- ===== src/Users/Unique.antt =====
-- What the constraints of the model in app/users/model.py keep: distinct keys, mail addresses and names.
use operations_management.Text.{Text}
use operations_management.Table.{IsKeyed}
use operations_management.Table.Unique.{IsUnique}
use operations_management.Auth.{User, Accounts, user_key}

abbrev pub email_of : User → Text
email_of u = u.email

abbrev pub username_of : User → Text
username_of u = u.username

-- No two users share a key, a mail address or a name.
pub record UsersUnique (d : Accounts) : Type 0 where
  pub keyed : IsKeyed d.users
  pub emails : IsUnique email_of d.users
  pub names : IsUnique username_of d.users
