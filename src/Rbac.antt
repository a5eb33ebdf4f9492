-- ===== src/Rbac.antt =====
-- app/rbac: roles, permissions and who has them. app/rbac/models gives the tables,
-- app/rbac/repositories the queries and app/rbac/service.py the calls; `users` keeps the keys of the
-- users alone. The calls flush and leave the commit to `get_session`.
pub mod Grants
pub mod Changes
pub mod Guard
pub mod Requests
pub mod Unique
pub mod Constraints
use operations_management.Base.{
  ℕ, Bool, true, false, not, ◌&&◌, ◌||◌, Option, none, some, List, [], ◌∷◌, ◌++◌, map, ◌==◌, any,
  select, is_none, is_some, if◌then◌else◌,
}
use operations_management.Text.{Text, text_eq}
use operations_management.Table.{Keyed, find, first, put}
use operations_management.Errors.{Failure, RbacError}
use operations_management.Session.{
  Service, pure, raise, gets, raise_if, or_raise, modify, uuid7, ◌>>=◌, ◌>>◌,
}

pub record Role : Type 0 where
  pub id : ℕ
  pub name : Text
  pub description : Option Text

pub record Permission : Type 0 where
  pub id : ℕ
  pub code : Text
  pub name : Text

pub record UserRole : Type 0 where
  pub user_id : ℕ
  pub role_id : ℕ

pub record RolePermission : Type 0 where
  pub role_id : ℕ
  pub permission_id : ℕ

instance abbrev pub role_key : Keyed Role
role_key = record { key = λ r. r.id }

instance abbrev pub permission_key : Keyed Permission
permission_key = record { key = λ r. r.id }

pub record Access : Type 0 where
  pub users : List ℕ
  pub roles : List Role
  pub permissions : List Permission
  pub user_roles : List UserRole
  pub role_permissions : List RolePermission

abbrev pub AccessAction : Type 0 → Type 0
AccessAction = Service Access (Unit {0})

abbrev pub refuse_with : RbacError → Failure
refuse_with e = Failure.rbac e

-- `RoleRepository.get_by_name`
abbrev pub role_by_name : Text → Access → Option Role
role_by_name name d = first (λ r. text_eq r.name name) d.roles

abbrev pub is_pair : ℕ → ℕ → UserRole → Bool
is_pair user_id role_id x = x.user_id == user_id && x.role_id == role_id

abbrev pub is_grant : ℕ → ℕ → RolePermission → Bool
is_grant role_id permission_id x = x.role_id == role_id && x.permission_id == permission_id

abbrev pub user_has_role : ℕ → ℕ → Access → Bool
user_has_role user_id role_id d = any (is_pair user_id role_id) d.user_roles

abbrev pub role_has_permission : ℕ → ℕ → Access → Bool
role_has_permission role_id permission_id d =
    any (is_grant role_id permission_id) d.role_permissions

-- The constraints of `roles`: the primary key and the name.
abbrev pub role_refused : Role → Access → Bool
role_refused r d = is_some (find r.id d.roles) || is_some (role_by_name r.name d)

unfoldable pub create_role : Text → Option Text → AccessAction Role
create_role name description = do
  raise_if (is_some (← gets (role_by_name name))) (refuse_with RbacError.role_already_exists)
  i ← uuid7
  let r : Role = record { id = i; name = name; description = description }
  raise_if (← gets (role_refused r)) Failure.integrity_error
  modify (λ d. record d { roles = d.roles ++ r ∷ [] })
  pure r

-- `if name`: a name that is given and not empty.
abbrev pub given : Option Text → Option Text
given none = none
given (some []) = none
given (some (c ∷ t)) = some (c ∷ t)

abbrev pub is_other_role : ℕ → Option Role → Bool
is_other_role i none = false
is_other_role i (some r) = not (r.id == i)

abbrev pub rename : Option Text → Role → AccessAction Role
rename none r = pure r
rename (some name) r = do
  existing ← gets (role_by_name name)
  raise_if (is_other_role r.id existing) (refuse_with RbacError.role_already_exists)
  pure (record r { name = name })

abbrev pub describe : Option Text → Role → Role
describe none r = r
describe (some t) r = record r { description = some t }

unfoldable pub update_role : ℕ → Option Text → Option Text → AccessAction Role
update_role role_id name description = do
  r ← or_raise (← gets (λ d. find role_id d.roles)) (refuse_with RbacError.role_not_found)
  r' ← rename (given name) r
  modify (λ d. record d { roles = put (describe description r') d.roles })
  pure (describe description r')

-- `RoleRepository.add_role_to_user`: the database refuses a user that is not there.
abbrev pub add_role_to_user : ℕ → ℕ → AccessAction (Unit {0})
add_role_to_user user_id role_id = do
  raise_if (not (any (λ i. i == user_id) (← gets (λ d. d.users)))) Failure.integrity_error
  modify (λ d. record d {
    user_roles = d.user_roles ++ record { user_id = user_id; role_id = role_id } ∷ [];
  })

unfoldable pub assign_role_to_user : ℕ → ℕ → AccessAction (Unit {0})
assign_role_to_user user_id role_id = do
  or_raise (← gets (λ d. find role_id d.roles)) (refuse_with RbacError.role_not_found)
  raise_if (← gets (user_has_role user_id role_id))
      (refuse_with RbacError.role_already_assigned_to_user)
  add_role_to_user user_id role_id

unfoldable pub remove_role_from_user : ℕ → ℕ → AccessAction (Unit {0})
remove_role_from_user user_id role_id = do
  raise_if (not (← gets (user_has_role user_id role_id)))
      (refuse_with RbacError.user_role_not_found)
  modify (λ d. record d { user_roles = select (λ x. not (is_pair user_id role_id x)) d.user_roles })

unfoldable pub add_permission_to_role : ℕ → ℕ → AccessAction (Unit {0})
add_permission_to_role role_id permission_id = do
  or_raise (← gets (λ d. find role_id d.roles)) (refuse_with RbacError.role_not_found)
  or_raise (← gets (λ d. find permission_id d.permissions))
      (refuse_with RbacError.permission_not_found)
  raise_if (← gets (role_has_permission role_id permission_id))
      (refuse_with RbacError.permission_already_assigned)
  modify (λ d. record d {
    role_permissions =
        d.role_permissions ++ record { role_id = role_id; permission_id = permission_id } ∷ [];
  })

unfoldable pub remove_permission_from_role : ℕ → ℕ → AccessAction (Unit {0})
remove_permission_from_role role_id permission_id = do
  raise_if (not (← gets (role_has_permission role_id permission_id)))
      (refuse_with RbacError.role_permission_not_found)
  modify (λ d. record d {
    role_permissions = select (λ x. not (is_grant role_id permission_id x)) d.role_permissions;
  })

-- `get_user_with_roles_and_permissions`: whether the user is there, `user.roles` and
-- `role.permissions`.
abbrev pub is_user : ℕ → Access → Bool
is_user user_id d = any (λ i. i == user_id) d.users

abbrev pub roles_of : ℕ → Access → List Role
roles_of user_id d = select (λ r. user_has_role user_id r.id d) d.roles

abbrev pub permissions_of : Role → Access → List Permission
permissions_of r d = select (λ p. role_has_permission r.id p.id d) d.permissions

-- `{permission.code for role in roles for permission in role.permissions}`, as a list.
abbrev pub codes_of : List Role → Access → List Text
codes_of [] d = []
codes_of (r ∷ rs) d = map (λ p. p.code) (permissions_of r d) ++ codes_of rs d

abbrev pub get_user_permissions : ℕ → Access → List Text
get_user_permissions user_id d = if is_user user_id d then codes_of (roles_of user_id d) d else []

-- `any(permission.code == permission_code for role in user.roles for permission in ...)`
abbrev pub has_permission : ℕ → Text → Access → Bool
has_permission user_id code d =
    any (λ r. any (λ p. text_eq p.code code) (permissions_of r d)) (roles_of user_id d)

unfoldable pub ensure_permission : ℕ → Text → AccessAction (Unit {0})
ensure_permission user_id code = do
  raise_if (not (← gets (is_user user_id))) (refuse_with RbacError.permission_denied)
  raise_if (not (← gets (has_permission user_id code))) (refuse_with RbacError.permission_denied)
