-- ===== src/Bootstraps.antt =====
-- app/bootstraps: the scripts that fill the tables of permissions and of what roles carry, with the
-- queries of app/rbac/repositories that they use. The set of codes and the dictionary of roles are
-- arguments, since a set is run through in no fixed order.
pub mod Seeding
pub mod Roles
use operations_management.Base.{
  ◌||◌, Bool, true, false, not, Option, none, some, List, [], ◌∷◌, ◌++◌, any, is_some,
}
use operations_management.Text.{Text, text_eq}
use operations_management.Table.{find, first}
use operations_management.Errors.{Failure}
use operations_management.Session.{
  pure, raise, gets, raise_if, modify, uuid7, get_session, ◌>>=◌, ◌>>◌,
}
use operations_management.Rbac.{
  Access, AccessAction, Role, Permission, permission_key, role_by_name, role_refused,
  role_has_permission,
}

-- `PermissionRepository.get_by_code` and `get_by_name`
abbrev pub permission_by_code : Text → Access → Option Permission
permission_by_code code d = first (λ p. text_eq p.code code) d.permissions

abbrev pub permission_by_name : Text → Access → Option Permission
permission_by_name name d = first (λ p. text_eq p.name name) d.permissions

-- The constraints of `permissions`: the primary key, the code and the name.
abbrev pub permission_refused : Permission → Access → Bool
permission_refused p d =
    is_some (find p.id d.permissions)
    || is_some (permission_by_code p.code d)
    || is_some (permission_by_name p.name d)

abbrev pub create_permission : Text → Text → AccessAction (Unit {0})
create_permission code name = do
  i ← uuid7
  let p : Permission = record { id = i; code = code; name = name }
  raise_if (← gets (permission_refused p)) Failure.integrity_error
  modify (λ d. record d { permissions = d.permissions ++ p ∷ [] })

-- `if existing: continue`
abbrev pub unless_there : Text → Option Permission → AccessAction (Unit {0})
unless_there code (some _) = pure tt
unless_there code none = create_permission code code

unfoldable pub seed_permission : Text → AccessAction (Unit {0})
seed_permission code = gets (permission_by_code code) >>= unless_there code

abbrev pub seed_codes : List Text → AccessAction (Unit {0})
seed_codes [] = pure tt
seed_codes (c ∷ cs) = seed_permission c >> seed_codes cs

unfoldable pub seed_permissions : List Text → AccessAction (Unit {0})
seed_permissions codes = get_session (seed_codes codes)

-- The keyword arguments that the scripts give `Role` besides the name.
pub data Keyword : Type 0 where
  is_system : Keyword

-- Whether `Role` maps an attribute of the keyword. Its columns are the id, the name and the
-- description.
abbrev pub is_mapped : Keyword → Bool
is_mapped Keyword.is_system = false

-- `Role(name=name, **kwargs)`: SQLAlchemy's constructor raises `TypeError` for a keyword that the
-- class does not map. Then the role is added and flushed.
abbrev pub new_role : Text → List Keyword → AccessAction Role
new_role name kwargs = do
  raise_if (any (λ k. not (is_mapped k)) kwargs) Failure.type_error
  i ← uuid7
  let r : Role = record { id = i; name = name; description = none }
  raise_if (← gets (role_refused r)) Failure.integrity_error
  modify (λ d. record d { roles = d.roles ++ r ∷ [] })
  pure r

abbrev pub or_create : Text → List Keyword → Option Role → AccessAction Role
or_create name kwargs (some r) = pure r
or_create name kwargs none = new_role name kwargs

abbrev pub get_or_create : Text → List Keyword → AccessAction Role
get_or_create name kwargs = gets (role_by_name name) >>= or_create name kwargs

-- `if not perm: continue` and `if await role_repo.role_has_permission(...): continue`
abbrev pub add_missing : Role → Option Permission → Bool → AccessAction (Unit {0})
add_missing r none has = pure tt
add_missing r (some p) true = pure tt
add_missing r (some p) false = modify (λ d. record d {
  role_permissions = d.role_permissions ++ record { role_id = r.id; permission_id = p.id } ∷ [];
})

abbrev pub has_already : Role → Option Permission → Access → Bool
has_already r none d = false
has_already r (some p) d = role_has_permission r.id p.id d

unfoldable pub seed_grant : Role → Text → AccessAction (Unit {0})
seed_grant r code = do
  perm ← gets (permission_by_code code)
  has ← gets (has_already r perm)
  add_missing r perm has

abbrev pub seed_grants : Role → List Text → AccessAction (Unit {0})
seed_grants r [] = pure tt
seed_grants r (c ∷ cs) = seed_grant r c >> seed_grants r cs

-- A pair of `SYSTEM_ROLES.items()`.
pub record SystemRole : Type 0 where
  pub name : Text
  pub codes : List Text

unfoldable pub seed_role : SystemRole → AccessAction (Unit {0})
seed_role x = get_or_create x.name (Keyword.is_system ∷ []) >>= λ r. seed_grants r x.codes

abbrev pub seed_items : List SystemRole → AccessAction (Unit {0})
seed_items [] = pure tt
seed_items (x ∷ xs) = seed_role x >> seed_items xs

unfoldable pub seed_roles : List SystemRole → AccessAction (Unit {0})
seed_roles items = get_session (seed_items items)

-- `seed_all`
unfoldable pub seed_all : List Text → List SystemRole → AccessAction (Unit {0})
seed_all codes items = seed_permissions codes >> seed_roles items
