-- ===== src/Rbac/Constraints.antt =====
-- The constraints on the tables of app/rbac/models: keys, names and pairs that occur once.
use operations_management.Base.{
  any-append, ◌≡◌, refl, Bool, false, List, [], ◌∷◌, ◌++◌, arith, any, select,
}
use operations_management.Text.{Text}
use operations_management.Table.{IsKeyed}
use operations_management.Table.Unique.{IsUnique}
use operations_management.Rbac.{
  Access, Role, UserRole, RolePermission, role_key, permission_key, is_pair, is_grant,
}

-- A table without a doubled row; `same x` tells the rows that equal `x`.
module _ {V : Type 0} (same : V → V → Bool) where
  abbrev pub IsSingle : List V → Type 0
  IsSingle [] = Unit
  IsSingle (x ∷ xs) = (any (same x) xs ≡ false) × IsSingle xs

  pub append-IsSingle :
      ((x y : V) → same x y ≡ same y x)
      → (v : V) (xs : List V) → any (same v) xs ≡ false
      → IsSingle xs
      → IsSingle (xs ++ v ∷ [])
  append-IsSingle sym v [] e h = (refl, tt)
  append-IsSingle sym v (x ∷ xs) e h =
      ground (arith, append-IsSingle sym v xs, any-append (same x) xs (v ∷ []), sym x v)

  any-select : (p q : V → Bool) (xs : List V) → any p xs ≡ false → any p (select q xs) ≡ false
  any-select p q [] e = refl
  any-select p q (x ∷ xs) e = ground (arith, any-select p q xs)

  pub select-IsSingle : (q : V → Bool) (xs : List V) → IsSingle xs → IsSingle (select q xs)
  select-IsSingle q [] h = tt
  select-IsSingle q (x ∷ xs) h = ground (arith, select-IsSingle q xs, any-select (same x) q xs)

abbrev pub same_pair : UserRole → UserRole → Bool
same_pair x y = is_pair x.user_id x.role_id y

abbrev pub same_grant : RolePermission → RolePermission → Bool
same_grant x y = is_grant x.role_id x.permission_id y

abbrev pub name_of : Role → Text
name_of r = r.name

-- No two roles share a key or a name, and no role or permission is given twice.
pub record AccessUnique (d : Access) : Type 0 where
  pub keyed : IsKeyed d.roles
  pub names : IsUnique name_of d.roles
  pub pairs : IsSingle same_pair d.user_roles
  pub grants : IsSingle same_grant d.role_permissions
