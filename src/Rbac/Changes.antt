-- ===== src/Rbac/Changes.antt =====
-- The changes of app/rbac/service.py and what users may do.
use operations_management.Base.{
  any-append, ℕ, ◌≡◌, refl, Bool, ◌&&◌, ◌||◌, some, List, [], ◌∷◌, ◌++◌, arith, ◌==◌, any, select,
  is_some, Option-cases, Bool-cases, inl, inr,
}
use operations_management.Text.{Text, text_eq}
use operations_management.Table.{find}
use operations_management.Errors.{Result, ok, err}
use operations_management.Session.{Session}
use operations_management.Rbac.{
  Access, Role, Permission, UserRole, RolePermission, role_key, permission_key, is_pair, is_grant,
  user_has_role, role_has_permission, is_user, permissions_of, has_permission, assign_role_to_user,
  remove_role_from_user, add_permission_to_role, remove_permission_from_role,
}
use operations_management.Rbac.Grants.{select-snoc}

-- What a role carries.
abbrev pub grants : ℕ → Text → Access → Bool
grants role_id code d =
    any (λ (p : Permission). role_has_permission role_id p.id d && text_eq p.code code)
      d.permissions

any-select :
    {A : Type 0} (p q : A → Bool) (xs : List A) → any p (select q xs) ≡ any (λ x. q x && p x) xs
any-select p q [] = refl
any-select p q (x ∷ xs) = ground (arith, any-select p q xs)

any-or :
    {A : Type 0} (p q : A → Bool) (xs : List A) → any (λ x. p x || q x) xs ≡ any p xs || any q xs
any-or p q [] = refl
any-or p q (x ∷ xs) = ground (arith, any-or p q xs)

any-agree :
    {A : Type 0} (p q : A → Bool) → ((x : A) → p x ≡ q x) → (xs : List A) → any p xs ≡ any q xs
any-agree p q h [] = refl
any-agree p q h (x ∷ xs) = ground (arith, any-agree p q h xs, h x)

-- A test that only the row with the key `i` can pass.
any-find :
    (b : Bool) (g : ℕ → Bool) (i : ℕ) (rs : List Role)
    → any (λ (r : Role). (b && i == r.id) && g r.id) rs ≡ (b && is_some (find i rs) && g i)
any-find b g i [] = ground arith
any-find b g i (r ∷ rs) = ground (arith, any-find b g i rs)

has_permission-grants :
    (v : ℕ) (code : Text) (d : Access)
    → has_permission v code d
      ≡ any (λ (r : Role). user_has_role v r.id d && grants r.id code d) d.roles
has_permission-grants v code d =
    rw
      (any-select (λ (r : Role). any (λ p. text_eq p.code code) (permissions_of r d))
        (λ r. user_has_role v r.id d) d.roles)
      (any-agree _ _
        (λ r.
          rw
            (any-select (λ (p : Permission). text_eq p.code code)
              (λ p. role_has_permission r.id p.id d) d.permissions)
            refl)
        d.roles)

-- How an assignment may end: the user may do what it could before and what the role carries, and
-- nobody else may do more.
abbrev pub Assigns :
    ℕ → ℕ → Session Access (Unit {0}) → Result (Unit {0}) × Session Access (Unit {0}) → Type 0
Assigns user role_id s (ok _, s') =
    (v : ℕ) (code : Text)
    → has_permission v code s'.db
      ≡ (has_permission v code s.db || (user == v && grants role_id code s.db))
Assigns user role_id s (err e, s') = s' ≡ s

assigned-has :
    (user role_id : ℕ) (r : Role) (d : Access)
    → find role_id d.roles ≡ some r
    → (v : ℕ) (code : Text)
    → has_permission v code (record d {
      user_roles = d.user_roles ++ record { user_id = user; role_id = role_id } ∷ [];
    })
      ≡ (has_permission v code d || (user == v && grants role_id code d))
assigned-has user role_id r d e v code =
    let x : UserRole = record { user_id = user; role_id = role_id } in
    let d' = record d { user_roles = d.user_roles ++ x ∷ [] } in
    let g = λ (i : ℕ). grants i code d in
    rw (has_permission-grants v code d') (
      rw
        (any-agree (λ (r' : Role). user_has_role v r'.id d' && g r'.id)
          (λ (r' : Role).
            (user_has_role v r'.id d && g r'.id) || ((user == v && role_id == r'.id) && g r'.id))
          (λ r'. rw (any-append (is_pair v r'.id) d.user_roles (x ∷ [])) (ground arith)) d.roles)
        (rw
          (any-or (λ (r' : Role). user_has_role v r'.id d && g r'.id)
            (λ (r' : Role). (user == v && role_id == r'.id) && g r'.id) d.roles)
          (rw (any-find (user == v) g role_id d.roles)
            (rw (has_permission-grants v code d) (rw e (ground arith))))))

module _ (user role_id : ℕ) (s : Session Access (Unit {0})) where
  -- `assign_role_to_user` gives the user what the role carries, and changes nothing else in what
  -- any user may do; when it raises, nothing is changed.
  pub assign_role_to_user-Assigns : Assigns user role_id s (assign_role_to_user user role_id s)
  unfolding assign_role_to_user
  assign_role_to_user-Assigns = elim (Option-cases (find role_id s.db.roles)) [
    | inl e ↦ ground arith
    | inr (r, e) ↦ rw e (elim (Bool-cases (user_has_role user role_id s.db)) [
      | inl has ↦ rw has refl
      | inr free ↦ rw free (elim (Bool-cases (is_user user s.db)) [
        | inl there ↦ rw there (assigned-has user role_id r s.db e)
        | inr absent ↦ rw absent refl
      ])
    ])
  ]

-- A change that `undo` takes back, to the very same tables; a refused change is none.
abbrev pub IsUndoneBy :
    (Session Access (Unit {0}) → Result (Unit {0}) × Session Access (Unit {0}))
    → Session Access (Unit {0})
    → Result (Unit {0}) × Session Access (Unit {0})
    → Type 0
IsUndoneBy undo s (ok _, s') = undo s' ≡ (ok tt, s)
IsUndoneBy undo s (err e, s') = s' ≡ s

module _ (i j : ℕ) (s : Session Access (Unit {0})) where
  -- `remove_role_from_user` takes back an assignment: after it the tables are as they were.
  pub assign_role_to_user-IsUndoneBy :
      IsUndoneBy (remove_role_from_user i j) s (assign_role_to_user i j s)
  unfolding assign_role_to_user remove_role_from_user
  assign_role_to_user-IsUndoneBy =
      let x : UserRole = record { user_id = i; role_id = j } in
      ground (
        arith,
        any-append (is_pair i j) s.db.user_roles (x ∷ []),
        select-snoc (is_pair i j) x s.db.user_roles,
      )

  -- `remove_permission_from_role` takes back an added permission: after it the tables are as they
  -- were.
  pub add_permission_to_role-IsUndoneBy :
      IsUndoneBy (remove_permission_from_role i j) s (add_permission_to_role i j s)
  unfolding add_permission_to_role remove_permission_from_role
  add_permission_to_role-IsUndoneBy =
      let x : RolePermission = record { role_id = i; permission_id = j } in
      ground (
        arith,
        any-append (is_grant i j) s.db.role_permissions (x ∷ []),
        select-snoc (is_grant i j) x s.db.role_permissions,
      )
