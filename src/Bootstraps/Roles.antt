-- ===== src/Bootstraps/Roles.antt =====
-- What app/bootstraps/seed_roles.py leaves behind.
use operations_management.Base.{
  any-append, ℕ, ◌≡◌, refl, ◌∙◌, inl, inr, true, none, some, List, [], ◌∷◌, ◌++◌, arith, All, any,
  IsIn, Option-cases, Bool-cases,
}
use operations_management.Text.{Text}
use operations_management.Errors.{Failure, Result, ok, err}
use operations_management.Session.{Session, continue, close_session, get_session}
use operations_management.Rbac.{
  Access, Role, Permission, RolePermission, role_by_name, is_grant, role_has_permission,
}
use operations_management.Bootstraps.{
  SystemRole, permission_by_code, seed_grant, seed_grants, seed_role, seed_items, seed_roles,
}

-- The role has the permission of the code, if there is one.
abbrev pub Carries : Access → Role → Text → Type 0
Carries d r c =
    (p : Permission) → permission_by_code c d ≡ some p → role_has_permission r.id p.id d ≡ true

-- The role is there and has the permissions of all its codes.
abbrev pub IsServed : Access → SystemRole → Type 0
IsServed d x = (r : Role) × (role_by_name x.name d ≡ some r) × All (Carries d r) x.codes

-- Roles may have got permissions, and that alone.
pub record Extends (s s' : Session Access (Unit {0})) : Type 0 where
  pub tables : s'.db ≡ (record s.db { role_permissions = s'.db.role_permissions })
  pub kept : (i j : ℕ) → role_has_permission i j s.db ≡ true → role_has_permission i j s'.db ≡ true
  pub durable : s'.committed ≡ s.committed

same : (s : Session Access (Unit {0})) → Extends s s
same s = record { tables = refl; kept = λ i j h. h; durable = refl }

Extends-trans :
    (s s' s'' : Session Access (Unit {0})) → Extends s s' → Extends s' s'' → Extends s s''
Extends-trans s s' s'' g h = record {
  tables = rw h.tables (rw g.tables refl);
  kept = λ i j k. h.kept i j (g.kept i j k);
  durable = h.durable ∙ g.durable;
}

still_Carries :
    (s s' : Session Access (Unit {0}))
    → Extends s s'
    → (r : Role) (c : Text) → Carries s.db r c
    → Carries s'.db r c
still_Carries s s' g r c h p e = g.kept r.id p.id (h p (rw g.tables at e))

still_each :
    (s s' : Session Access (Unit {0}))
    → Extends s s'
    → (r : Role) (cs : List Text) → All (Carries s.db r) cs
    → All (Carries s'.db r) cs
still_each s s' g r [] h = tt
still_each s s' g r (c ∷ cs) h = (still_Carries s s' g r c h.0, still_each s s' g r cs h.1)

still_IsServed :
    (s s' : Session Access (Unit {0}))
    → Extends s s'
    → (x : SystemRole) → IsServed s.db x
    → IsServed s'.db x
still_IsServed s s' g x (r, e, h) = (r, rw g.tables e, still_each s s' g r x.codes h)

granted :
    (r : Role) (p : Permission) (s : Session Access (Unit {0}))
    → Extends s (record s {
      db = record s.db {
        role_permissions =
            s.db.role_permissions ++ record { role_id = r.id; permission_id = p.id } ∷ [];
      };
    })
granted r p s =
    let x : RolePermission = record { role_id = r.id; permission_id = p.id } in
    record {
      tables = refl;
      kept = λ i j h. rw (any-append (is_grant i j) s.db.role_permissions (x ∷ [])) (rw h refl);
      durable = refl;
    }

ids : (p q : Permission) → p ≡ q → p.id ≡ q.id
ids p q e = rw e refl

carried :
    (r : Role) (p q : Permission) (s : Session Access (Unit {0}))
    → p.id ≡ q.id
    → any
        (is_grant r.id q.id)
        (s.db.role_permissions ++ record { role_id = r.id; permission_id = p.id } ∷ [])
      ≡ true
carried r p q s e =
    let x : RolePermission = record { role_id = r.id; permission_id = p.id } in
    rw (any-append (is_grant r.id q.id) s.db.role_permissions (x ∷ [])) (ground arith)

-- One code of a role.
abbrev Grants :
    Role → Text → Session Access (Unit {0}) → Result (Unit {0}) × Session Access (Unit {0}) → Type 0
Grants r c s (res, s') = (res ≡ ok tt) × Extends s s' × Carries s'.db r c

seed_grant-Grants :
    (r : Role) (c : Text) (s : Session Access (Unit {0})) → Grants r c s (seed_grant r c s)
unfolding seed_grant
seed_grant-Grants r c s = elim (Option-cases (permission_by_code c s.db)) [
  | inl e ↦ rw e (refl, same s, λ p h. cc)
  | inr (p, e) ↦ rw e (elim (Bool-cases (role_has_permission r.id p.id s.db)) [
    | inl has ↦ rw has (refl, same s, λ q h. cc)
    | inr lacks ↦ rw lacks (refl, granted r p s, λ q h. carried r p q s (ids p q (cc)))
  ])
]

-- All codes of a role.
abbrev GrantsAll :
    Role
    → List Text
    → Session Access (Unit {0})
    → Result (Unit {0}) × Session Access (Unit {0})
    → Type 0
GrantsAll r cs s (res, s') = (res ≡ ok tt) × Extends s s' × All (Carries s'.db r) cs

then_more :
    (r : Role) (c : Text) (cs : List Text) (s : Session Access (Unit {0}))
    (x : Result (Unit {0}) × Session Access (Unit {0}))
    → Grants r c s x
    → ((s' : Session Access (Unit {0})) → GrantsAll r cs s' (seed_grants r cs s'))
    → GrantsAll r (c ∷ cs) s (continue x.0 (λ _. seed_grants r cs) x.1)
then_more r c cs s (err e, s') h k = cc
then_more r c cs s (ok _, s') (done, g, there) k =
    let (done', g', there') = k s' in
    (
      done',
      Extends-trans s s' (seed_grants r cs s').1 g g',
      (still_Carries s' (seed_grants r cs s').1 g' r c there, there'),
    )

seed_grants-GrantsAll :
    (r : Role) (cs : List Text) (s : Session Access (Unit {0}))
    → GrantsAll r cs s (seed_grants r cs s)
seed_grants-GrantsAll r [] s = (refl, same s, tt)
seed_grants-GrantsAll r (c ∷ cs) s =
    then_more r c cs s (seed_grant r c s) (seed_grant-Grants r c s) (seed_grants-GrantsAll r cs)

-- How the loop over the roles may end.
abbrev Runs :
    List SystemRole
    → Session Access (Unit {0})
    → Result (Unit {0}) × Session Access (Unit {0})
    → Type 0
Runs xs s (ok _, s') = Extends s s' × All (IsServed s'.db) xs
Runs xs s (err e, s') =
    (e ≡ Failure.type_error)
    × (s'.committed ≡ s.committed)
    × ((x : SystemRole) × IsIn x xs × (role_by_name x.name s.db ≡ none))

abbrev Served :
    SystemRole → Session Access (Unit {0}) → Result (Unit {0}) × Session Access (Unit {0}) → Type 0
Served x s (ok _, s') = Extends s s' × IsServed s'.db x
Served x s (err e, s') =
    (e ≡ Failure.type_error) × (s'.committed ≡ s.committed) × (role_by_name x.name s.db ≡ none)

all_granted :
    (x : SystemRole) (r : Role) (s : Session Access (Unit {0}))
    (y : Result (Unit {0}) × Session Access (Unit {0}))
    → role_by_name x.name s.db ≡ some r
    → GrantsAll r x.codes s y
    → Served x s y
all_granted x r s (err e, s') found h = cc
all_granted x r s (ok _, s') found (done, g, there) = (g, (r, rw g.tables found, there))

seed_role-Served : (x : SystemRole) (s : Session Access (Unit {0})) → Served x s (seed_role x s)
unfolding seed_role
seed_role-Served x s = elim (Option-cases (role_by_name x.name s.db)) [
  | inl e ↦ rw e (refl, refl, e)
  | inr (r, e) ↦
      rw e (all_granted x r s (seed_grants r x.codes s) e (seed_grants-GrantsAll r x.codes s))
]

later_Runs :
    (x : SystemRole) (xs : List SystemRole) (s s' : Session Access (Unit {0}))
    (y : Result (Unit {0}) × Session Access (Unit {0}))
    → Extends s s'
    → IsServed s'.db x
    → Runs xs s' y
    → Runs (x ∷ xs) s y
later_Runs x xs s s' (ok _, s'') g h (g', k) =
    (Extends-trans s s' s'' g g', (still_IsServed s' s'' g' x h, k))
later_Runs x xs s s' (err e, s'') g h (kind, unsaved, (y, there, missing)) =
    (kind, unsaved ∙ g.durable, (y, inr there, rw g.tables at missing))

then_Runs :
    (x : SystemRole) (xs : List SystemRole) (s : Session Access (Unit {0}))
    (y : Result (Unit {0}) × Session Access (Unit {0}))
    → Served x s y
    → ((s' : Session Access (Unit {0})) → Runs xs s' (seed_items xs s'))
    → Runs (x ∷ xs) s (continue y.0 (λ _. seed_items xs) y.1)
then_Runs x xs s (ok _, s') (g, h) k = later_Runs x xs s s' (seed_items xs s') g h (k s')
then_Runs x xs s (err e, s') (kind, unsaved, missing) k = (kind, unsaved, (x, inl refl, missing))

seed_items-Runs :
    (xs : List SystemRole) (s : Session Access (Unit {0})) → Runs xs s (seed_items xs s)
seed_items-Runs [] s = (same s, tt)
seed_items-Runs (x ∷ xs) s =
    then_Runs x xs s (seed_role x s) (seed_role-Served x s) (seed_items-Runs xs)

-- How the script may end.
abbrev pub Ends :
    List SystemRole
    → Session Access (Unit {0})
    → Result (Unit {0}) × Session Access (Unit {0})
    → Type 0
Ends xs s (ok _, s') =
    All (IsServed s'.db) xs
    × (s'.committed ≡ s'.db)
    × (s'.db ≡ (record s.db { role_permissions = s'.db.role_permissions }))
    × ((i j : ℕ) → role_has_permission i j s.db ≡ true → role_has_permission i j s'.db ≡ true)
Ends xs s (err e, s') =
    (e ≡ Failure.type_error)
    × ((x : SystemRole) × IsIn x xs × (role_by_name x.name s.db ≡ none))
    × (s'.db ≡ s.committed)
    × (s'.committed ≡ s.committed)

closed :
    (xs : List SystemRole) (s : Session Access (Unit {0}))
    (y : Result (Unit {0}) × Session Access (Unit {0}))
    → Runs xs s y
    → Ends xs s (close_session y)
closed xs s (ok _, s') (g, h) = (h, refl, g.tables, g.kept)
closed xs s (err e, s') (kind, unsaved, missing) = (kind, missing, unsaved, unsaved)

-- `seed_roles` returns when every role of the list is there already, with each code of each role
-- that has a permission granted, durably, and nothing taken away. It makes no role: when one is
-- missing it raises `TypeError`, and nothing of the run is kept.
pub seed_roles-Ends :
    (items : List SystemRole) (s : Session Access (Unit {0})) → Ends items s (seed_roles items s)
unfolding seed_roles get_session
seed_roles-Ends items s = closed items s (seed_items items s) (seed_items-Runs items s)
