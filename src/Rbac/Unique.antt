-- ===== src/Rbac/Unique.antt =====
-- The changes of app/rbac/service.py keep the constraints on the tables of rights.
use operations_management.Base.{
  ℕ, ◌≡◌, refl, inl, inr, false, not, Option, none, some, List, arith, Option-cases, Bool-cases,
}
use operations_management.Text.{Text}
use operations_management.Table.{find, put}
use operations_management.Table.Laws.{find_key, put-IsKeyed, append-IsKeyed}
use operations_management.Table.Unique.{
  holder, append-IsUnique, IsOwn, put-IsUnique, holder-IsFree, IsOwn-holder,
}
use operations_management.Errors.{Result}
use operations_management.Session.{◌>>=◌, ◌>>◌, pure, modify, Session}
use operations_management.Rbac.{
  Access, Role, role_key, permission_key, role_by_name, is_pair, is_grant, user_has_role,
  role_has_permission, create_role, given, is_other_role, rename, describe, update_role,
  assign_role_to_user, remove_role_from_user, add_permission_to_role, remove_permission_from_role,
  is_user,
}
use operations_management.Rbac.Constraints.{
  append-IsSingle, select-IsSingle, same_pair, same_grant, name_of, AccessUnique,
}

-- The tables keep their constraints, and nothing is committed.
abbrev pub Keeps :
    {A : Type 0} → Session Access (Unit {0}) → Result A × Session Access (Unit {0}) → Type 0
Keeps s (r, s') = AccessUnique s'.db × (s'.committed ≡ s.committed)

pub create_role-Keeps :
    (name : Text) (description : Option Text) (s : Session Access (Unit {0}))
    → AccessUnique s.db
    → Keeps s (create_role name description s)
unfolding create_role
create_role-Keeps name description s h =
    let r : Role = record { id = s.uuids s.drawn; name = name; description = description } in
    elim (Option-cases (role_by_name name s.db)) [
      | inr (x, e) ↦ rw e (h, refl)
      | inl free ↦ rw free (elim (Option-cases (find r.id s.db.roles)) [
        | inr (x, e) ↦ rw e (h, refl)
        | inl new ↦ rw new (
            rw free (
              record {
                keyed = append-IsKeyed r s.db.roles new h.keyed;
                names = append-IsUnique name_of r s.db.roles free h.names;
                pairs = h.pairs;
                grants = h.grants;
              },
              refl,
            ))
      ])
    ]

is_other_role-IsOwn :
    (r : Role) (o : Option Role) → is_other_role r.id o ≡ false → IsOwn name_of r o
is_other_role-IsOwn r none e = tt
is_other_role-IsOwn r (some x) e = ground arith

put_role :
    (d : Access) (r : Role)
    → AccessUnique d
    → IsOwn name_of r (holder name_of r.name d.roles)
    → AccessUnique (record d { roles = put r d.roles })
put_role d r h own = record {
  keyed = put-IsKeyed r d.roles h.keyed;
  names =
      put-IsUnique name_of r d.roles h.keyed (holder-IsFree name_of r d.roles h.names own) h.names;
  pairs = h.pairs;
  grants = h.grants;
}

-- A new description is no new name.
describe-IsOwn :
    (description : Option Text) (r : Role) (rs : List Role)
    → IsOwn name_of r (holder name_of r.name rs)
    → IsOwn name_of (describe description r) (holder name_of (describe description r).name rs)
describe-IsOwn none r rs h = h
describe-IsOwn (some t) r rs h = own (holder name_of r.name rs) h
  where
    own : (o : Option Role) → IsOwn name_of r o → IsOwn name_of (describe (some t) r) o
    own none h = h
    own (some x) h = h

renamed-Keeps :
    (name description : Option Text) (r : Role) (s : Session Access (Unit {0}))
    → find r.id s.db.roles ≡ some r
    → AccessUnique s.db
    → Keeps s (
        (rename name r >>= λ r'. do
          modify (λ d. record d { roles = put (describe description r') d.roles })
          pure (describe description r'))
          s)
renamed-Keeps none description r s e h = (
  put_role s.db (describe description r) h
      (describe-IsOwn description r s.db.roles (IsOwn-holder name_of r.id s.db.roles r e h.names)),
  refl,
)
renamed-Keeps (some n) description r s e h =
    elim (Bool-cases (is_other_role r.id (role_by_name n s.db))) [
      | inl taken ↦ rw taken (h, refl)
      | inr free ↦ rw free (
        put_role s.db (describe description (record r { name = n })) h (
            describe-IsOwn description (record r { name = n }) s.db.roles
              (is_other_role-IsOwn (record r { name = n }) (role_by_name n s.db) free)),
        refl,
      )
    ]

pub update_role-Keeps :
    (i : ℕ) (name description : Option Text) (s : Session Access (Unit {0}))
    → AccessUnique s.db
    → Keeps s (update_role i name description s)
unfolding update_role
update_role-Keeps i name description s h = elim (Option-cases (find i s.db.roles)) [
  | inl e ↦ rw e (h, refl)
  | inr (r, e) ↦
      rw e
        (renamed-Keeps (given name) description r s (let own = find_key i s.db.roles r e in cc) h)
]

pub assign_role_to_user-Keeps :
    (i j : ℕ) (s : Session Access (Unit {0}))
    → AccessUnique s.db
    → Keeps s (assign_role_to_user i j s)
unfolding assign_role_to_user
assign_role_to_user-Keeps i j s h = elim (Option-cases (find j s.db.roles)) [
  | inl e ↦ rw e (h, refl)
  | inr (r, e) ↦ rw e (elim (Bool-cases (user_has_role i j s.db)) [
    | inl has ↦ rw has (h, refl)
    | inr free ↦ rw free (elim (Bool-cases (is_user i s.db)) [
      | inr absent ↦ rw absent (h, refl)
      | inl there ↦ rw there (
        record {
          keyed = h.keyed;
          names = h.names;
          pairs =
              append-IsSingle same_pair (λ x y. ground arith) (record { user_id = i; role_id = j })
                s.db.user_roles free h.pairs;
          grants = h.grants;
        },
        refl,
      )
    ])
  ])
]

pub add_permission_to_role-Keeps :
    (i j : ℕ) (s : Session Access (Unit {0}))
    → AccessUnique s.db
    → Keeps s (add_permission_to_role i j s)
unfolding add_permission_to_role
add_permission_to_role-Keeps i j s h = elim (Option-cases (find i s.db.roles)) [
  | inl e ↦ rw e (h, refl)
  | inr (r, e) ↦ rw e (elim (Option-cases (find j s.db.permissions)) [
    | inl e' ↦ rw e' (h, refl)
    | inr (p, e') ↦ rw e' (elim (Bool-cases (role_has_permission i j s.db)) [
      | inl has ↦ rw has (h, refl)
      | inr free ↦ rw free (
        record {
          keyed = h.keyed;
          names = h.names;
          pairs = h.pairs;
          grants =
              append-IsSingle same_grant (λ x y. ground arith)
                (record { role_id = i; permission_id = j }) s.db.role_permissions free h.grants;
        },
        refl,
      )
    ])
  ])
]

pub remove_role_from_user-Keeps :
    (i j : ℕ) (s : Session Access (Unit {0}))
    → AccessUnique s.db
    → Keeps s (remove_role_from_user i j s)
unfolding remove_role_from_user
remove_role_from_user-Keeps i j s h = elim (Bool-cases (user_has_role i j s.db)) [
  | inr lacks ↦ rw lacks (h, refl)
  | inl has ↦ rw has (
    record {
      keyed = h.keyed;
      names = h.names;
      pairs = select-IsSingle same_pair (λ x. not (is_pair i j x)) s.db.user_roles h.pairs;
      grants = h.grants;
    },
    refl,
  )
]

pub remove_permission_from_role-Keeps :
    (i j : ℕ) (s : Session Access (Unit {0}))
    → AccessUnique s.db
    → Keeps s (remove_permission_from_role i j s)
unfolding remove_permission_from_role
remove_permission_from_role-Keeps i j s h = elim (Bool-cases (role_has_permission i j s.db)) [
  | inr lacks ↦ rw lacks (h, refl)
  | inl has ↦ rw has (
    record {
      keyed = h.keyed;
      names = h.names;
      pairs = h.pairs;
      grants =
          select-IsSingle same_grant (λ x. not (is_grant i j x)) s.db.role_permissions h.grants;
    },
    refl,
  )
]
