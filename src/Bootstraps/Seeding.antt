-- ===== src/Bootstraps/Seeding.antt =====
-- What app/bootstraps/seed_permissions.py leaves behind.
use operations_management.Base.{
  ℕ, ◌+◌, ◌≡◌, refl, ◌∙◌, inl, inr, true, none, List, [], ◌∷◌, ◌++◌, ◌==◌, arith, All, is_some,
  Option-cases, Bool-cases,
}
use operations_management.Text.{Text, text_eq, text_eq_refl}
use operations_management.Table.{find, first}
use operations_management.Table.Laws.{find-append, first-append}
use operations_management.Errors.{Result, ok, err}
use operations_management.Session.{Session, continue, close_session, get_session}
use operations_management.Rbac.{Access, Permission, permission_key}
use mathlib.Core.Path.{subst}
use operations_management.Bootstraps.{
  create_permission, permission_by_code, permission_by_name, seed_permission, seed_codes,
  seed_permissions,
}

abbrev pub HasCode : Access → Text → Type 0
HasCode d code = is_some (permission_by_code code d) ≡ true

-- The scripts' own permissions carry their code for a name.
abbrev pub IsNamed : Permission → Type 0
IsNamed p = p.name ≡ p.code

-- The uuids to come differ, and no permission has one; every permission is named by its code.
pub record Ready (s : Session Access (Unit {0})) : Type 0 where
  pub distinct : (m n : ℕ) → s.uuids m ≡ s.uuids n → m ≡ n
  pub fresh : (n : ℕ) → find (s.uuids (s.drawn + n)) s.db.permissions ≡ none
  pub named : All IsNamed s.db.permissions

-- Permissions may have been added, and that alone.
pub record Grows (s s' : Session Access (Unit {0})) : Type 0 where
  pub tables : s'.db ≡ (record s.db { permissions = s'.db.permissions })
  pub kept : (c : Text) → HasCode s.db c → permission_by_code c s'.db ≡ permission_by_code c s.db
  pub durable : s'.committed ≡ s.committed

by_name-named :
    (name : Text) (ps : List Permission)
    → All IsNamed ps
    → first (λ (p : Permission). text_eq p.name name) ps
      ≡ first (λ (p : Permission). text_eq p.code name) ps
by_name-named name [] h = refl
by_name-named name (p ∷ ps) h = rw (h.0, by_name-named name ps h.1) refl

append-All :
    (p : Permission) (ps : List Permission)
    → IsNamed p
    → All IsNamed ps
    → All IsNamed (ps ++ p ∷ [])
append-All p [] e h = (e, tt)
append-All p (q ∷ ps) e h = (h.0, append-All p ps e h.1)

-- One code: afterwards a permission has it.
abbrev Plants :
    Text → Session Access (Unit {0}) → Result (Unit {0}) × Session Access (Unit {0}) → Type 0
Plants code s (r, s') = (r ≡ ok tt) × Ready s' × Grows s s' × HasCode s'.db code

-- A drawn uuid is not drawn again.
fresh_still :
    (s : Session Access (Unit {0})) (p : Permission)
    → Ready s
    → p.id ≡ s.uuids s.drawn
    → (n : ℕ) → find (s.uuids (s.drawn + 1 + n)) (s.db.permissions ++ p ∷ []) ≡ none
fresh_still s p h e n =
    let later : s.drawn + (1 + n) ≡ s.drawn + 1 + n = omega arith in
    let free : find (s.uuids (s.drawn + 1 + n)) s.db.permissions ≡ none =
      subst (λ m. find (s.uuids m) s.db.permissions ≡ none) later (h.fresh (1 + n)) in
    rw (find-append (s.uuids (s.drawn + 1 + n)) p s.db.permissions) (
      rw free (elim (Bool-cases (p.id == s.uuids (s.drawn + 1 + n))) [
        | inr other ↦ rw other refl
        | inl same ↦
            let met : s.uuids s.drawn ≡ s.uuids (s.drawn + 1 + n) = ground arith in
            let again = h.distinct s.drawn (s.drawn + 1 + n) met in
            let absurd : ⊥ = omega arith in elim absurd [ ]
      ]))

planted :
    (code : Text) (s : Session Access (Unit {0}))
    → Ready s
    → permission_by_code code s.db ≡ none
    → Plants code s (create_permission code code s)
planted code s h e =
    let p : Permission = record { id = s.uuids s.drawn; code = code; name = code } in
    let d = record s.db { permissions = s.db.permissions ++ p ∷ [] } in
    let new : find p.id s.db.permissions ≡ none =
      subst (λ n. find (s.uuids n) s.db.permissions ≡ none) (omega arith) (h.fresh 0) in
    let unnamed : permission_by_name code s.db ≡ none =
      by_name-named code s.db.permissions h.named ∙ e in
    rw (new, e, unnamed)
      (
        refl,
        record {
          distinct = h.distinct;
          fresh = fresh_still s p h refl;
          named = append-All p s.db.permissions refl h.named;
        },
        record {
          tables = refl;
          kept = λ c k.
              rw (first-append (λ (q : Permission). text_eq q.code c) p s.db.permissions)
                (rw k refl);
          durable = refl;
        },
        rw (first-append (λ (q : Permission). text_eq q.code code) p s.db.permissions)
            (rw (e, text_eq_refl code) refl),
      )

seed_permission-Plants :
    (code : Text) (s : Session Access (Unit {0})) → Ready s → Plants code s (seed_permission code s)
unfolding seed_permission
seed_permission-Plants code s h = elim (Option-cases (permission_by_code code s.db)) [
  | inr (p, e) ↦
      rw e (refl, h, record { tables = refl; kept = λ c k. refl; durable = refl }, rw e refl)
  | inl e ↦ rw e (planted code s h e)
]

Grows-trans : (s s' s'' : Session Access (Unit {0})) → Grows s s' → Grows s' s'' → Grows s s''
Grows-trans s s' s'' g h = record {
  tables = rw h.tables (rw g.tables refl);
  kept = λ c k. h.kept c (rw (g.kept c k) k) ∙ g.kept c k;
  durable = h.durable ∙ g.durable;
}

-- A list of codes: afterwards each has a permission.
abbrev PlantsAll :
    List Text → Session Access (Unit {0}) → Result (Unit {0}) × Session Access (Unit {0}) → Type 0
PlantsAll codes s (r, s') = (r ≡ ok tt) × Ready s' × Grows s s' × All (HasCode s'.db) codes

then_the_rest :
    (c : Text) (cs : List Text) (s : Session Access (Unit {0}))
    (x : Result (Unit {0}) × Session Access (Unit {0}))
    → Plants c s x
    → ((s' : Session Access (Unit {0})) → Ready s' → PlantsAll cs s' (seed_codes cs s'))
    → PlantsAll (c ∷ cs) s (continue x.0 (λ _. seed_codes cs) x.1)
then_the_rest c cs s (err e, s') h k = cc
then_the_rest c cs s (ok _, s') (done, ready, grown, there) k =
    let (done', ready', grown', there') = k s' ready in
    (
      done',
      ready',
      Grows-trans s s' (seed_codes cs s').1 grown grown',
      (rw (grown'.kept c there) there, there'),
    )

seed_codes-PlantsAll :
    (codes : List Text) (s : Session Access (Unit {0}))
    → Ready s
    → PlantsAll codes s (seed_codes codes s)
seed_codes-PlantsAll [] s h =
    (refl, h, record { tables = refl; kept = λ c k. refl; durable = refl }, tt)
seed_codes-PlantsAll (c ∷ cs) s h =
    then_the_rest c cs s (seed_permission c s) (seed_permission-Plants c s h)
      (seed_codes-PlantsAll cs)

-- A code that is there is left alone.
skipped :
    (c : Text) (s : Session Access (Unit {0})) → HasCode s.db c → seed_permission c s ≡ (ok tt, s)
unfolding seed_permission
skipped c s h = elim (Option-cases (permission_by_code c s.db)) [
  | inl e ↦ cc
  | inr (p, e) ↦ rw e refl
]

skipped_each :
    (cs : List Text) (s : Session Access (Unit {0}))
    → All (HasCode s.db) cs
    → seed_codes cs s ≡ (ok tt, s)
skipped_each [] s h = refl
skipped_each (c ∷ cs) s h = rw (skipped c s h.0) (skipped_each cs s h.1)

-- A run that ends well: every code has a permission, each permission that was there is still found
-- by its code, no other table is touched, all of it is durable, and a further run over any of the
-- codes does nothing.
pub record Seeds (codes : List Text) (s s' : Session Access (Unit {0})) : Type 0 where
  pub present : All (HasCode s'.db) codes
  pub kept : (c : Text) → HasCode s.db c → permission_by_code c s'.db ≡ permission_by_code c s.db
  pub tables : s'.db ≡ (record s.db { permissions = s'.db.permissions })
  pub durable : s'.committed ≡ s'.db
  pub again : (cs : List Text) → All (HasCode s'.db) cs → seed_permissions cs s' ≡ (ok tt, s')

-- A script ends its session like a request.
closed :
    (codes : List Text) (s : Session Access (Unit {0}))
    (x : Result (Unit {0}) × Session Access (Unit {0}))
    → PlantsAll codes s x
    → ((close_session x).0 ≡ ok tt) × Seeds codes s (close_session x).1
unfolding seed_permissions get_session
closed codes s (err e, s') h = cc
closed codes s (ok _, s') (done, ready, grown, there) = (
  refl,
  record {
    present = there;
    kept = grown.kept;
    tables = grown.tables;
    durable = refl;
    again = λ cs k. rw (skipped_each cs (record s' { committed = s'.db }) k) refl;
  },
)

-- Over permissions that are named by their codes, with uuids that are new, `seed_permissions`
-- returns for any list of codes: each code then has a permission, durably, what was there is kept,
-- and a second run, over any codes that are there by now, changes nothing.
pub seed_permissions-Seeds :
    (codes : List Text) (s : Session Access (Unit {0}))
    → Ready s
    → ((seed_permissions codes s).0 ≡ ok tt) × Seeds codes s (seed_permissions codes s).1
unfolding seed_permissions get_session
seed_permissions-Seeds codes s h =
    closed codes s (seed_codes codes s) (seed_codes-PlantsAll codes s h)
