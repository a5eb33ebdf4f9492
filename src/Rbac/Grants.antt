-- ===== src/Rbac/Grants.antt =====
-- Who may do what: app/rbac/service.py's checks and changes of roles and permissions.
use operations_management.Base.{
  any-append, ℕ, ◌≡◌, refl, Bool, true, false, not, List, [], ◌∷◌, ◌++◌, map, arith, any, select,
  if◌then◌else◌,
}
use operations_management.Text.{Text, text_eq}
use operations_management.Errors.{Failure, RbacError, ok, err}
use operations_management.Session.{Session}
use operations_management.Rbac.{
  Access, Role, Permission, role_key, permission_key, roles_of, permissions_of, codes_of,
  get_user_permissions, ensure_permission,
}

module _ {A : Type 0} (p : A → Bool) where
  -- What does not pass can be taken out without a loss.
  select-none : (xs : List A) → any p xs ≡ false → select (λ x. not (p x)) xs ≡ xs
  select-none [] h = refl
  select-none (x ∷ xs) h = ground (arith, select-none xs)

  pub select-snoc :
      (x : A) (xs : List A)
      → p x ≡ true
      → any p xs ≡ false
      → select (λ y. not (p y)) (xs ++ x ∷ []) ≡ xs
  select-snoc x [] h k = rw h refl
  select-snoc x (y ∷ ys) h k = ground (arith, select-snoc x ys h)

any_codes :
    (code : Text) (ps : List Permission)
    → any (λ c. text_eq c code) (map (λ (p : Permission). p.code) ps)
      ≡ any (λ (p : Permission). text_eq p.code code) ps
any_codes code [] = refl
any_codes code (p ∷ ps) = ground (arith, any_codes code ps)

any-codes_of :
    (code : Text) (rs : List Role) (d : Access)
    → any (λ c. text_eq c code) (codes_of rs d)
      ≡ any (λ (r : Role). any (λ (p : Permission). text_eq p.code code) (permissions_of r d)) rs
any-codes_of code [] d = refl
any-codes_of code (r ∷ rs) d =
    rw
      (any-append (λ c. text_eq c code) (map (λ (p : Permission). p.code) (permissions_of r d))
        (codes_of rs d))
      (rw (any_codes code (permissions_of r d)) (rw (any-codes_of code rs d) refl))

-- `ensure_permission` lets a user through exactly when the code is among `get_user_permissions`, and
-- raises `PermissionDenied` for everything else; it changes nothing.
pub ensure-get_user_permissions :
    (user : ℕ) (code : Text) (s : Session Access (Unit {0}))
    → ensure_permission user code s ≡ (
      if any (λ c. text_eq c code) (get_user_permissions user s.db)
          then ok tt
          else err (Failure.rbac RbacError.permission_denied),
      s,
    )
unfolding ensure_permission
ensure-get_user_permissions user code s =
    ground (arith, any-codes_of code (roles_of user s.db) s.db)
