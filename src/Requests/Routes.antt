-- ===== src/Requests/Routes.antt =====
-- The writing routes of app/inventory/router.py and app/orders/router.py, each behind its permission,
-- for a caller with an access token and at the location of the header X-Location-Id.
use operations_management.Base.{ℕ, true, false, Option, [], ◌∷◌}
use operations_management.Int.{ℤ}
use operations_management.Text.{Text}
use operations_management.Errors.{Failure, Result}
use operations_management.Session.{Session, continue, get_session, ◌>>=◌}
use operations_management.Shop.{Shop, Notices, Action, Location, location_key}
use operations_management.Auth.{User, Accounts, Outside}
use operations_management.Auth.Identity.{Decoded, get_current_user}
use operations_management.Rbac.{Access}
use operations_management.Rbac.Guard.{require_permission}
use operations_management.Reports.{get_current_location}
use operations_management.Requests.{Request, handle, begin}

-- The routes with what the caller sends.
pub data Route : Type 0 where
  post_product : Text → Text → ℕ → Route
  patch_product : ℕ → Option Text → Option Text → Route
  drop_product : ℕ → Route
  activate_product : ℕ → Route
  post_category : Text → Text → Route
  remove_category : ℕ → Route
  post_product_category : Option Failure → ℕ → ℕ → Route
  remove_product_category : ℕ → ℕ → Route
  post_location : Text → Text → Text → Route
  patch_location : ℕ → Option Text → Option Text → Option Text → Route
  remove_location : ℕ → Route
  post_stock : ℕ → ℤ → ℤ → Route
  post_in : ℕ → ℤ → Route
  post_out : ℕ → ℤ → Route
  post_adjust : ℕ → ℤ → Route
  post_order : (ℕ → ℕ → ℕ) → Route
  post_item : ℕ → ℕ → ℤ → Route
  remove_item : ℕ → ℕ → Route
  patch_confirm : ℕ → Route
  patch_cancel : ℕ → Route
  patch_complete : ℕ → Route

-- The permission that a route asks for.
abbrev pub permission_of : Route → Text
permission_of (Route.post_product _ _ _) =
    b'p' ∷ b'r' ∷ b'o' ∷ b'd' ∷ b'u' ∷ b'c' ∷ b't' ∷ b':' ∷ b'c' ∷ b'r' ∷ b'e' ∷ b'a' ∷ b't' ∷ b'e'
    ∷ []
permission_of (Route.patch_product _ _ _) =
    b'p' ∷ b'r' ∷ b'o' ∷ b'd' ∷ b'u' ∷ b'c' ∷ b't' ∷ b':' ∷ b'u' ∷ b'p' ∷ b'd' ∷ b'a' ∷ b't' ∷ b'e'
    ∷ []
permission_of (Route.drop_product _) =
    b'p' ∷ b'r' ∷ b'o' ∷ b'd' ∷ b'u' ∷ b'c' ∷ b't' ∷ b':' ∷ b'd' ∷ b'e' ∷ b'a' ∷ b'c' ∷ b't' ∷ b'i'
    ∷ b'v' ∷ b'a' ∷ b't' ∷ b'e' ∷ []
permission_of (Route.activate_product _) =
    b'p' ∷ b'r' ∷ b'o' ∷ b'd' ∷ b'u' ∷ b'c' ∷ b't' ∷ b':' ∷ b'a' ∷ b'c' ∷ b't' ∷ b'i' ∷ b'v' ∷ b'a'
    ∷ b't' ∷ b'e' ∷ []
permission_of (Route.post_category _ _) =
    b'c' ∷ b'a' ∷ b't' ∷ b'e' ∷ b'g' ∷ b'o' ∷ b'r' ∷ b'y' ∷ b':' ∷ b'c' ∷ b'r' ∷ b'e' ∷ b'a' ∷ b't'
    ∷ b'e' ∷ []
permission_of (Route.remove_category _) =
    b'c' ∷ b'a' ∷ b't' ∷ b'e' ∷ b'g' ∷ b'o' ∷ b'r' ∷ b'y' ∷ b':' ∷ b'd' ∷ b'e' ∷ b'l' ∷ b'e' ∷ b't'
    ∷ b'e' ∷ []
permission_of (Route.post_product_category _ _ _) =
    b'c' ∷ b'a' ∷ b't' ∷ b'e' ∷ b'g' ∷ b'o' ∷ b'r' ∷ b'y' ∷ b':' ∷ b'c' ∷ b'r' ∷ b'e' ∷ b'a' ∷ b't'
    ∷ b'e' ∷ []
permission_of (Route.remove_product_category _ _) =
    b'c' ∷ b'a' ∷ b't' ∷ b'e' ∷ b'g' ∷ b'o' ∷ b'r' ∷ b'y' ∷ b':' ∷ b'r' ∷ b'e' ∷ b'm' ∷ b'o' ∷ b'v'
    ∷ b'e' ∷ []
permission_of (Route.post_location _ _ _) =
    b'l' ∷ b'o' ∷ b'c' ∷ b'a' ∷ b't' ∷ b'i' ∷ b'o' ∷ b'n' ∷ b':' ∷ b'c' ∷ b'r' ∷ b'e' ∷ b'a' ∷ b't'
    ∷ b'e' ∷ []
permission_of (Route.patch_location _ _ _ _) =
    b'l' ∷ b'o' ∷ b'c' ∷ b'a' ∷ b't' ∷ b'i' ∷ b'o' ∷ b'n' ∷ b':' ∷ b'u' ∷ b'p' ∷ b'd' ∷ b'a' ∷ b't'
    ∷ b'e' ∷ []
permission_of (Route.remove_location _) =
    b'l' ∷ b'o' ∷ b'c' ∷ b'a' ∷ b't' ∷ b'i' ∷ b'o' ∷ b'n' ∷ b':' ∷ b'd' ∷ b'e' ∷ b'l' ∷ b'e' ∷ b't'
    ∷ b'e' ∷ []
permission_of (Route.post_stock _ _ _) =
    b's' ∷ b't' ∷ b'o' ∷ b'c' ∷ b'k' ∷ b':' ∷ b'c' ∷ b'r' ∷ b'e' ∷ b'a' ∷ b't' ∷ b'e' ∷ []
permission_of (Route.post_in _ _) = b's' ∷ b't' ∷ b'o' ∷ b'c' ∷ b'k' ∷ b':' ∷ b'i' ∷ b'n' ∷ []
permission_of (Route.post_out _ _) =
    b's' ∷ b't' ∷ b'o' ∷ b'c' ∷ b'k' ∷ b':' ∷ b'o' ∷ b'u' ∷ b't' ∷ []
permission_of (Route.post_adjust _ _) =
    b's' ∷ b't' ∷ b'o' ∷ b'c' ∷ b'k' ∷ b':' ∷ b'a' ∷ b'd' ∷ b'j' ∷ b'u' ∷ b's' ∷ b't' ∷ []
permission_of (Route.post_order _) =
    b'o' ∷ b'r' ∷ b'd' ∷ b'e' ∷ b'r' ∷ b':' ∷ b'c' ∷ b'r' ∷ b'e' ∷ b'a' ∷ b't' ∷ b'e' ∷ []
permission_of (Route.post_item _ _ _) =
    b'o' ∷ b'r' ∷ b'd' ∷ b'e' ∷ b'r' ∷ b':' ∷ b'a' ∷ b'd' ∷ b'd' ∷ []
permission_of (Route.remove_item _ _) =
    b'o' ∷ b'r' ∷ b'd' ∷ b'e' ∷ b'r' ∷ b':' ∷ b'r' ∷ b'e' ∷ b'm' ∷ b'o' ∷ b'v' ∷ b'e' ∷ []
permission_of (Route.patch_confirm _) =
    b'o' ∷ b'r' ∷ b'd' ∷ b'e' ∷ b'r' ∷ b':' ∷ b'c' ∷ b'o' ∷ b'n' ∷ b'f' ∷ b'i' ∷ b'r' ∷ b'm' ∷ []
permission_of (Route.patch_cancel _) =
    b'o' ∷ b'r' ∷ b'd' ∷ b'e' ∷ b'r' ∷ b':' ∷ b'c' ∷ b'a' ∷ b'n' ∷ b'c' ∷ b'e' ∷ b'l' ∷ []
permission_of (Route.patch_complete _) =
    b'o' ∷ b'r' ∷ b'd' ∷ b'e' ∷ b'r' ∷ b':' ∷ b'c' ∷ b'o' ∷ b'm' ∷ b'p' ∷ b'l' ∷ b'e' ∷ b't' ∷ b'e'
    ∷ []

abbrev pub at_location : Option ℕ → (Location → Request) → Action (Unit {0})
at_location x_location_id q = get_current_location x_location_id >>= λ l. handle (q l)

-- The body of a route: the user and the location come from the token and the header.
abbrev pub run : Route → User → Option ℕ → Action (Unit {0})
run (Route.post_product name sku c) u x = handle (Request.post_product name sku c)
run (Route.patch_product i name sku) u x = handle (Request.patch_product i name sku)
run (Route.drop_product i) u x = handle (Request.put_active false i)
run (Route.activate_product i) u x = handle (Request.put_active true i)
run (Route.post_category name description) u x = handle (Request.post_category name description)
run (Route.remove_category i) u x = handle (Request.remove_category i)
run (Route.post_product_category ignored p c) u x =
    handle (Request.post_product_category ignored p c)
run (Route.remove_product_category p c) u x = handle (Request.remove_product_category p c)
run (Route.post_location name city address) u x = handle (Request.post_location name city address)
run (Route.patch_location i name city address) u x =
    handle (Request.patch_location i name city address)
run (Route.remove_location i) u x = handle (Request.remove_location i)
run (Route.post_stock p q r) u x = at_location x (λ l. Request.post_stock l.id p q r)
run (Route.post_in p q) u x = at_location x (λ l. Request.post_in p l.id q u.id)
run (Route.post_out p q) u x = at_location x (λ l. Request.post_out p l.id q u.id)
run (Route.post_adjust p q) u x = at_location x (λ l. Request.post_adjust p l.id q u.id)
run (Route.post_order random) u x = handle (Request.post_order u.id random)
run (Route.post_item o p q) u x = handle (Request.post_item o p q)
run (Route.remove_item o p) u x = handle (Request.remove_item o p)
run (Route.patch_confirm o) u x = at_location x (λ l. Request.patch_confirm o l.id)
run (Route.patch_cancel o) u x = handle (Request.patch_cancel o)
run (Route.patch_complete o) u x = handle (Request.patch_complete o u.id)

module _ (decode : ℕ → Text → Decoded) where
  -- The guard, the caller and the body, in one session; the caller is looked up once.
  abbrev pub entered :
      Text
      → Option ℕ
      → Session Accounts Outside
      → Session Access (Unit {0})
      → Route
      → Action (Unit {0})
  entered token x accounts rights r =
      continue (require_permission decode (permission_of r) token accounts rights)
        (λ _. continue (get_current_user decode token accounts).0 (λ u. run r u x))

  unfoldable pub respond :
      Text
      → Option ℕ
      → Session Accounts Outside
      → Session Access (Unit {0})
      → Route
      → Session Shop Notices
      → Result (Unit {0}) × Session Shop Notices
  respond token x accounts rights r s = get_session (entered token x accounts rights r) (begin s)
