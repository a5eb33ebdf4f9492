-- ===== src/Requests/Asked.antt =====
-- What each route of app/inventory/router.py and app/orders/router.py asks for, in whose name and
-- where.
use operations_management.Base.{ℕ, Bool, true, false, ◌≡◌, ◌⊎◌, true, Option, none, some}
use operations_management.Text.{Text}
use operations_management.Table.{find}
use operations_management.Int.{ℤ}
use operations_management.Errors.{Failure}
use operations_management.Shop.{Shop, Location, location_key}
use operations_management.Auth.{User, user_key}
use operations_management.Requests.{Request}
use operations_management.Requests.Routes.{Route}

-- The user whom a request writes into an order or a movement.
abbrev pub author : Request → Option ℕ
author (Request.post_in _ _ _ user) = some user
author (Request.post_out _ _ _ user) = some user
author (Request.post_adjust _ _ _ user) = some user
author (Request.post_order user _) = some user
author (Request.patch_complete _ user) = some user
author _ = none

-- The location at which a request moves or reserves stock.
abbrev pub place : Request → Option ℕ
place (Request.post_stock l _ _ _) = some l
place (Request.post_in _ l _ _) = some l
place (Request.post_out _ l _ _) = some l
place (Request.post_adjust _ l _ _) = some l
place (Request.patch_confirm _ l) = some l
place _ = none

-- The user writes in no name but its own.
abbrev pub IsBy : User → Request → Type 0
IsBy u q = (author q ≡ none) ⊎ (author q ≡ some u.id)

-- The request is about no location, or about the stored one of the header.
abbrev pub IsAt : Option ℕ → Shop → Request → Type 0
IsAt x d q =
    (place q ≡ none)
    ⊎ ((l : Location) × (x ≡ some l.id) × (find l.id d.locations ≡ some l) × (place q ≡ some l.id))

-- Which request a route asks for: `drop_product` and `activate_product` set the flag of a product, and
-- every other route asks for the request of its name with what the caller sends. The user `v` and the
-- location `l` are left open here.
pub data Asks : Route → Request → Type 0 where
  post_product :
      (name : Text) (sku : Text) (c : ℕ)
      → Asks (Route.post_product name sku c) (Request.post_product name sku c)
  patch_product :
      (i : ℕ) (name : Option Text) (sku : Option Text)
      → Asks (Route.patch_product i name sku) (Request.patch_product i name sku)
  drop_product : (i : ℕ) → Asks (Route.drop_product i) (Request.put_active false i)
  activate_product : (i : ℕ) → Asks (Route.activate_product i) (Request.put_active true i)
  post_category :
      (name : Text) (description : Text)
      → Asks (Route.post_category name description) (Request.post_category name description)
  remove_category : (i : ℕ) → Asks (Route.remove_category i) (Request.remove_category i)
  post_product_category :
      (ignored : Option Failure) (p : ℕ) (c : ℕ)
      → Asks (Route.post_product_category ignored p c) (Request.post_product_category ignored p c)
  remove_product_category :
      (p : ℕ) (c : ℕ)
      → Asks (Route.remove_product_category p c) (Request.remove_product_category p c)
  post_location :
      (name : Text) (city : Text) (address : Text)
      → Asks (Route.post_location name city address) (Request.post_location name city address)
  patch_location :
      (i : ℕ) (name : Option Text) (city : Option Text) (address : Option Text)
      → Asks (Route.patch_location i name city address) (Request.patch_location i name city address)
  remove_location : (i : ℕ) → Asks (Route.remove_location i) (Request.remove_location i)
  post_stock :
      (p : ℕ) (q : ℤ) (r : ℤ) (l : ℕ) → Asks (Route.post_stock p q r) (Request.post_stock l p q r)
  post_in :
      (p : ℕ) (q : ℤ) (l : ℕ) (user : ℕ) → Asks (Route.post_in p q) (Request.post_in p l q user)
  post_out :
      (p : ℕ) (q : ℤ) (l : ℕ) (user : ℕ) → Asks (Route.post_out p q) (Request.post_out p l q user)
  post_adjust :
      (p : ℕ) (q : ℤ) (l : ℕ) (user : ℕ)
      → Asks (Route.post_adjust p q) (Request.post_adjust p l q user)
  post_order :
      (random : (ℕ → ℕ → ℕ)) (user : ℕ)
      → Asks (Route.post_order random) (Request.post_order user random)
  post_item : (o : ℕ) (p : ℕ) (q : ℤ) → Asks (Route.post_item o p q) (Request.post_item o p q)
  remove_item : (o : ℕ) (p : ℕ) → Asks (Route.remove_item o p) (Request.remove_item o p)
  patch_confirm : (o : ℕ) (l : ℕ) → Asks (Route.patch_confirm o) (Request.patch_confirm o l)
  patch_cancel : (o : ℕ) → Asks (Route.patch_cancel o) (Request.patch_cancel o)
  patch_complete :
      (o : ℕ) (user : ℕ) → Asks (Route.patch_complete o) (Request.patch_complete o user)

-- The routes that need the header.
abbrev pub needs_location : Route → Bool
needs_location (Route.post_stock _ _ _) = true
needs_location (Route.post_in _ _) = true
needs_location (Route.post_out _ _) = true
needs_location (Route.post_adjust _ _) = true
needs_location (Route.patch_confirm _) = true
needs_location _ = false

-- The header is missing, or names no stored location.
abbrev pub IsAstray : Option ℕ → Shop → Failure → Type 0
IsAstray x d e =
    ((x ≡ none) × (e ≡ Failure.http 400))
    ⊎ ((i : ℕ) × (x ≡ some i) × (find i d.locations ≡ none) × (e ≡ Failure.http 404))
