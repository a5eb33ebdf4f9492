-- ===== src/Requests.antt =====
-- The requests that change the shop, one after another: each gets a session of its own from
-- `get_session` and a fresh `InventoryService` (app/inventory/dependencies.py), so it begins at
-- what is durable and with nothing pending.
mod Elsewhere
pub mod Soundness
pub mod Lifecycle
pub mod Routes
pub mod Asked
pub mod Attributed
use operations_management.Base.{ℕ, Bool, Option, List, [], ◌∷◌}
use operations_management.Int.{ℤ}
use operations_management.Text.{Text}
use operations_management.Errors.{Failure, Result}
use operations_management.Session.{Session, pure, get_session, ◌>>=◌, ◌>>◌}
use operations_management.Shop.{Shop, Notices, Action}
use operations_management.Stock.{initialize_stock, add_stock, remove_stock, adjust_stock}
use operations_management.Catalog.Products.{create_product, update_product, set_active}
use operations_management.Catalog.Categories.{
  create_category, delete_category, add_product_to_category, remove_product_from_category,
}
use operations_management.Catalog.Locations.{create_location, update_location, delete_location}
use operations_management.Orders.Repository.{create_order}
use operations_management.Orders.Service.{
  add_item_to_order, remove_item_from_order, confirm_order, cancel_order, complete_order,
}

-- The routes of app/inventory/router.py and app/orders/router.py that write, with what they pass on.
pub data Request : Type 0 where
  post_product : Text → Text → ℕ → Request
  patch_product : ℕ → Option Text → Option Text → Request
  put_active : Bool → ℕ → Request
  post_category : Text → Text → Request
  remove_category : ℕ → Request
  post_product_category : Option Failure → ℕ → ℕ → Request
  remove_product_category : ℕ → ℕ → Request
  post_location : Text → Text → Text → Request
  patch_location : ℕ → Option Text → Option Text → Option Text → Request
  remove_location : ℕ → Request
  post_stock : ℕ → ℕ → ℤ → ℤ → Request
  post_in post_out post_adjust : ℕ → ℕ → ℤ → ℕ → Request
  post_order : ℕ → (ℕ → ℕ → ℕ) → Request
  post_item : ℕ → ℕ → ℤ → Request
  remove_item : ℕ → ℕ → Request
  patch_confirm : ℕ → ℕ → Request
  patch_cancel : ℕ → Request
  patch_complete : ℕ → ℕ → Request

abbrev pub done : {A : Type 0} → Action A → Action (Unit {0})
done m = do m; pure tt

unfoldable pub handle : Request → Action (Unit {0})
handle (Request.post_product name sku c) = done (create_product name sku c)
handle (Request.patch_product i name sku) = done (update_product i name sku)
handle (Request.put_active active i) = done (set_active active i)
handle (Request.post_category name description) = done (create_category name description)
handle (Request.remove_category i) = delete_category i
handle (Request.post_product_category ignored p c) = done (add_product_to_category ignored p c)
handle (Request.remove_product_category p c) = done (remove_product_from_category p c)
handle (Request.post_location name city address) = done (create_location name city address)
handle (Request.patch_location i name city address) = done (update_location i name city address)
handle (Request.remove_location i) = delete_location i
handle (Request.post_stock l p q r) = done (initialize_stock l p q r)
handle (Request.post_in p l q user) = done (add_stock p l q user)
handle (Request.post_out p l q user) = done (remove_stock p l q user)
handle (Request.post_adjust p l q user) = done (adjust_stock p l q user)
handle (Request.post_order user random) = done (create_order user random)
handle (Request.post_item o p q) = done (add_item_to_order o p q)
handle (Request.remove_item o p) = done (remove_item_from_order o p)
handle (Request.patch_confirm o l) = done (confirm_order o l)
handle (Request.patch_cancel o) = done (cancel_order o)
handle (Request.patch_complete o user) = done (complete_order o user)

-- The session and the service that a request begins with.
abbrev pub begin : Session Shop Notices → Session Shop Notices
begin s = record s { db = s.committed; memory = record { pending = []; sent = s.memory.sent } }

unfoldable pub request : Request → Session Shop Notices → Session Shop Notices
request q s = (get_session (handle q) (begin s)).1

unfoldable pub serve : List Request → Session Shop Notices → Session Shop Notices
serve [] s = s
serve (q ∷ qs) s = serve qs (request q s)

abbrev pub empty_shop : Shop
empty_shop = record {
  products = [];
  categories = [];
  product_categories = [];
  locations = [];
  stocks = [];
  movements = [];
  reservations = [];
  orders = [];
  order_items = [];
}
