-- ===== src/Reports.antt =====
-- The calls of app/inventory/service.py and app/orders/service.py that only read: lists, the search
-- for products and the history of a stock row. A database order on texts is a parameter.
pub mod Search
pub mod Matching
pub mod History
use operations_management.Base.{
  ℕ, Bool, true, false, not, ◌&&◌, ◌||◌, Option, none, some, List, [], ◌∷◌, ◌++◌, ◌==◌, ltb, select,
  if◌then◌else◌,
}
use operations_management.Base.Sorting.{sort}
use operations_management.Text.{Text, take}
use operations_management.Table.{find}
use operations_management.Errors.{Failure, InventoryError}
use operations_management.Session.{Service, pure, raise, gets, raise_if, or_raise, ◌>>=◌, ◌>>◌}
use operations_management.Shop.{
  Shop, Action, Product, Location, InventoryStock, StockMovement, Order, product_key, location_key,
  stock_key,
}
use operations_management.Replenishment.{is_at}
use operations_management.Replenishment.Report.{row_before}

abbrev pub missing : InventoryError → Failure
missing e = Failure.inventory e

unfoldable pub list_products : Action (List Product)
list_products = gets (λ d. d.products)

abbrev pub location_before : Location → Location → Bool
location_before x y = ltb x.id y.id

unfoldable pub get_location_list : Action (List Location)
get_location_list = gets (λ d. sort location_before d.locations)

-- `get_current_location`, from the header X-Location-Id.
unfoldable pub get_current_location : Option ℕ → Action Location
get_current_location x_location_id = do
  i ← or_raise x_location_id (Failure.http 400)
  found ← gets (λ d. find i d.locations)
  or_raise found (Failure.http 404)

-- `get_stock_levels` with both of its filters.
abbrev pub is_of : Option ℕ → InventoryStock → Bool
is_of none st = true
is_of (some p) st = st.product_id == p

abbrev pub levels : Option ℕ → Option ℕ → Shop → List InventoryStock
levels location_id product_id d =
    sort row_before (select (λ st. is_at location_id st && is_of product_id st) d.stocks)

unfoldable pub list_stock_levels : Option ℕ → Option ℕ → Action (List InventoryStock)
list_stock_levels location_id product_id = gets (levels location_id product_id)

-- `order_by(created_at.desc())`
abbrev pub is_newer : StockMovement → StockMovement → Bool
is_newer x y = ltb y.created_at x.created_at

-- `StockRepository.list_stock_movements`
abbrev pub movements_of : ℕ → ℕ → Shop → List StockMovement
movements_of stock_id limit d =
    take limit (sort is_newer (select (λ m. m.stock_id == stock_id) d.movements))

unfoldable pub list_stock_movements : ℕ → ℕ → ℕ → Action (List StockMovement)
list_stock_movements stock_id location_id limit = do
  found ← gets (λ d. find stock_id d.stocks)
  st ← or_raise found (missing InventoryError.stock_not_found)
  raise_if (not (st.location_id == location_id)) (missing InventoryError.stock_not_found)
  gets (movements_of stock_id limit)

pub record StockHistory : Type 0 where
  pub stock : InventoryStock
  pub history : List StockMovement

unfoldable pub get_stock_history : ℕ → ℕ → Action StockHistory
get_stock_history stock_id limit = do
  found ← gets (λ d. find stock_id d.stocks)
  st ← or_raise found (missing InventoryError.stock_not_found)
  ms ← gets (movements_of stock_id limit)
  pure (record { stock = st; history = ms })

abbrev pub is_later : Order → Order → Bool
is_later x y = ltb y.created_at x.created_at

unfoldable pub list_user_orders : ℕ → Action (List Order)
list_user_orders user_id = gets (λ d. sort is_later (select (λ o. o.user_id == user_id) d.orders))
