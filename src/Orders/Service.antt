-- ===== src/Orders/Service.antt =====
-- app/orders/service.py: `OrderService`, over the repository and the reservations.
use operations_management.Base.{ℕ, not, Option, none, some, List, [], ◌∷◌}
use operations_management.Int.{ℤ}
use operations_management.Text.{Text}
use operations_management.Table.{find}
use operations_management.Errors.{Failure, OrderError, InventoryError}
use operations_management.Session.{pure, gets, raise_if, or_raise, commit, ◌>>=◌, ◌>>◌}
use operations_management.Shop.{
  Action, Order, OrderItem, OrderStatus, StockReservation, order_key, product_key,
}
use operations_management.Stock.{flush_low_stock_alerts}
use operations_management.Reservations.{reserve_for_item, release_for_item, fulfill_for_item}
use operations_management.Orders.Code.{normalize_code}
use operations_management.Orders.Repository.{
  bad_status, is_created, is_confirmed, items_of, reservation_of, save_order, cancel, complete,
  order_by_code, append_item, remove_item,
}

abbrev pub not_found : Failure
not_found = Failure.order OrderError.order_not_found

-- `get_order` with its `None` raised as `OrderNotFound`.
abbrev pub require_order : ℕ → Action Order
require_order order_id = do or_raise (← gets (λ d. find order_id d.orders)) not_found

unfoldable pub get_order_by_code : Text → Action Order
get_order_by_code code = do
  normalized ← or_raise (normalize_code code) not_found
  or_raise (← gets (order_by_code normalized)) not_found

unfoldable pub add_item_to_order : ℕ → ℕ → ℤ → Action Order
add_item_to_order order_id product_id quantity = do
  or_raise (← gets (λ d. find product_id d.products))
      (Failure.inventory InventoryError.product_not_found)
  o ← require_order order_id
  append_item o product_id quantity

unfoldable pub remove_item_from_order : ℕ → ℕ → Action Order
remove_item_from_order order_id product_id = do o ← require_order order_id; remove_item o product_id

-- The loop of `confirm_order`.
unfoldable pub reserve_items : ℕ → List OrderItem → Action (Unit {0})
reserve_items location_id [] = pure tt
reserve_items location_id (x ∷ xs) = do
  reserve_for_item x.id x.product_id location_id x.quantity
  reserve_items location_id xs

-- The end of `confirm_order`, behind the loop.
unfoldable pub finish_confirm : Order → Action Order
finish_confirm o = do
  save_order (record o { status = OrderStatus.confirmed })
  commit
  flush_low_stock_alerts
  pure (record o { status = OrderStatus.confirmed })

unfoldable pub confirm_order : ℕ → ℕ → Action Order
confirm_order order_id location_id = do
  o ← require_order order_id
  raise_if (not (is_created o.status)) bad_status
  reserve_items location_id (← gets (items_of order_id))
  finish_confirm o

-- The loops of `cancel_order` and `complete_order`: `settle` for each item with a reservation.
abbrev pub settle_item : (ℕ → Action StockReservation) → Option StockReservation → Action (Unit {0})
settle_item settle none = pure tt
settle_item settle (some r) = do settle r.id; pure tt

unfoldable pub settle_items : (ℕ → Action StockReservation) → List OrderItem → Action (Unit {0})
settle_items settle [] = pure tt
settle_items settle (x ∷ xs) = do
  settle_item settle (← gets (reservation_of x.id))
  settle_items settle xs

-- The ends of `cancel_order` and `complete_order`, behind their loops.
unfoldable pub finish_cancel : Order → Action Order
finish_cancel o = do o' ← cancel o; save_order o'; commit; pure o'

unfoldable pub finish_complete : Order → Action Order
finish_complete o = do o' ← complete o; save_order o'; commit; flush_low_stock_alerts; pure o'

-- `cancel_order` calls no `flush_low_stock_alerts`.
unfoldable pub cancel_order : ℕ → Action Order
cancel_order order_id = do
  o ← require_order order_id
  raise_if (not (is_confirmed o.status)) bad_status
  settle_items release_for_item (← gets (items_of order_id))
  finish_cancel o

unfoldable pub complete_order : ℕ → ℕ → Action Order
complete_order order_id user_id = do
  o ← require_order order_id
  raise_if (not (is_confirmed o.status)) bad_status
  settle_items (λ i. fulfill_for_item i user_id) (← gets (items_of order_id))
  finish_complete o
