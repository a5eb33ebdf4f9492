-- ===== src/Reservations.antt =====
-- The reservation part of app/inventory/service.py, which the orders call inside their own
-- transaction: nothing here commits.
pub mod Consistency
pub mod Runs
pub mod Alerts
pub mod Books
pub mod Closed
pub mod Shipping
pub mod Effects
use operations_management.Base.{ℕ, Bool, not, ◌||◌, [], ◌∷◌, ◌++◌, ◌==◌, any, is_some}
use operations_management.Int.{ℤ, pos, ◌+ℤ◌, ◌-ℤ◌, ltb_ℤ, leb_ℤ}
use operations_management.Table.{find, put}
use operations_management.Errors.{Failure, InventoryError}
use operations_management.Session.{pure, gets, raise_if, or_raise, modify, uuid7, ◌>>=◌, ◌>>◌}
use operations_management.Shop.{
  Shop, Action, InventoryStock, StockMovementType, StockReservation, ReservationStatus, is_reserved,
  stock_key, reservation_key, order_item_key,
}
use operations_management.Stock.{
  available, sync_low_stock, stock_at, save_stock, add_movement, movement_of,
}

-- The constraints of `stock_reservation`: the primary key, one reservation for an order item, and
-- the two references.
abbrev pub reservation_refused : StockReservation → Shop → Bool
reservation_refused r d =
    is_some (find r.id d.reservations)
    || any (λ x. x.order_item_id == r.order_item_id) d.reservations
    || not (is_some (find r.stock_id d.stocks))
    || not (is_some (find r.order_item_id d.order_items))

-- `StockReservation.create`
abbrev pub new_reservation : ℕ → ℕ → ℕ → ℤ → StockReservation
new_reservation i order_item_id stock_id quantity = record {
  id = i;
  order_item_id = order_item_id;
  stock_id = stock_id;
  quantity = quantity;
  status = ReservationStatus.reserved;
}

-- `ReservationRepository.create_reservation`
unfoldable pub create_reservation : ℕ → ℕ → ℤ → Action StockReservation
create_reservation order_item_id stock_id quantity = do
  raise_if (leb_ℤ quantity (pos 0)) Failure.value_error
  i ← uuid7
  let r = new_reservation i order_item_id stock_id quantity
  raise_if (← gets (reservation_refused r)) Failure.integrity_error
  modify (λ d. record d { reservations = d.reservations ++ r ∷ [] })
  pure r

-- The part of `reserve_for_item` behind its checks.
unfoldable pub hold : ℕ → ℤ → InventoryStock → Action StockReservation
hold order_item_id quantity st = do
  (st', _) ← sync_low_stock (record st { reserved_quantity = st.reserved_quantity +ℤ quantity })
  save_stock st'
  create_reservation order_item_id st.id quantity

unfoldable pub reserve_for_item : ℕ → ℕ → ℕ → ℤ → Action StockReservation
reserve_for_item order_item_id product_id location_id quantity = do
  raise_if (leb_ℤ quantity (pos 0)) (Failure.inventory InventoryError.invalid_quantity_stock)
  st ←
      or_raise (← gets (stock_at product_id location_id))
        (Failure.inventory InventoryError.stock_not_found)
  raise_if (ltb_ℤ (available st) quantity) (Failure.inventory InventoryError.insufficient_stock)
  hold order_item_id quantity st

abbrev pub save_reservation : StockReservation → Action (Unit {0})
save_reservation r = modify (λ d. record d { reservations = put r d.reservations })

-- The checks that `release_for_item` and `fulfill_for_item` begin with: an open reservation and
-- its stock row.
unfoldable pub open_reservation : ℕ → Action (StockReservation × InventoryStock)
open_reservation reservation_id = do
  r ←
      or_raise (← gets (λ d. find reservation_id d.reservations))
        (Failure.inventory InventoryError.reservation_not_found)
  raise_if (not (is_reserved r.status))
      (Failure.inventory InventoryError.invalid_reservation_status)
  st ←
      or_raise (← gets (λ d. find r.stock_id d.stocks))
        (Failure.inventory InventoryError.stock_not_found)
  pure (r, st)

-- The parts of `release_for_item` and `fulfill_for_item` behind their checks.
unfoldable pub release : StockReservation × InventoryStock → Action StockReservation
release (r, st) = do
  save_reservation (record r { status = ReservationStatus.released })
  (st', _) ← sync_low_stock (record st { reserved_quantity = st.reserved_quantity -ℤ r.quantity })
  save_stock st'
  pure (record r { status = ReservationStatus.released })

unfoldable pub release_for_item : ℕ → Action StockReservation
release_for_item reservation_id = do release (← open_reservation reservation_id)

-- The row after its goods have left.
abbrev pub shipped : StockReservation → InventoryStock → InventoryStock
shipped r st = record st {
  quantity = st.quantity -ℤ r.quantity;
  reserved_quantity = st.reserved_quantity -ℤ r.quantity;
}

unfoldable pub fulfill : ℕ → StockReservation × InventoryStock → Action StockReservation
fulfill user_id (r, st) = do
  save_reservation (record r { status = ReservationStatus.fulfilled })
  (st', _) ← sync_low_stock (shipped r st)
  save_stock st'
  add_movement (movement_of StockMovementType.outward r.quantity (shipped r st) st.quantity user_id)
  pure (record r { status = ReservationStatus.fulfilled })

unfoldable pub fulfill_for_item : ℕ → ℕ → Action StockReservation
fulfill_for_item reservation_id user_id = do fulfill user_id (← open_reservation reservation_id)
