-- ===== src/Stock.antt =====
-- The stock part of app/inventory/service.py over app/inventory/repositories/stock_repo.py: the
-- low-stock mark, and the four calls that change the quantity on hand.
pub mod Sync
pub mod Alerts
pub mod Books
pub mod Overdraft
pub mod Refinement
pub mod Sites
pub mod Consistency
use operations_management.Base.{
  ℕ, Bool, true, false, not, ◌&&◌, ◌||◌, Option, none, some, [], ◌∷◌, ◌++◌, ◌==◌, any, is_none,
  is_some, if◌then◌else◌,
}
use operations_management.Int.{ℤ, pos, ◌+ℤ◌, ◌-ℤ◌, abs_ℤ, ltb_ℤ, leb_ℤ}
use operations_management.Table.{find, first, put}
use operations_management.Errors.{Failure, InventoryError}
use operations_management.Session.{
  pure, gets, raise_if, or_raise, modify, remember, now, uuid7, commit, ◌>>=◌, ◌>>◌,
}
use operations_management.Shop.{
  Shop, Notices, Action, InventoryStock, StockMovement, StockMovementType, stock_key, movement_key,
  location_key, product_key,
}

abbrev pub available : InventoryStock → ℤ
available st = st.quantity -ℤ st.reserved_quantity

-- The test `is_low` of `_sync_low_stock`.
abbrev pub is_low : InventoryStock → Bool
is_low st = ltb_ℤ (pos 0) st.reorder_point && leb_ℤ (available st) st.reorder_point

-- `set.add`
abbrev pub add_pending : ℕ → Notices → Notices
add_pending i m =
    if any (λ j. j == i) m.pending then m else record m { pending = m.pending ++ i ∷ [] }

-- `_sync_low_stock`: the row as it leaves it, and whether an alert was queued.
unfoldable pub sync_low_stock : InventoryStock → Action (InventoryStock × Bool)
sync_low_stock st =
    if is_low st && is_none st.low_stock_alerted_at
    then (do
      t ← now
      remember (add_pending st.id)
      pure (record st { low_stock_alerted_at = some t }, true))
    else if not (is_low st) && is_some st.low_stock_alerted_at
    then pure (record st { low_stock_alerted_at = none }, false)
    else pure (st, false)

-- `flush_low_stock_alerts`: the notifier is called once for each pending stock, and never raises
-- (`defer_low_stock_alert` of app/worker/tasks/stock_alert.py catches every exception).
unfoldable pub flush_low_stock_alerts : Action (Unit {0})
flush_low_stock_alerts = remember (λ m. record { pending = []; sent = m.sent ++ m.pending })

-- The query of `get_stock_by_location_and_product_for_update`.
abbrev pub stock_at : ℕ → ℕ → Shop → Option InventoryStock
stock_at product_id location_id d =
    first (λ st. st.product_id == product_id && st.location_id == location_id) d.stocks

-- The change of a row that the session writes out when it flushes.
abbrev pub save_stock : InventoryStock → Action (Unit {0})
save_stock st = modify (λ d. record d { stocks = put st d.stocks })

-- `update_quantity_stock`
abbrev pub update_quantity_stock : InventoryStock → Action (Unit {0})
update_quantity_stock st = do save_stock st; commit

-- `add_movement`: the row gets its key and its time, and the database refuses a key that is taken.
unfoldable pub add_movement : (ℕ → ℕ → StockMovement) → Action StockMovement
add_movement build = do
  i ← uuid7
  t ← now
  raise_if (is_some (find i (← gets (λ d. d.movements)))) Failure.integrity_error
  modify (λ d. record d { movements = d.movements ++ build i t ∷ [] })
  pure (build i t)

-- `create_movement`
unfoldable pub create_movement : (ℕ → ℕ → StockMovement) → Action StockMovement
unfolding add_movement
create_movement build = do movement ← add_movement build; commit; pure movement

-- The columns of a movement that records a change from `previous` to `new`.
abbrev pub movement_of : StockMovementType → ℤ → InventoryStock → ℤ → ℕ → ℕ → ℕ → StockMovement
movement_of kind quantity st previous user i t = record {
  id = i;
  movement_type = kind;
  quantity = quantity;
  stock_id = st.id;
  previous_quantity = previous;
  new_quantity = st.quantity;
  created_by = user;
  created_at = t;
}

-- What the three quantity changes have in common after their checks: the low-stock mark, the row,
-- the movement, and the alerts, with a commit after each write.
unfoldable pub record_change : StockMovementType → ℤ → ℤ → ℕ → InventoryStock → Action StockMovement
record_change kind quantity previous user st = do
  (st', _) ← sync_low_stock st
  update_quantity_stock st'
  movement ← create_movement (movement_of kind quantity st previous user)
  flush_low_stock_alerts
  pure movement

unfoldable pub add_stock : ℕ → ℕ → ℤ → ℕ → Action StockMovement
add_stock product_id location_id quantity user_id = do
  raise_if (leb_ℤ quantity (pos 0)) (Failure.inventory InventoryError.invalid_quantity_stock)
  st ←
      or_raise (← gets (stock_at product_id location_id))
        (Failure.inventory InventoryError.invalid_product_or_location)
  record_change StockMovementType.inward quantity st.quantity user_id
      (record st { quantity = st.quantity +ℤ quantity })

unfoldable pub remove_stock : ℕ → ℕ → ℤ → ℕ → Action StockMovement
remove_stock product_id location_id quantity user_id = do
  raise_if (leb_ℤ quantity (pos 0)) (Failure.inventory InventoryError.invalid_quantity_stock)
  st ←
      or_raise (← gets (stock_at product_id location_id))
        (Failure.inventory InventoryError.invalid_product_or_location)
  raise_if (ltb_ℤ st.quantity quantity) (Failure.inventory InventoryError.stock_negative)
  record_change StockMovementType.outward quantity st.quantity user_id
      (record st { quantity = st.quantity -ℤ quantity })

unfoldable pub adjust_stock : ℕ → ℕ → ℤ → ℕ → Action StockMovement
adjust_stock product_id location_id quantity user_id = do
  st ←
      or_raise (← gets (stock_at product_id location_id))
        (Failure.inventory InventoryError.invalid_product_or_location)
  raise_if (ltb_ℤ quantity (pos 0)) (Failure.inventory InventoryError.stock_negative)
  record_change StockMovementType.adjust (abs_ℤ (quantity -ℤ st.quantity)) st.quantity user_id
      (record st { quantity = quantity })

-- The constraints of `inventory_stock`: the primary key, the pair of product and location, and the
-- two references.
abbrev pub stock_refused : InventoryStock → Shop → Bool
stock_refused st d =
    is_some (find st.id d.stocks)
    || is_some (stock_at st.product_id st.location_id d)
    || is_none (find st.location_id d.locations)
    || is_none (find st.product_id d.products)

-- The row that `StockRepository.initialize_stock` builds, with the columns' defaults.
abbrev pub new_stock : ℕ → ℕ → ℕ → ℤ → ℤ → InventoryStock
new_stock i location_id product_id quantity reorder_point = record {
  id = i;
  location_id = location_id;
  product_id = product_id;
  quantity = quantity;
  reserved_quantity = pos 0;
  reorder_point = reorder_point;
  low_stock_alerted_at = none;
}

-- `StockRepository.initialize_stock`
unfoldable pub insert_stock : ℕ → ℕ → ℤ → ℤ → Action InventoryStock
insert_stock location_id product_id quantity reorder_point = do
  i ← uuid7
  let st = new_stock i location_id product_id quantity reorder_point
  raise_if (← gets (stock_refused st)) Failure.integrity_error
  modify (λ d. record d { stocks = d.stocks ++ st ∷ [] })
  commit
  pure st

-- The end of `initialize_stock`: a row that begins low is marked, written once more, and announced.
unfoldable pub announce : InventoryStock → Action InventoryStock
announce st = do
  (st', queued) ← sync_low_stock st
  save_stock st'
  if queued then (do commit; flush_low_stock_alerts; pure st') else pure st'

-- `InventoryService.initialize_stock`; the result of its look-up of the product is not used.
unfoldable pub initialize_stock : ℕ → ℕ → ℤ → ℤ → Action InventoryStock
initialize_stock location_id product_id quantity reorder_point = do
  or_raise (← gets (λ d. find location_id d.locations))
      (Failure.inventory InventoryError.invalid_location)
  raise_if (leb_ℤ (abs_ℤ quantity) (pos 0))
      (Failure.inventory InventoryError.invalid_quantity_stock)
  raise_if (is_some (← gets (stock_at product_id location_id)))
      (Failure.inventory InventoryError.stock_already_exists)
  st ← insert_stock location_id product_id (abs_ℤ quantity) (abs_ℤ reorder_point)
  announce st
