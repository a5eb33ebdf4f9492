-- ===== src/Orders/Repository.antt =====
-- The guards of `Order` in app/orders/models/order.py, and app/orders/repository.py.
use operations_management.Base.{
  ℕ, zero, suc, Bool, true, false, not, ◌||◌, Option, none, some, List, [], ◌∷◌, ◌++◌, ◌==◌, select,
  is_none, is_some, if◌then◌else◌,
}
use operations_management.Int.{ℤ, pos, leb_ℤ}
use operations_management.Text.{Text, text_eq}
use operations_management.Table.{find, first, put, delete}
use operations_management.Errors.{Failure, OrderError, ok}
use operations_management.Session.{
  pure, raise, gets, raise_if, or_raise, modify, now, uuid7, commit, rollback, ◌>>=◌, ◌>>◌,
}
use operations_management.Shop.{
  Shop, Action, Order, OrderItem, OrderStatus, StockReservation, order_key, order_item_key,
  product_key,
}
use operations_management.Orders.Code.{generate_order_code}

abbrev pub is_created : OrderStatus → Bool
is_created OrderStatus.created = true
is_created _ = false

abbrev pub is_confirmed : OrderStatus → Bool
is_confirmed OrderStatus.confirmed = true
is_confirmed _ = false

abbrev pub bad_status : Failure
bad_status = Failure.order OrderError.invalid_order_status

-- `order.items`
abbrev pub items_of : ℕ → Shop → List OrderItem
items_of order_id d = select (λ x. x.order_id == order_id) d.order_items

-- `item.reservation`
abbrev pub reservation_of : ℕ → Shop → Option StockReservation
reservation_of item_id d = first (λ r. r.order_item_id == item_id) d.reservations

abbrev pub save_order : Order → Action (Unit {0})
save_order o = modify (λ d. record d { orders = put o d.orders })

-- `Order.confirm`, `Order.cancel` and `Order.complete`.
unfoldable pub confirm : Order → Action Order
confirm o = do
  raise_if (not (is_created o.status)) bad_status
  pure (record o { status = OrderStatus.confirmed })

unfoldable pub cancel : Order → Action Order
cancel o = do
  raise_if (not (is_created o.status || is_confirmed o.status)) bad_status
  pure (record o { status = OrderStatus.cancelled })

unfoldable pub complete : Order → Action Order
complete o = do
  raise_if (not (is_confirmed o.status)) bad_status
  pure (record o { status = OrderStatus.completed })

-- `Order.add_item`: the checks; the item gets its key when it is inserted.
unfoldable pub add_item : Order → ℕ → ℤ → Action (ℕ → OrderItem)
add_item o product_id quantity = do
  raise_if (not (is_created o.status)) bad_status
  raise_if (leb_ℤ quantity (pos 0)) (Failure.order OrderError.invalid_quantity)
  pure (λ i. record { id = i; order_id = o.id; product_id = product_id; quantity = quantity })

-- `Order.remove_item`: the item that is taken off the order.
unfoldable pub remove_item_guard : Order → ℕ → Action OrderItem
remove_item_guard o product_id = do
  raise_if (not (is_created o.status)) bad_status
  found ← gets (λ d. first (λ x. x.product_id == product_id) (items_of o.id d))
  or_raise found (Failure.order OrderError.order_item_not_found)

-- `get_order` and `get_order_by_code`
abbrev pub order_by_code : Text → Shop → Option Order
order_by_code code d = first (λ o. text_eq o.code code) d.orders

-- The constraints of `orders`: the primary key and the code.
abbrev pub order_refused : Order → Shop → Bool
order_refused o d = is_some (find o.id d.orders) || is_some (order_by_code o.code d)

-- `Order.create`
abbrev pub new_order : ℕ → Text → ℕ → ℕ → Order
new_order i code user_id t = record {
  id = i;
  code = code;
  user_id = user_id;
  status = OrderStatus.created;
  created_at = t;
}

-- One round of `create_order`: the insertion and its commit, or the rollback of a refused one.
unfoldable pub try_create : ℕ → (ℕ → ℕ) → Action (Option Order)
try_create user_id random = do
  i ← uuid7
  t ← now
  let o = new_order i (generate_order_code random) user_id t
  refused ← gets (order_refused o)
  if refused
      then (λ s. (ok none, rollback s))
      else (do modify (λ d. record d { orders = d.orders ++ o ∷ [] }); commit; pure (some o))

-- `for _ in range(_MAX_CODE_RETRIES)`, with the random numbers of each round.
unfoldable pub create_rounds : ℕ → ℕ → (ℕ → ℕ → ℕ) → Action Order
create_rounds zero user_id random = raise (Failure.order OrderError.order_code_generation_error)
create_rounds (suc n) user_id random = do
  created ← try_create user_id (random n)
  let rest = create_rounds n user_id random
  elim created [ none ↦ rest | some o ↦ pure o ]

-- `OrderRepository.create_order`
unfoldable pub create_order : ℕ → (ℕ → ℕ → ℕ) → Action Order
create_order = create_rounds 5

-- The constraints of `order_items`.
abbrev pub item_refused : OrderItem → Shop → Bool
item_refused x d =
    is_some (find x.id d.order_items)
    || is_none (find x.order_id d.orders)
    || is_none (find x.product_id d.products)

-- `append_item`, on an order that `get_order` found.
unfoldable pub append_item : Order → ℕ → ℤ → Action Order
unfolding add_item
append_item o product_id quantity = do
  item ← add_item o product_id quantity
  i ← uuid7
  raise_if (← gets (item_refused (item i))) Failure.integrity_error
  modify (λ d. record d { order_items = d.order_items ++ item i ∷ [] })
  commit
  pure o

-- `remove_item`, on an order that `get_order` found. The database refuses to delete an item that a
-- reservation names.
unfoldable pub remove_item : Order → ℕ → Action Order
unfolding remove_item_guard
remove_item o product_id = do
  item ← remove_item_guard o product_id
  raise_if (is_some (← gets (reservation_of item.id))) Failure.integrity_error
  modify (λ d. record d { order_items = delete item.id d.order_items })
  commit
  pure o
