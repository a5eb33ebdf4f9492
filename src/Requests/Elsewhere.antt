-- ===== src/Requests/Elsewhere.antt =====
-- The calls of app/inventory/service.py and app/orders/service.py that do not write stock rows or
-- reservations.
use operations_management.Base.{ℕ, zero, suc, ◌≡◌, Bool, none, some, Option, List, arith}
use operations_management.Int.{ℤ}
use operations_management.Text.{Text, strip, upper}
use operations_management.Errors.{Failure, Result, ok, err}
use operations_management.Session.{Session, continue, pure}
use operations_management.Shop.{
  Shop, Notices, Action, InventoryStock, StockReservation, Order, product_key, location_key,
  order_key, category_key,
}
use operations_management.Catalog.Products.{
  insert_product, create_product, get_product, store_product, update_product, set_active,
}
use operations_management.Catalog.Categories.{
  insert_category, create_category, delete_category, add_product_to_category,
  remove_product_from_category,
}
use operations_management.Catalog.Locations.{
  insert_location, create_location, get_location, store_location, update_place, update_location,
  delete_location,
}
use operations_management.Orders.Repository.{
  try_create, create_rounds, add_item, append_item, remove_item_guard, remove_item,
}
use operations_management.Orders.Service.{add_item_to_order, remove_item_from_order}

module _ (stocks : List InventoryStock) (reservations : List StockReservation) where
  abbrev pub Keeps : Session Shop Notices → Type 0
  Keeps s =
      (s.db.stocks ≡ stocks)
      × (s.db.reservations ≡ reservations)
      × (s.committed.stocks ≡ stocks)
      × (s.committed.reservations ≡ reservations)

  module _ (s : Session Shop Notices) (h : Keeps s) where
    pub create_product-Keeps : (name sku : Text) (c : ℕ) → Keeps (create_product name sku c s).1
    unfolding create_product insert_product
    create_product-Keeps name sku c = ground arith

    store_product-Keeps : (i : ℕ) (name sku : Option Text) → Keeps (store_product i name sku s).1
    unfolding store_product
    store_product-Keeps i name sku = ground arith

    pub update_product-Keeps :
        (i : ℕ) (name sku : Option Text) → Keeps (update_product i name sku s).1
    unfolding update_product
    update_product-Keeps i none none = h
    update_product-Keeps i (some name) none =
        ground (arith, store_product-Keeps i (some (strip name)) none)
    update_product-Keeps i none (some sku) =
        ground (arith, store_product-Keeps i none (some (upper (strip sku))))
    update_product-Keeps i (some name) (some sku) =
        ground (arith, store_product-Keeps i (some (strip name)) (some (upper (strip sku))))

    pub set_active-Keeps : (active : Bool) (i : ℕ) → Keeps (set_active active i s).1
    unfolding set_active get_product
    set_active-Keeps active i = ground arith

    pub create_category-Keeps :
        (name description : Text) → Keeps (create_category name description s).1
    unfolding create_category insert_category
    create_category-Keeps name description = ground arith

    pub delete_category-Keeps : (i : ℕ) → Keeps (delete_category i s).1
    unfolding delete_category
    delete_category-Keeps i = ground arith

    pub add_product_to_category-Keeps :
        (ignored : Option Failure) (p c : ℕ) → Keeps (add_product_to_category ignored p c s).1
    unfolding add_product_to_category
    add_product_to_category-Keeps ignored p c = ground arith

    pub remove_product_from_category-Keeps :
        (p c : ℕ) → Keeps (remove_product_from_category p c s).1
    unfolding remove_product_from_category
    remove_product_from_category-Keeps p c = ground arith

    pub create_location-Keeps :
        (name city address : Text) → Keeps (create_location name city address s).1
    unfolding create_location insert_location
    create_location-Keeps name city address = ground arith

    pub delete_location-Keeps : (i : ℕ) → Keeps (delete_location i s).1
    unfolding delete_location get_location
    delete_location-Keeps i = ground arith

    pub add_item_to_order-Keeps : (o p : ℕ) (q : ℤ) → Keeps (add_item_to_order o p q s).1
    unfolding add_item_to_order append_item add_item
    add_item_to_order-Keeps o p q = ground arith

    pub remove_item_from_order-Keeps : (o p : ℕ) → Keeps (remove_item_from_order o p s).1
    unfolding remove_item_from_order remove_item remove_item_guard
    remove_item_from_order-Keeps o p = ground arith

    try_create-Keeps : (user : ℕ) (random : ℕ → ℕ) → Keeps (try_create user random s).1
    unfolding try_create
    try_create-Keeps user random = ground arith

    store_location-Keeps :
        (i : ℕ) (name city address : Option Text) → Keeps (store_location i name city address s).1
    unfolding store_location
    store_location-Keeps i name city address = ground arith

    update_place-Keeps :
        (i : ℕ) (name city address : Option Text) → Keeps (update_place i name city address s).1
    unfolding update_place
    update_place-Keeps i name none none = store_location-Keeps i name none none
    update_place-Keeps i name (some city) none =
        ground (arith, store_location-Keeps i name (some (strip city)) none)
    update_place-Keeps i name none (some address) =
        ground (arith, store_location-Keeps i name none (some (strip address)))
    update_place-Keeps i name (some city) (some address) =
        ground (arith, store_location-Keeps i name (some (strip city)) (some (strip address)))

    pub update_location-Keeps :
        (i : ℕ) (name city address : Option Text) → Keeps (update_location i name city address s).1
    unfolding update_location
    update_location-Keeps i none city address =
        ground (arith, update_place-Keeps i none city address)
    update_location-Keeps i (some name) city address =
        ground (arith, update_place-Keeps i (some (strip name)) city address)

  -- One more round, if the last was rolled back.
  next_round-Keeps :
      (rest : Action Order)
      → ((s : Session Shop Notices) → Keeps s → Keeps (rest s).1)
      → (x : Result (Option Order) × Session Shop Notices) → Keeps x.1
      → Keeps (continue x.0 (λ o. elim o [ none ↦ rest | some a ↦ pure a ]) x.1).1
  next_round-Keeps rest again (ok none, s) k = again s k
  next_round-Keeps rest again (ok (some o), s) k = k
  next_round-Keeps rest again (err e, s) k = k

  pub create_rounds-Keeps :
      (n user : ℕ) (random : ℕ → ℕ → ℕ) (s : Session Shop Notices)
      → Keeps s
      → Keeps (create_rounds n user random s).1
  unfolding create_rounds
  create_rounds-Keeps zero user random s h = h
  create_rounds-Keeps (suc n) user random s h =
      next_round-Keeps (create_rounds n user random) (create_rounds-Keeps n user random)
        (try_create user (random n) s) (try_create-Keeps s h user (random n))
