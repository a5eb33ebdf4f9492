-- ===== src/Orders/Untouched.antt =====
-- The calls of app/inventory/service.py and app/orders/service.py that leave the orders' rows alone.
use operations_management.Base.{
  ℕ, ◌≡◌, Bool, none, some, Option, List, arith, Bool-cases, Option-cases, inl, inr,
}
use operations_management.Int.{ℤ, pos, leb_ℤ, ltb_ℤ}
use operations_management.Text.{Text, strip, upper}
use operations_management.Errors.{Failure}
use operations_management.Session.{Session}
use operations_management.Shop.{
  Shop, Notices, InventoryStock, StockMovementType, Order, product_key, location_key, order_key,
  category_key, stock_key, movement_key, reservation_key,
}
use operations_management.Stock.{
  sync_low_stock, flush_low_stock_alerts, add_movement, create_movement, record_change, add_stock,
  remove_stock, adjust_stock, stock_at, insert_stock, announce, initialize_stock,
}
use operations_management.Reservations.{
  create_reservation, hold, reserve_for_item, open_reservation, release, release_for_item, fulfill,
  fulfill_for_item,
}
use operations_management.Catalog.Products.{
  insert_product, create_product, get_product, store_product, update_product, set_active,
}
use operations_management.Catalog.Categories.{
  insert_category, create_category, delete_category, add_product_to_category,
  remove_product_from_category,
}
use operations_management.Catalog.Locations.{
  insert_location, create_location, get_location, store_location, update_place, update_location,
  delete_location,
}
use operations_management.Orders.Repository.{add_item, append_item, remove_item_guard, remove_item}
use operations_management.Orders.Service.{add_item_to_order, remove_item_from_order}

module _ (orders : List Order) where
  abbrev pub Apart : Session Shop Notices → Type 0
  Apart s = (s.db.orders ≡ orders) × (s.committed.orders ≡ orders)

  module _ (s : Session Shop Notices) (h : Apart s) where
    pub create_product-Apart : (name sku : Text) (c : ℕ) → Apart (create_product name sku c s).1
    unfolding create_product insert_product
    create_product-Apart name sku c = ground arith

    store_product-Apart : (i : ℕ) (name sku : Option Text) → Apart (store_product i name sku s).1
    unfolding store_product
    store_product-Apart i name sku = ground arith

    pub update_product-Apart :
        (i : ℕ) (name sku : Option Text) → Apart (update_product i name sku s).1
    unfolding update_product
    update_product-Apart i none none = h
    update_product-Apart i (some name) none =
        ground (arith, store_product-Apart i (some (strip name)) none)
    update_product-Apart i none (some sku) =
        ground (arith, store_product-Apart i none (some (upper (strip sku))))
    update_product-Apart i (some name) (some sku) =
        ground (arith, store_product-Apart i (some (strip name)) (some (upper (strip sku))))

    pub set_active-Apart : (active : Bool) (i : ℕ) → Apart (set_active active i s).1
    unfolding set_active get_product
    set_active-Apart active i = ground arith

    pub create_category-Apart :
        (name description : Text) → Apart (create_category name description s).1
    unfolding create_category insert_category
    create_category-Apart name description = ground arith

    pub delete_category-Apart : (i : ℕ) → Apart (delete_category i s).1
    unfolding delete_category
    delete_category-Apart i = ground arith

    pub add_product_to_category-Apart :
        (ignored : Option Failure) (p c : ℕ) → Apart (add_product_to_category ignored p c s).1
    unfolding add_product_to_category
    add_product_to_category-Apart ignored p c = ground arith

    pub remove_product_from_category-Apart :
        (p c : ℕ) → Apart (remove_product_from_category p c s).1
    unfolding remove_product_from_category
    remove_product_from_category-Apart p c = ground arith

    pub create_location-Apart :
        (name city address : Text) → Apart (create_location name city address s).1
    unfolding create_location insert_location
    create_location-Apart name city address = ground arith

    pub delete_location-Apart : (i : ℕ) → Apart (delete_location i s).1
    unfolding delete_location get_location
    delete_location-Apart i = ground arith

    pub add_item_to_order-Apart : (o p : ℕ) (q : ℤ) → Apart (add_item_to_order o p q s).1
    unfolding add_item_to_order append_item add_item
    add_item_to_order-Apart o p q = ground arith

    pub remove_item_from_order-Apart : (o p : ℕ) → Apart (remove_item_from_order o p s).1
    unfolding remove_item_from_order remove_item remove_item_guard
    remove_item_from_order-Apart o p = ground arith

    store_location-Apart :
        (i : ℕ) (name city address : Option Text) → Apart (store_location i name city address s).1
    unfolding store_location
    store_location-Apart i name city address = ground arith

    update_place-Apart :
        (i : ℕ) (name city address : Option Text) → Apart (update_place i name city address s).1
    unfolding update_place
    update_place-Apart i name none none = store_location-Apart i name none none
    update_place-Apart i name (some city) none =
        ground (arith, store_location-Apart i name (some (strip city)) none)
    update_place-Apart i name none (some address) =
        ground (arith, store_location-Apart i name none (some (strip address)))
    update_place-Apart i name (some city) (some address) =
        ground (arith, store_location-Apart i name (some (strip city)) (some (strip address)))

    pub update_location-Apart :
        (i : ℕ) (name city address : Option Text) → Apart (update_location i name city address s).1
    unfolding update_location
    update_location-Apart i none city address =
        ground (arith, update_place-Apart i none city address)
    update_location-Apart i (some name) city address =
        ground (arith, update_place-Apart i (some (strip name)) city address)

    record_change-Apart :
        (kind : StockMovementType) (quantity previous : ℤ) (user : ℕ) (st : InventoryStock)
        → Apart (record_change kind quantity previous user st s).1
    unfolding record_change sync_low_stock create_movement add_movement flush_low_stock_alerts
    record_change-Apart kind quantity previous user st = ground arith

    pub add_stock-Apart : (p l : ℕ) (q : ℤ) (user : ℕ) → Apart (add_stock p l q user s).1
    unfolding add_stock
    add_stock-Apart p l q user = elim (Bool-cases (leb_ℤ q (pos 0))) [
      | inl bad ↦ rw bad h
      | inr good ↦ rw good (elim (Option-cases (stock_at p l s.db)) [
        | inl e ↦ rw e h
        | inr (st, e) ↦ rw e (record_change-Apart StockMovementType.inward q _ user _)
      ])
    ]

    pub remove_stock-Apart : (p l : ℕ) (q : ℤ) (user : ℕ) → Apart (remove_stock p l q user s).1
    unfolding remove_stock
    remove_stock-Apart p l q user = elim (Bool-cases (leb_ℤ q (pos 0))) [
      | inl bad ↦ rw bad h
      | inr good ↦ rw good (elim (Option-cases (stock_at p l s.db)) [
        | inl e ↦ rw e h
        | inr (st, e) ↦ rw e (elim (Bool-cases (ltb_ℤ st.quantity q)) [
          | inl short ↦ rw short h
          | inr enough ↦ rw enough (record_change-Apart StockMovementType.outward q _ user _)
        ])
      ])
    ]

    pub adjust_stock-Apart : (p l : ℕ) (q : ℤ) (user : ℕ) → Apart (adjust_stock p l q user s).1
    unfolding adjust_stock
    adjust_stock-Apart p l q user = elim (Option-cases (stock_at p l s.db)) [
      | inl e ↦ rw e h
      | inr (st, e) ↦ rw e (elim (Bool-cases (ltb_ℤ q (pos 0))) [
        | inl bad ↦ rw bad h
        | inr good ↦ rw good (record_change-Apart StockMovementType.adjust _ _ user _)
      ])
    ]

    pub initialize_stock-Apart : (l p : ℕ) (q r : ℤ) → Apart (initialize_stock l p q r s).1
    unfolding initialize_stock insert_stock announce sync_low_stock flush_low_stock_alerts
    initialize_stock-Apart l p q r = ground arith

    pub reserve_for_item-Apart : (item p l : ℕ) (q : ℤ) → Apart (reserve_for_item item p l q s).1
    unfolding reserve_for_item hold sync_low_stock create_reservation
    reserve_for_item-Apart item p l q = ground arith

    pub release_for_item-Apart : (i : ℕ) → Apart (release_for_item i s).1
    unfolding release_for_item open_reservation release sync_low_stock
    release_for_item-Apart i = ground arith

    pub fulfill_for_item-Apart : (i user : ℕ) → Apart (fulfill_for_item i user s).1
    unfolding fulfill_for_item open_reservation fulfill sync_low_stock add_movement
    fulfill_for_item-Apart i user = ground arith
