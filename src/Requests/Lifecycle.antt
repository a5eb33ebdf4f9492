-- ===== src/Requests/Lifecycle.antt =====
-- The orders between the requests of app/inventory/router.py and app/orders/router.py.
use operations_management.Base.{ℕ, ◌≡◌, refl, some, List, [], ◌∷◌}
use operations_management.Table.{find}
use operations_management.Errors.{Result, ok, err}
use operations_management.Session.{Session, get_session, close_session, continue, pure}
use operations_management.Session.Outcome.{Safe}
use operations_management.Shop.{Shop, Notices, Order, order_key}
use operations_management.Stock.{add_stock, remove_stock, adjust_stock, initialize_stock}
use operations_management.Catalog.Products.{create_product, update_product, set_active}
use operations_management.Catalog.Categories.{
  create_category, delete_category, add_product_to_category, remove_product_from_category,
}
use operations_management.Catalog.Locations.{create_location, update_location, delete_location}
use operations_management.Orders.Repository.{create_order}
use operations_management.Orders.Service.{
  add_item_to_order, remove_item_from_order, confirm_order, cancel_order, complete_order,
}
use operations_management.Orders.Untouched.{
  Apart, create_product-Apart, update_product-Apart, set_active-Apart, create_category-Apart,
  delete_category-Apart, add_product_to_category-Apart, remove_product_from_category-Apart,
  create_location-Apart, update_location-Apart, delete_location-Apart, initialize_stock-Apart,
  add_stock-Apart, remove_stock-Apart, adjust_stock-Apart, add_item_to_order-Apart,
  remove_item_from_order-Apart,
}
use operations_management.Orders.Lifecycle.{Lives, Reaches, Apart-Lives}
use operations_management.Orders.Transitions.{
  confirm_order-Lives, cancel_order-Lives, complete_order-Lives, create_rounds-Lives,
}
use operations_management.Requests.{Request, handle, begin, request, serve}

module _ (o : Order) where
  done-Lives :
      {A : Type 0} (x : Result A × Session Shop Notices)
      → Safe (Lives o) x.1
      → Safe (Lives o) (continue x.0 (λ _. pure tt) x.1).1
  done-Lives (ok a, s) h = h
  done-Lives (err e, s) h = h

  module _ (s : Session Shop Notices) (same : Apart s.db.orders s) (lives : Safe (Lives o) s) where
    aside-Lives :
        {A : Type 0} (x : Result A × Session Shop Notices)
        → Apart s.db.orders x.1
        → Safe (Lives o) x.1
    aside-Lives x a = Apart-Lives o s x.1 s.db.orders same a lives

    create_order-Lives :
        (user : ℕ) (random : ℕ → ℕ → ℕ) → Safe (Lives o) (create_order user random s).1
    unfolding create_order
    create_order-Lives user random = create_rounds-Lives o 5 user random s lives

    handle-Lives : (q : Request) → Safe (Lives o) (handle q s).1
    unfolding handle
    handle-Lives (Request.post_product name sku c) =
        done-Lives (create_product name sku c s)
          (aside-Lives (create_product name sku c s) (create_product-Apart _ s same name sku c))
    handle-Lives (Request.patch_product i name sku) =
        done-Lives (update_product i name sku s)
          (aside-Lives (update_product i name sku s) (update_product-Apart _ s same i name sku))
    handle-Lives (Request.put_active active i) =
        done-Lives (set_active active i s)
          (aside-Lives (set_active active i s) (set_active-Apart _ s same active i))
    handle-Lives (Request.post_category name description) =
        done-Lives (create_category name description s) (
          aside-Lives (create_category name description s)
            (create_category-Apart _ s same name description))
    handle-Lives (Request.remove_category i) =
        aside-Lives (delete_category i s) (delete_category-Apart _ s same i)
    handle-Lives (Request.post_product_category ignored p c) =
        done-Lives (add_product_to_category ignored p c s) (
          aside-Lives (add_product_to_category ignored p c s)
            (add_product_to_category-Apart _ s same ignored p c))
    handle-Lives (Request.remove_product_category p c) =
        done-Lives (remove_product_from_category p c s) (
          aside-Lives (remove_product_from_category p c s)
            (remove_product_from_category-Apart _ s same p c))
    handle-Lives (Request.post_location name city address) =
        done-Lives (create_location name city address s) (
          aside-Lives (create_location name city address s)
            (create_location-Apart _ s same name city address))
    handle-Lives (Request.patch_location i name city address) =
        done-Lives (update_location i name city address s) (
          aside-Lives (update_location i name city address s)
            (update_location-Apart _ s same i name city address))
    handle-Lives (Request.remove_location i) =
        aside-Lives (delete_location i s) (delete_location-Apart _ s same i)
    handle-Lives (Request.post_stock l p q r) =
        done-Lives (initialize_stock l p q r s)
          (aside-Lives (initialize_stock l p q r s) (initialize_stock-Apart _ s same l p q r))
    handle-Lives (Request.post_in p l q user) =
        done-Lives (add_stock p l q user s)
          (aside-Lives (add_stock p l q user s) (add_stock-Apart _ s same p l q user))
    handle-Lives (Request.post_out p l q user) =
        done-Lives (remove_stock p l q user s)
          (aside-Lives (remove_stock p l q user s) (remove_stock-Apart _ s same p l q user))
    handle-Lives (Request.post_adjust p l q user) =
        done-Lives (adjust_stock p l q user s)
          (aside-Lives (adjust_stock p l q user s) (adjust_stock-Apart _ s same p l q user))
    handle-Lives (Request.post_item i p q) =
        done-Lives (add_item_to_order i p q s)
          (aside-Lives (add_item_to_order i p q s) (add_item_to_order-Apart _ s same i p q))
    handle-Lives (Request.remove_item i p) =
        done-Lives (remove_item_from_order i p s)
          (aside-Lives (remove_item_from_order i p s) (remove_item_from_order-Apart _ s same i p))
    handle-Lives (Request.post_order user random) =
        done-Lives (create_order user random s) (create_order-Lives user random)
    handle-Lives (Request.patch_confirm i l) =
        done-Lives (confirm_order i l s) (confirm_order-Lives o s same lives i l)
    handle-Lives (Request.patch_cancel i) =
        done-Lives (cancel_order i s) (cancel_order-Lives o s same lives i)
    handle-Lives (Request.patch_complete i user) =
        done-Lives (complete_order i user s) (complete_order-Lives o s same lives i user)

  close-Lives :
      (x : Result (Unit {0}) × Session Shop Notices)
      → Safe (Lives o) x.1
      → Lives o (close_session x).1.committed
  close-Lives (ok a, s) h = h.0
  close-Lives (err e, s) h = h.1

  request-Lives :
      (q : Request) (s : Session Shop Notices)
      → Lives o s.committed
      → Lives o (request q s).committed
  unfolding request get_session
  request-Lives q s h =
      close-Lives (handle q (begin s)) (handle-Lives (begin s) (refl, refl) (h, h) q)

  still-Lives :
      (qs : List Request) (s : Session Shop Notices)
      → Lives o s.committed
      → Lives o (serve qs s).committed
  unfolding serve
  still-Lives [] s h = h
  still-Lives (q ∷ qs) s h = still-Lives qs (request q s) (request-Lives q s h)

-- An order that is stored is still there after any list of requests, whichever of them return and
-- whichever raise, with the same code and the same user, and its status has moved along the edges
-- from created to confirmed and from confirmed to cancelled or completed alone.
pub serve-Lives :
    (o : Order) (qs : List Request) (s : Session Shop Notices)
    → find o.id s.committed.orders ≡ some o
    → Lives o (serve qs s).committed
serve-Lives o qs s e = still-Lives o qs s (record {
  now = o;
  found = e;
  same_code = refl;
  same_user = refl;
  same_time = refl;
  reached = Reaches.stays o.status;
})
