-- ===== src/Requests/Soundness.antt =====
-- The durable tables between the requests of app/inventory/router.py and app/orders/router.py.
use operations_management.Base.{ℕ, ◌≡◌, refl, List, [], ◌∷◌, All}
use operations_management.Errors.{Result, ok, err}
use operations_management.Session.{Session, get_session, close_session, continue, pure}
use operations_management.Session.Outcome.{Safe}
use operations_management.Shop.{Shop, Notices, location_key}
use operations_management.Shop.Invariant.{IsConsistent}
use operations_management.Shop.Transaction.{Transacts}
use operations_management.Stock.Sync.{IsMarked}
use operations_management.Stock.{add_stock, remove_stock, adjust_stock, initialize_stock}
use operations_management.Orders.Service.{
  add_item_to_order, remove_item_from_order, confirm_order, cancel_order, complete_order,
}
use operations_management.Stock.Alerts.{
  Announces, add_stock-Announces, remove_stock-Announces, adjust_stock-Announces,
  initialize_stock-Announces,
}
use operations_management.Stock.Consistency.{
  add_stock-Safe, remove_stock-Safe, adjust_stock-Safe, initialize_stock-Safe,
}
use operations_management.Orders.Consistency.{
  confirm_order-Transacts, cancel_order-Transacts, complete_order-Transacts,
}
use operations_management.Orders.Alerts.{
  confirm_order-Announces, cancel_order-Announces, complete_order-Announces,
}
use operations_management.Catalog.Products.{create_product, update_product, set_active}
use operations_management.Catalog.Categories.{
  create_category, delete_category, add_product_to_category, remove_product_from_category,
}
use operations_management.Catalog.Locations.{create_location, update_location, delete_location}
use operations_management.Orders.Repository.{create_order}
use operations_management.Requests.Elsewhere.{
  Keeps, create_product-Keeps, update_product-Keeps, set_active-Keeps, create_category-Keeps,
  delete_category-Keeps, add_product_to_category-Keeps, remove_product_from_category-Keeps,
  create_location-Keeps, update_location-Keeps, delete_location-Keeps, create_rounds-Keeps,
  add_item_to_order-Keeps, remove_item_from_order-Keeps,
}
use operations_management.Requests.{serve, Request, handle, begin, request, serve}

-- What holds of the stock tables between two requests.
abbrev pub IsSound : Shop → Type 0
IsSound d = IsConsistent d × All IsMarked d.stocks

-- What a call leaves for `get_session` to commit or to roll back to.
abbrev Ends : {A : Type 0} → Result A × Session Shop Notices → Type 0
Ends (ok a, s') = IsSound s'.db
Ends (err e, s') = IsSound s'.committed

module _ {A : Type 0} where
  done-Ends :
      (x : Result A × Session Shop Notices) → Ends x → Ends (continue x.0 (λ _. pure tt) x.1)
  done-Ends (ok a, s) h = h
  done-Ends (err e, s) h = h

  -- The stock calls keep the tables consistent on both sides, and announce.
  Safe-Ends :
      (s : Session Shop Notices) (x : Result A × Session Shop Notices)
      → Safe IsConsistent x.1
      → Announces s x
      → Ends x
  Safe-Ends s (ok a, s') h n = (h.0, n.1)
  Safe-Ends s (err e, s') h n = (h.1, n.1)

  -- The order calls are transactions that announce.
  Transacts-Ends :
      (s : Session Shop Notices) (x : Result A × Session Shop Notices)
      → IsConsistent s.committed
      → Transacts IsConsistent s x
      → Announces s x
      → Ends x
  Transacts-Ends s (ok a, s') h t n = (t.0, n.1)
  Transacts-Ends s (err e, s') h t n = (rw t.0 h, n.1)

close-Ends :
    (x : Result (Unit {0}) × Session Shop Notices) → Ends x → IsSound (close_session x).1.committed
close-Ends (ok a, s) h = h
close-Ends (err e, s) h = h

-- A session at the beginning of a request.
record Begins (s : Session Shop Notices) : Type 0 where
  sound : IsSound s.committed
  same : s.db ≡ s.committed
  quiet : s.memory.pending ≡ []

module _ (s : Session Shop Notices) (b : Begins s) where
  db-IsSound : IsSound s.db
  db-IsSound = rw b.same b.sound

  -- The stock calls.
  stock-Ends :
      {A : Type 0} (x : Result A × Session Shop Notices)
      → Safe IsConsistent x.1
      → Announces s x
      → Ends (continue x.0 (λ _. pure tt) x.1)
  stock-Ends x h n = done-Ends x (Safe-Ends s x h n)

  order-Ends :
      {A : Type 0} (x : Result A × Session Shop Notices)
      → Transacts IsConsistent s x
      → Announces s x
      → Ends (continue x.0 (λ _. pure tt) x.1)
  order-Ends x t n = done-Ends x (Transacts-Ends s x b.sound.0 t n)

  -- The calls that leave the stock tables alone.
  kept : Keeps s.committed.stocks s.committed.reservations s
  kept = rw b.same (refl, refl, refl, refl)

  Keeps-Ends :
      {A : Type 0} (x : Result A × Session Shop Notices)
      → Keeps s.committed.stocks s.committed.reservations x.1
      → Ends x
  Keeps-Ends (ok a, s') k = rw (k.0, k.1) b.sound
  Keeps-Ends (err e, s') k = rw (k.2, k.3) b.sound

  elsewhere-Ends :
      {A : Type 0} (x : Result A × Session Shop Notices)
      → Keeps s.committed.stocks s.committed.reservations x.1
      → Ends (continue x.0 (λ _. pure tt) x.1)
  elsewhere-Ends x k = done-Ends x (Keeps-Ends x k)

  create_order-Keeps :
      (user : ℕ) (random : ℕ → ℕ → ℕ)
      → Keeps s.committed.stocks s.committed.reservations (create_order user random s).1
  unfolding create_order
  create_order-Keeps user random = create_rounds-Keeps _ _ 5 user random s kept

  handle-Ends : (q : Request) → Ends (handle q s)
  unfolding handle
  handle-Ends (Request.post_stock l p q r) =
      let (c, m) = db-IsSound in
      stock-Ends (initialize_stock l p q r s) (initialize_stock-Safe l p q r s (c, b.sound.0))
        (initialize_stock-Announces l p q r s b.quiet m b.sound.1)
  handle-Ends (Request.post_in p l q user) =
      let (c, m) = db-IsSound in
      stock-Ends (add_stock p l q user s) (add_stock-Safe p l q user s (c, b.sound.0))
        (add_stock-Announces s b.quiet m b.sound.1 p l q user c.stocks_keyed)
  handle-Ends (Request.post_out p l q user) =
      let (c, m) = db-IsSound in
      stock-Ends (remove_stock p l q user s) (remove_stock-Safe p l q user s (c, b.sound.0))
        (remove_stock-Announces s b.quiet m b.sound.1 p l q user c.stocks_keyed)
  handle-Ends (Request.post_adjust p l q user) =
      let (c, m) = db-IsSound in
      stock-Ends (adjust_stock p l q user s) (adjust_stock-Safe p l q user s (c, b.sound.0))
        (adjust_stock-Announces s b.quiet m b.sound.1 p l q user c.stocks_keyed)
  handle-Ends (Request.patch_confirm o l) =
      let (c, m) = db-IsSound in
      order-Ends (confirm_order o l s) (confirm_order-Transacts l o s c)
        (confirm_order-Announces o s c m b.sound.1 b.quiet l)
  handle-Ends (Request.patch_cancel o) =
      let (c, m) = db-IsSound in
      order-Ends (cancel_order o s) (cancel_order-Transacts o s c)
        (cancel_order-Announces o s c m b.sound.1 b.quiet)
  handle-Ends (Request.patch_complete o user) =
      let (c, m) = db-IsSound in
      order-Ends (complete_order o user s) (complete_order-Transacts o s c user)
        (complete_order-Announces o s c m b.sound.1 b.quiet user)
  handle-Ends (Request.post_product name sku c) =
      elsewhere-Ends (create_product name sku c s) (create_product-Keeps _ _ s kept name sku c)
  handle-Ends (Request.patch_product i name sku) =
      elsewhere-Ends (update_product i name sku s) (update_product-Keeps _ _ s kept i name sku)
  handle-Ends (Request.put_active active i) =
      elsewhere-Ends (set_active active i s) (set_active-Keeps _ _ s kept active i)
  handle-Ends (Request.post_category name description) =
      elsewhere-Ends (create_category name description s)
        (create_category-Keeps _ _ s kept name description)
  handle-Ends (Request.remove_category i) =
      Keeps-Ends (delete_category i s) (delete_category-Keeps _ _ s kept i)
  handle-Ends (Request.post_product_category ignored p c) =
      elsewhere-Ends (add_product_to_category ignored p c s)
        (add_product_to_category-Keeps _ _ s kept ignored p c)
  handle-Ends (Request.remove_product_category p c) =
      elsewhere-Ends (remove_product_from_category p c s)
        (remove_product_from_category-Keeps _ _ s kept p c)
  handle-Ends (Request.post_location name city address) =
      elsewhere-Ends (create_location name city address s)
        (create_location-Keeps _ _ s kept name city address)
  handle-Ends (Request.patch_location i name city address) =
      elsewhere-Ends (update_location i name city address s)
        (update_location-Keeps _ _ s kept i name city address)
  handle-Ends (Request.remove_location i) =
      Keeps-Ends (delete_location i s) (delete_location-Keeps _ _ s kept i)
  handle-Ends (Request.post_order user random) =
      elsewhere-Ends (create_order user random s) (create_order-Keeps user random)
  handle-Ends (Request.post_item o p q) =
      elsewhere-Ends (add_item_to_order o p q s) (add_item_to_order-Keeps _ _ s kept o p q)
  handle-Ends (Request.remove_item o p) =
      elsewhere-Ends (remove_item_from_order o p s) (remove_item_from_order-Keeps _ _ s kept o p)

begin-Begins : (s : Session Shop Notices) → IsSound s.committed → Begins (begin s)
begin-Begins s h = record { sound = h; same = refl; quiet = refl }

request-IsSound :
    (q : Request) (s : Session Shop Notices) → IsSound s.committed → IsSound (request q s).committed
unfolding request get_session
request-IsSound q s h = close-Ends (handle q (begin s)) (handle-Ends (begin s) (begin-Begins s h) q)

-- When the durable tables are consistent and their low-stock marks right, they are so after any list of
-- requests, whichever of them return and whichever raise.
pub serve-IsSound :
    (qs : List Request) (s : Session Shop Notices)
    → IsSound s.committed
    → IsSound (serve qs s).committed
unfolding serve
serve-IsSound [] s h = h
serve-IsSound (q ∷ qs) s h = serve-IsSound qs (request q s) (request-IsSound q s h)
