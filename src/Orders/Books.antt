-- ===== src/Orders/Books.antt =====
-- The order calls of app/orders/service.py and the books of the stock.
use operations_management.Base.{ℕ, refl, inl, inr, arith, Option-cases}
use operations_management.Table.{find}
use operations_management.Session.{Session}
use operations_management.Shop.{Shop, Notices, order_key}
use operations_management.Reservations.{fulfill_for_item}
use operations_management.Reservations.Consistency.{fulfill_for_item-Staged}
use operations_management.Reservations.Closed.{AllClosed}
use operations_management.Reservations.Shipping.{Kept, ship_items}
use operations_management.Orders.Repository.{items_of}
use operations_management.Shop.Transaction.{Transacts}
use operations_management.Reservations.Books.{Books, reserve_for_item-Books, release_for_item-Books}
use operations_management.Orders.Service.{settle_items, confirm_order, cancel_order, complete_order}
use operations_management.Orders.Transaction.{
  confirming-Transacts, cancelling-Transacts, finish_complete-Transacts, settle_items-Staged,
}

but_orders : (d0 d : Shop) (orders : _) → Books d0 d → Books d0 (record d { orders = orders })
but_orders d0 d orders h = record {
  consistent = h.consistent;
  covered = h.covered;
  openings = h.openings;
}

module _ (d0 : Shop) (i : ℕ) (s : Session Shop Notices) (h : Books d0 s.db) where
  -- On consistent tables, when no stock row has more reserved than it holds and the movements of each
  -- row account for its quantity since `d0`, `confirm_order` never oversells: it commits tables in
  -- which all of this still holds, or it raises with nothing committed and no alert sent.
  pub confirm_order-Books : (l : ℕ) → Transacts (Books d0) s (confirm_order i l s)
  confirm_order-Books l =
      confirming-Transacts (Books d0) (but_orders d0) (reserve_for_item-Books d0) i l s h

  -- On consistent tables, when no stock row has more reserved than it holds and the movements of each
  -- row account for its quantity since `d0`, `cancel_order` commits tables in which all of
  -- this still holds, or it raises with nothing committed and no alert sent.
  pub cancel_order-Books : Transacts (Books d0) s (cancel_order i s)
  cancel_order-Books =
      cancelling-Transacts (Books d0) (but_orders d0) (release_for_item-Books d0) i s h

  -- What completing leaves: good books since `d0`, every row with as much available as before, and no
  -- item of the order whose reservation is open.
  abbrev pub Ships : Shop → Type 0
  Ships d = Kept d0 s.db d × AllClosed (items_of i s.db) d

  -- On consistent tables, when no stock row has more reserved than it holds and the movements of each
  -- row account for its quantity since `d0`, `complete_order` commits tables in which all of this
  -- still holds, no item of the order has a reservation that is still open, and every row has as much
  -- available (its quantity less what is reserved) as before, or it raises with nothing committed and
  -- no alert sent.
  pub complete_order-Books : (user : ℕ) → Transacts Ships s (complete_order i user s)
  unfolding complete_order
  complete_order-Books user =
      let fulfil = λ (j : ℕ). fulfill_for_item j user in
      elim (Option-cases (find i s.db.orders)) [
        | inl e ↦ ground arith
        | inr (o, e) ↦ ground (
          arith,
          finish_complete-Transacts Ships
              (λ d orders k. ((but_orders d0 d orders k.0.0, k.0.1), k.1)) o s
              (settle_items fulfil (items_of i s.db) s)
              (settle_items-Staged fulfil (λ j s'. fulfill_for_item-Staged j s' user)
                (items_of i s.db) s)
              (ship_items d0 s.db user (items_of i s.db) s (h, λ j. refl)),
        )
      ]
