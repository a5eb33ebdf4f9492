-- ===== src/Orders/Transaction.antt =====
-- The order calls of app/orders/service.py as transactions, for a property of the database that does
-- not look at the orders.
use operations_management.Base.{
  ℕ, refl, inl, inr, Option, none, some, List, [], ◌∷◌, arith, ◌||◌, Bool-cases, Option-cases,
}
use operations_management.Int.{ℤ}
use operations_management.Table.{find}
use operations_management.Errors.{Result, ok, err}
use operations_management.Session.{Session, continue}
use operations_management.Session.Outcome.{Returns, Returns-bind}
use operations_management.Shop.{
  Shop, Notices, Action, Staged, Order, OrderItem, StockReservation, order_key,
}
use operations_management.Shop.Transaction.{Staged-bind, Transacts}
use operations_management.Stock.{flush_low_stock_alerts}
use operations_management.Reservations.{reserve_for_item, release_for_item, fulfill_for_item}
use operations_management.Reservations.Consistency.{
  reserve_for_item-Staged, release_for_item-Staged, fulfill_for_item-Staged,
}
use operations_management.Orders.Repository.{
  is_created, is_confirmed, items_of, reservation_of, cancel, complete,
}
use operations_management.Orders.Service.{
  reserve_items, confirm_order, settle_item, settle_items, cancel_order, complete_order,
  finish_confirm, finish_cancel, finish_complete,
}

module _ (l : ℕ) where
  pub reserve_items-Staged :
      (xs : List OrderItem) (s : Session Shop Notices) → Staged s (reserve_items l xs s)
  unfolding reserve_items
  reserve_items-Staged [] s = (refl, refl)
  reserve_items-Staged (x ∷ xs) s =
      Staged-bind (λ _. reserve_items l xs) s (reserve_for_item x.id x.product_id l x.quantity s)
        (reserve_for_item-Staged x.id x.product_id l x.quantity s) (λ _. reserve_items-Staged xs)

-- The loop over the reservations of an order's items, for a call that stages its work.
module _ (settle : ℕ → Action StockReservation)
    (staged : (i : ℕ) (s : Session Shop Notices) → Staged s (settle i s)) where
  settle_item-Staged :
      (r : Option StockReservation) (s : Session Shop Notices) → Staged s (settle_item settle r s)
  settle_item-Staged none s = (refl, refl)
  settle_item-Staged (some r) s = ground (arith, staged r.id s)

  pub settle_items-Staged :
      (xs : List OrderItem) (s : Session Shop Notices) → Staged s (settle_items settle xs s)
  unfolding settle_items
  settle_items-Staged [] s = (refl, refl)
  settle_items-Staged (x ∷ xs) s =
      Staged-bind (λ _. settle_items settle xs) s (settle_item settle (reservation_of x.id s.db) s)
        (settle_item-Staged (reservation_of x.id s.db) s) (λ _. settle_items-Staged xs)

module _ (P : Shop → Type 0)
    (but_orders : (d : Shop) (orders : List Order) → P d → P (record d { orders = orders })) where
  -- The ends of the calls, by how their loops ended.
  finish_confirm-Transacts :
      (o : Order) (s : Session Shop Notices) (x : Result (Unit {0}) × Session Shop Notices)
      → Staged s x
      → Returns P x
      → Transacts P s (continue x.0 (λ _. finish_confirm o) x.1)
  unfolding finish_confirm flush_low_stock_alerts
  finish_confirm-Transacts o s (ok _, s') staged h = (but_orders s'.db _ h, refl)
  finish_confirm-Transacts o s (err e, s') staged h = staged

  finish_cancel-Transacts :
      (o : Order) (s : Session Shop Notices) (x : Result (Unit {0}) × Session Shop Notices)
      → Staged s x
      → Returns P x
      → Transacts P s (continue x.0 (λ _. finish_cancel o) x.1)
  unfolding finish_cancel cancel
  finish_cancel-Transacts o s (ok _, s') staged h =
      elim (Bool-cases (is_created o.status || is_confirmed o.status)) [
        | inl open_order ↦ rw open_order (but_orders s'.db _ h, refl)
        | inr closed ↦ rw closed staged
      ]
  finish_cancel-Transacts o s (err e, s') staged h = staged

  pub finish_complete-Transacts :
      (o : Order) (s : Session Shop Notices) (x : Result (Unit {0}) × Session Shop Notices)
      → Staged s x
      → Returns P x
      → Transacts P s (continue x.0 (λ _. finish_complete o) x.1)
  unfolding finish_complete complete flush_low_stock_alerts
  finish_complete-Transacts o s (ok _, s') staged h = elim (Bool-cases (is_confirmed o.status)) [
    | inl open_order ↦ rw open_order (but_orders s'.db _ h, refl)
    | inr closed ↦ rw closed staged
  ]
  finish_complete-Transacts o s (err e, s') staged h = staged

  module _
      (reserves : (item p l : ℕ) (q : ℤ) (s : Session Shop Notices)
        → P s.db
        → Returns P (reserve_for_item item p l q s)) where
    reserve_items-Returns :
        (l : ℕ) (xs : List OrderItem) (s : Session Shop Notices)
        → P s.db
        → Returns P (reserve_items l xs s)
    unfolding reserve_items
    reserve_items-Returns l [] s h = h
    reserve_items-Returns l (x ∷ xs) s h =
        Returns-bind P (λ _. reserve_items l xs) (reserve_for_item x.id x.product_id l x.quantity s)
          (reserves x.id x.product_id l x.quantity s h) (λ _. reserve_items-Returns l xs)

    pub confirming-Transacts :
        (i l : ℕ) (s : Session Shop Notices) → P s.db → Transacts P s (confirm_order i l s)
    unfolding confirm_order
    confirming-Transacts i l s h = elim (Option-cases (find i s.db.orders)) [
      | inl e ↦ ground arith
      | inr (o, e) ↦ ground (
        arith,
        finish_confirm-Transacts o s (reserve_items l (items_of i s.db) s)
            (reserve_items-Staged l (items_of i s.db) s)
            (reserve_items-Returns l (items_of i s.db) s h),
      )
    ]

  module _ (settle : ℕ → Action StockReservation)
      (keeps : (i : ℕ) (s : Session Shop Notices) → P s.db → Returns P (settle i s)) where
    settle_item-Returns :
        (r : Option StockReservation) (s : Session Shop Notices)
        → P s.db
        → Returns P (settle_item settle r s)
    settle_item-Returns none s h = h
    settle_item-Returns (some r) s h =
        Returns-bind P _ (settle r.id s) (keeps r.id s h) (λ _ _ k. k)

    settle_items-Returns :
        (xs : List OrderItem) (s : Session Shop Notices)
        → P s.db
        → Returns P (settle_items settle xs s)
    unfolding settle_items
    settle_items-Returns [] s h = h
    settle_items-Returns (x ∷ xs) s h =
        Returns-bind P (λ _. settle_items settle xs)
          (settle_item settle (reservation_of x.id s.db) s)
          (settle_item-Returns (reservation_of x.id s.db) s h) (λ _. settle_items-Returns xs)

  pub cancelling-Transacts :
      ((i : ℕ) (s : Session Shop Notices) → P s.db → Returns P (release_for_item i s))
      → (i : ℕ) (s : Session Shop Notices) → P s.db
      → Transacts P s (cancel_order i s)
  unfolding cancel_order
  cancelling-Transacts keeps i s h = elim (Option-cases (find i s.db.orders)) [
    | inl e ↦ ground arith
    | inr (o, e) ↦ ground (
      arith,
      finish_cancel-Transacts o s (settle_items release_for_item (items_of i s.db) s)
          (settle_items-Staged release_for_item release_for_item-Staged (items_of i s.db) s)
          (settle_items-Returns release_for_item keeps (items_of i s.db) s h),
    )
  ]

  pub completing-Transacts :
      (user : ℕ)
      → ((i : ℕ) (s : Session Shop Notices) → P s.db → Returns P (fulfill_for_item i user s))
      → (i : ℕ) (s : Session Shop Notices) → P s.db
      → Transacts P s (complete_order i user s)
  unfolding complete_order
  completing-Transacts user keeps i s h =
      let fulfil = λ (j : ℕ). fulfill_for_item j user in
      elim (Option-cases (find i s.db.orders)) [
        | inl e ↦ ground arith
        | inr (o, e) ↦ ground (
          arith,
          finish_complete-Transacts o s (settle_items fulfil (items_of i s.db) s)
              (settle_items-Staged fulfil (λ j s'. fulfill_for_item-Staged j s' user)
                (items_of i s.db) s)
              (settle_items-Returns fulfil keeps (items_of i s.db) s h),
        )
      ]
