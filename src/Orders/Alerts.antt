-- ===== src/Orders/Alerts.antt =====
-- The low-stock alerts of the order calls of app/orders/service.py.
use mathlib.Core.List.{append-nil}
use operations_management.Base.{
  ℕ, ◌≡◌, refl, sym, ap, inl, inr, Option, none, some, List, [], ◌∷◌, ◌++◌, arith, Option-cases,
  Bool-cases, All,
}
use operations_management.Table.{find}
use operations_management.Errors.{Result, ok, err}
use operations_management.Session.{Session, continue}
use operations_management.Session.Outcome.{Leaves, Leaves-bind}
use operations_management.Shop.{
  Shop, Notices, Action, Staged, Order, OrderItem, StockReservation, order_key,
}
use operations_management.Shop.Invariant.{IsConsistent}
use operations_management.Stock.{flush_low_stock_alerts}
use operations_management.Stock.Sync.{IsMarked}
use operations_management.Stock.Alerts.{Announces}
use operations_management.Reservations.{reserve_for_item, release_for_item, fulfill_for_item}
use operations_management.Reservations.Consistency.{
  release_for_item-Staged, fulfill_for_item-Staged,
}
use operations_management.Reservations.Alerts.{
  IsAlerting, reserve_for_item-IsAlerting, IsQuiet, release_for_item-IsQuiet,
  fulfill_for_item-IsQuiet,
}
use operations_management.Orders.Repository.{
  is_confirmed, items_of, reservation_of, cancel, complete,
}
use operations_management.Orders.Service.{
  reserve_items, confirm_order, settle_item, settle_items, cancel_order, complete_order,
  finish_confirm, finish_cancel, finish_complete,
}
use operations_management.Orders.Transaction.{reserve_items-Staged, settle_items-Staged}

module _ (l : ℕ) where
  reserve_items-IsAlerting :
      (xs : List OrderItem) (s : Session Shop Notices)
      → IsAlerting s
      → Leaves IsAlerting (reserve_items l xs s)
  unfolding reserve_items
  reserve_items-IsAlerting [] s h = h
  reserve_items-IsAlerting (x ∷ xs) s h =
      Leaves-bind IsAlerting (λ _. reserve_items l xs)
        (reserve_for_item x.id x.product_id l x.quantity s)
        (reserve_for_item-IsAlerting x.id x.product_id l x.quantity s h)
        (λ _. reserve_items-IsAlerting xs)

finish_confirm-Announces :
    (o : Order) (s : Session Shop Notices) (x : Result (Unit {0}) × Session Shop Notices)
    → All IsMarked s.committed.stocks
    → Staged s x
    → Leaves IsAlerting x
    → Announces s (continue x.0 (λ _. finish_confirm o) x.1)
unfolding finish_confirm flush_low_stock_alerts
finish_confirm-Announces o s (ok _, s') durable staged h = (
  refl,
  h.marks,
  (s'.memory.pending, ap (λ (t : List ℕ). t ++ s'.memory.pending) staged.1, h.queued),
)
finish_confirm-Announces o s (err e, s') durable staged h = (staged.1, rw staged.0 durable)

-- What a quiet loop leaves to announce.
nothing_new :
    (s s' : Session Shop Notices)
    → s.memory.pending ≡ []
    → IsQuiet s s'
    → (s'.memory.pending ≡ [])
      × All IsMarked s'.db.stocks
      × ((new : List ℕ) × (s'.memory.sent ≡ s.memory.sent ++ new) × (new ≡ []))
nothing_new s s' quiet h =
    (rw h.same quiet, h.marks, ([], rw h.same (sym (append-nil s.memory.sent)), refl))

-- What a quiet loop leaves is a database with right marks and nothing to send.
finish_cancel-Announces :
    (o : Order) (s : Session Shop Notices) (x : Result (Unit {0}) × Session Shop Notices)
    → s.memory.pending ≡ []
    → All IsMarked s.committed.stocks
    → Staged s x
    → Leaves (IsQuiet s) x
    → Announces s (continue x.0 (λ _. finish_cancel o) x.1)
unfolding finish_cancel cancel
finish_cancel-Announces o s (ok _, s') quiet durable staged h =
    ground (arith, append-nil s.memory.sent, nothing_new s s' quiet h)
finish_cancel-Announces o s (err e, s') quiet durable staged h = (staged.1, rw staged.0 durable)

finish_complete-Announces :
    (o : Order) (s : Session Shop Notices) (x : Result (Unit {0}) × Session Shop Notices)
    → s.memory.pending ≡ []
    → All IsMarked s.committed.stocks
    → Staged s x
    → Leaves (IsQuiet s) x
    → Announces s (continue x.0 (λ _. finish_complete o) x.1)
unfolding finish_complete complete flush_low_stock_alerts
finish_complete-Announces o s (ok _, s') quiet durable staged h =
    let empty : s'.memory.pending ≡ [] = rw h.same quiet in
    elim (Bool-cases (is_confirmed o.status)) [
      | inr bad ↦ rw bad (staged.1, rw staged.0 durable)
      | inl good ↦ rw good (
        refl,
        h.marks,
        (s'.memory.pending, ap (λ (t : List ℕ). t ++ s'.memory.pending) staged.1, rw empty tt),
      )
    ]
finish_complete-Announces o s (err e, s') quiet durable staged h = (staged.1, rw staged.0 durable)

-- The loop over the reservations of an order's items, for a call that queues nothing.
module _ (s0 : Session Shop Notices) (settle : ℕ → Action StockReservation)
    (quiet : (i : ℕ) (s : Session Shop Notices)
      → IsQuiet s0 s
      → Leaves (IsQuiet s0) (settle i s)) where
  settle_item-IsQuiet :
      (r : Option StockReservation) (s : Session Shop Notices)
      → IsQuiet s0 s
      → Leaves (IsQuiet s0) (settle_item settle r s)
  settle_item-IsQuiet none s h = h
  settle_item-IsQuiet (some r) s h =
      Leaves-bind (IsQuiet s0) _ (settle r.id s) (quiet r.id s h) (λ _ _ k. k)

  settle_items-IsQuiet :
      (xs : List OrderItem) (s : Session Shop Notices)
      → IsQuiet s0 s
      → Leaves (IsQuiet s0) (settle_items settle xs s)
  unfolding settle_items
  settle_items-IsQuiet [] s h = h
  settle_items-IsQuiet (x ∷ xs) s h =
      Leaves-bind (IsQuiet s0) (λ _. settle_items settle xs)
        (settle_item settle (reservation_of x.id s.db) s)
        (settle_item-IsQuiet (reservation_of x.id s.db) s h) (λ _. settle_items-IsQuiet xs)

module _ (i : ℕ) (s : Session Shop Notices) (h : IsConsistent s.db)
    (marks : All IsMarked s.db.stocks) (durable : All IsMarked s.committed.stocks)
    (quiet : s.memory.pending ≡ []) where
  -- From consistent tables with right marks and nothing pending, `confirm_order` returns with every mark
  -- right, nothing pending, and new alerts for durably marked rows alone; a raise sends none.
  pub confirm_order-Announces : (l : ℕ) → Announces s (confirm_order i l s)
  unfolding confirm_order
  confirm_order-Announces l =
      let start : IsAlerting s = record {
        keyed = h.stocks_keyed;
        marks = marks;
        queued = rw quiet tt;
      } in
      elim (Option-cases (find i s.db.orders)) [
        | inl e ↦ ground arith
        | inr (o, e) ↦ ground (
          arith,
          finish_confirm-Announces o s (reserve_items l (items_of i s.db) s) durable
              (reserve_items-Staged l (items_of i s.db) s)
              (reserve_items-IsAlerting l (items_of i s.db) s start),
        )
      ]

  start-IsQuiet : IsQuiet s s
  start-IsQuiet = record { consistent = h; marks = marks; same = refl }

  -- From consistent tables with right marks and nothing pending, `cancel_order`, which flushes no alerts,
  -- returns with every mark right and nothing pending, and what it sent names durably marked rows alone;
  -- a raise sends none.
  pub cancel_order-Announces : Announces s (cancel_order i s)
  unfolding cancel_order
  cancel_order-Announces = elim (Option-cases (find i s.db.orders)) [
    | inl e ↦ ground arith
    | inr (o, e) ↦ ground (
      arith,
      finish_cancel-Announces o s (settle_items release_for_item (items_of i s.db) s) quiet durable
          (settle_items-Staged release_for_item release_for_item-Staged (items_of i s.db) s)
          (settle_items-IsQuiet s release_for_item (release_for_item-IsQuiet s) (items_of i s.db) s
            start-IsQuiet),
    )
  ]

  -- From consistent tables with right marks and nothing pending, `complete_order` returns with every mark
  -- right, nothing pending, and new alerts for durably marked rows alone; a raise sends none.
  pub complete_order-Announces : (user : ℕ) → Announces s (complete_order i user s)
  unfolding complete_order
  complete_order-Announces user =
      let fulfil = λ (j : ℕ). fulfill_for_item j user in
      let staged = λ (j : ℕ) (s' : Session Shop Notices). fulfill_for_item-Staged j s' user in
      elim (Option-cases (find i s.db.orders)) [
        | inl e ↦ ground arith
        | inr (o, e) ↦ ground (
          arith,
          finish_complete-Announces o s (settle_items fulfil (items_of i s.db) s) quiet durable
              (settle_items-Staged fulfil staged (items_of i s.db) s)
              (settle_items-IsQuiet s fulfil (λ j s' q. fulfill_for_item-IsQuiet s j s' q user)
                (items_of i s.db) s start-IsQuiet),
        )
      ]
