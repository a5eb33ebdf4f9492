-- ===== src/Orders/Transitions.antt =====
-- The calls of app/orders/service.py that write orders, along the edges of an order's status.
use operations_management.Base.{
  ℕ, zero, suc, ◌≡◌, refl, sym, ap, ◌∙◌, inl, inr, true, false, not, ◌||◌, Option, none, some, List,
  [], ◌∷◌, ◌++◌, arith, Option-cases, Bool-cases,
}
use mathlib.Core.Path.{subst}
use operations_management.Table.{find, put}
use operations_management.Table.Laws.{find-append, find_key}
use operations_management.Errors.{Result, ok, err}
use operations_management.Session.{Session, continue, pure}
use operations_management.Session.Outcome.{Safe}
use operations_management.Shop.{
  Shop, Notices, Action, Order, OrderItem, OrderStatus, StockReservation, order_key,
}
use operations_management.Orders.Untouched.{
  Apart, reserve_for_item-Apart, release_for_item-Apart, fulfill_for_item-Apart,
}
use operations_management.Orders.Repository.{
  is_created, is_confirmed, items_of, reservation_of, cancel, complete, try_create, create_rounds,
  new_order, order_refused,
}
use operations_management.Orders.Code.{generate_order_code}
use operations_management.Orders.Service.{
  reserve_items, finish_confirm, confirm_order, settle_item, settle_items, finish_cancel,
  cancel_order, finish_complete, complete_order,
}
use operations_management.Stock.{flush_low_stock_alerts}
use operations_management.Reservations.{reserve_for_item, release_for_item, fulfill_for_item}
use operations_management.Orders.Lifecycle.{Step, Lives, Apart-Lives, transition-Lives}

confirm-Step : (x : OrderStatus) → is_created x ≡ true → Step x OrderStatus.confirmed
confirm-Step OrderStatus.created h = Step.confirms
confirm-Step OrderStatus.confirmed h = cc
confirm-Step OrderStatus.cancelled h = cc
confirm-Step OrderStatus.completed h = cc

is_confirmed_lem : (x : OrderStatus) → is_confirmed x ≡ true → OrderStatus.confirmed ≡ x
is_confirmed_lem x h = ground arith

module _ (orders : List Order) where
  bind-Apart :
      {A B : Type 0} (f : A → Action B) (x : Result A × Session Shop Notices)
      → Apart orders x.1
      → ((a : A) (s : Session Shop Notices) → Apart orders s → Apart orders (f a s).1)
      → Apart orders (continue x.0 f x.1).1
  bind-Apart f (ok a, s) h k = k a s h
  bind-Apart f (err e, s) h k = h

  reserve_items-Apart :
      (l : ℕ) (xs : List OrderItem) (s : Session Shop Notices)
      → Apart orders s
      → Apart orders (reserve_items l xs s).1
  unfolding reserve_items
  reserve_items-Apart l [] s h = h
  reserve_items-Apart l (x ∷ xs) s h =
      bind-Apart (λ _. reserve_items l xs) (reserve_for_item x.id x.product_id l x.quantity s)
        (reserve_for_item-Apart orders s h x.id x.product_id l x.quantity)
        (λ _ s' h'. reserve_items-Apart l xs s' h')

  module _ (settle : ℕ → Action StockReservation)
      (apart : (s : Session Shop Notices)
        → Apart orders s
        → (i : ℕ) → Apart orders (settle i s).1) where
    settle_item-Apart :
        (r : Option StockReservation) (s : Session Shop Notices)
        → Apart orders s
        → Apart orders (settle_item settle r s).1
    settle_item-Apart none s h = h
    settle_item-Apart (some r) s h =
        bind-Apart (λ _. pure tt) (settle r.id s) (apart s h r.id) (λ _ s' h'. h')

    settle_items-Apart :
        (xs : List OrderItem) (s : Session Shop Notices)
        → Apart orders s
        → Apart orders (settle_items settle xs s).1
    unfolding settle_items
    settle_items-Apart [] s h = h
    settle_items-Apart (x ∷ xs) s h =
        bind-Apart (λ _. settle_items settle xs) (settle_item settle (reservation_of x.id s.db) s)
          (settle_item-Apart (reservation_of x.id s.db) s h)
          (λ _ s' h'. settle_items-Apart xs s' h')

-- The ends of the three transitions.
module _ (o old : Order) (s : Session Shop Notices) (there : find old.id s.db.orders ≡ some old)
    (lives : Safe (Lives o) s) where
  finish_confirm-Lives : is_created old.status ≡ true → Safe (Lives o) (finish_confirm old s).1
  unfolding finish_confirm flush_low_stock_alerts
  finish_confirm-Lives draft =
      transition-Lives o s (finish_confirm old s).1 old
        (record old { status = OrderStatus.confirmed }) there refl refl refl refl
        (confirm-Step old.status draft) refl refl lives

  finish_cancel-Lives : is_confirmed old.status ≡ true → Safe (Lives o) (finish_cancel old s).1
  unfolding finish_cancel cancel
  finish_cancel-Lives firm =
      let passes : not (is_created old.status || is_confirmed old.status) ≡ false = ground arith in
      let new = record old { status = OrderStatus.cancelled } in
      rw passes (
        transition-Lives o s
          (record s {
            db = record s.db { orders = put new s.db.orders };
            committed = record s.db { orders = put new s.db.orders };
          })
          old new there refl refl refl refl
          (subst (λ x. Step x OrderStatus.cancelled) (is_confirmed_lem old.status firm)
            Step.cancels)
          refl refl lives)

  finish_complete-Lives : is_confirmed old.status ≡ true → Safe (Lives o) (finish_complete old s).1
  unfolding finish_complete complete flush_low_stock_alerts
  finish_complete-Lives firm =
      let new = record old { status = OrderStatus.completed } in
      rw firm (
        transition-Lives o s
          (record s {
            db = record s.db { orders = put new s.db.orders };
            committed = record s.db { orders = put new s.db.orders };
          })
          old new there refl refl refl refl
          (subst (λ x. Step x OrderStatus.completed) (is_confirmed_lem old.status firm)
            Step.completes)
          refl refl lives)

-- The three transitions, for a session that has not yet written an order.
module _ (o : Order) (s : Session Shop Notices) (h : Apart s.db.orders s)
    (lives : Safe (Lives o) s) where
  after_loop :
      (finish : Action Order) (x : Result (Unit {0}) × Session Shop Notices)
      → Apart s.db.orders x.1
      → ((s' : Session Shop Notices)
          → Apart s.db.orders s'
          → Safe (Lives o) s'
          → Safe (Lives o) (finish s').1)
      → Safe (Lives o) (continue x.0 (λ _. finish) x.1).1
  after_loop finish (ok _, s') a k = k s' a (Apart-Lives o s s' s.db.orders h a lives)
  after_loop finish (err e, s') a k = Apart-Lives o s s' s.db.orders h a lives

  stored :
      (i : ℕ) (old : Order) (s' : Session Shop Notices)
      → find i s.db.orders ≡ some old
      → Apart s.db.orders s'
      → find old.id s'.db.orders ≡ some old
  stored i old s' e a =
      ap (λ os. find old.id os) a.0
      ∙ subst (λ j. find j s.db.orders ≡ some old) (sym (find_key i s.db.orders old e)) e

  pub confirm_order-Lives : (i l : ℕ) → Safe (Lives o) (confirm_order i l s).1
  unfolding confirm_order
  confirm_order-Lives i l = elim (Option-cases (find i s.db.orders)) [
    | inl e ↦ rw e lives
    | inr (old, e) ↦ rw e (elim (Bool-cases (is_created old.status)) [
      | inr other ↦ rw other lives
      | inl draft ↦ rw draft (
          after_loop (finish_confirm old) (reserve_items l (items_of i s.db) s)
            (reserve_items-Apart s.db.orders l (items_of i s.db) s h)
            (λ s' a live. finish_confirm-Lives o old s' (stored i old s' e a) live draft))
    ])
  ]

  pub cancel_order-Lives : (i : ℕ) → Safe (Lives o) (cancel_order i s).1
  unfolding cancel_order
  cancel_order-Lives i = elim (Option-cases (find i s.db.orders)) [
    | inl e ↦ rw e lives
    | inr (old, e) ↦ rw e (elim (Bool-cases (is_confirmed old.status)) [
      | inr other ↦ rw other lives
      | inl firm ↦ rw firm (
          after_loop (finish_cancel old) (settle_items release_for_item (items_of i s.db) s)
            (settle_items-Apart s.db.orders release_for_item
              (λ s' a j. release_for_item-Apart s.db.orders s' a j) (items_of i s.db) s h)
            (λ s' a live. finish_cancel-Lives o old s' (stored i old s' e a) live firm))
    ])
  ]

  pub complete_order-Lives : (i user : ℕ) → Safe (Lives o) (complete_order i user s).1
  unfolding complete_order
  complete_order-Lives i user = elim (Option-cases (find i s.db.orders)) [
    | inl e ↦ rw e lives
    | inr (old, e) ↦ rw e (elim (Bool-cases (is_confirmed old.status)) [
      | inr other ↦ rw other lives
      | inl firm ↦ rw firm (
          after_loop (finish_complete old)
            (settle_items (λ j. fulfill_for_item j user) (items_of i s.db) s)
            (settle_items-Apart s.db.orders (λ j. fulfill_for_item j user)
              (λ s' a j. fulfill_for_item-Apart s.db.orders s' a j user) (items_of i s.db) s h)
            (λ s' a live. finish_complete-Lives o old s' (stored i old s' e a) live firm))
    ])
  ]

-- A new order leaves the others where they are.
module _ (o : Order) where
  appended : (d d' : Shop) (new : Order) → d'.orders ≡ d.orders ++ new ∷ [] → Lives o d → Lives o d'
  appended d d' new e x = record {
    now = x.now;
    found = rw e (ground (arith, find-append o.id new d.orders, x.found));
    same_code = x.same_code;
    same_user = x.same_user;
    same_time = x.same_time;
    reached = x.reached;
  }

  try_create-Lives :
      (user : ℕ) (random : ℕ → ℕ) (s : Session Shop Notices)
      → Safe (Lives o) s
      → Safe (Lives o) (try_create user random s).1
  unfolding try_create
  try_create-Lives user random s x =
      let new = new_order (s.uuids s.drawn) (generate_order_code random) user (s.clock s.reads) in
      elim (Bool-cases (order_refused new s.db)) [
        | inl refused ↦ rw refused (x.1, x.1)
        | inr accepted ↦ rw accepted (appended s.db _ new refl x.0, appended s.db _ new refl x.0)
      ]

  next_round-Lives :
      (rest : Action Order)
      → ((s : Session Shop Notices) → Safe (Lives o) s → Safe (Lives o) (rest s).1)
      → (x : Result (Option Order) × Session Shop Notices) → Safe (Lives o) x.1
      → Safe (Lives o) (continue x.0 (λ a. elim a [ none ↦ rest | some b ↦ pure b ]) x.1).1
  next_round-Lives rest again (ok none, s) k = again s k
  next_round-Lives rest again (ok (some b), s) k = k
  next_round-Lives rest again (err e, s) k = k

  pub create_rounds-Lives :
      (n user : ℕ) (random : ℕ → ℕ → ℕ) (s : Session Shop Notices)
      → Safe (Lives o) s
      → Safe (Lives o) (create_rounds n user random s).1
  unfolding create_rounds
  create_rounds-Lives zero user random s x = x
  create_rounds-Lives (suc n) user random s x =
      next_round-Lives (create_rounds n user random) (create_rounds-Lives n user random)
        (try_create user (random n) s) (try_create-Lives user (random n) s x)
