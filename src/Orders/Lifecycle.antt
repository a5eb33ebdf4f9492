-- ===== src/Orders/Lifecycle.antt =====
-- The life of an order of app/orders/models/order.py: the edges of its status, and that it is still
-- the same order.
use operations_management.Base.{◌≡◌, sym, ap, ◌∙◌, inl, inr, some, List, arith, ◌==◌, Bool-cases}
use mathlib.Core.Path.{subst}
use operations_management.Table.{find, put}
use operations_management.Table.Laws.{find-put}
use operations_management.Session.{Session}
use operations_management.Session.Outcome.{Safe}
use operations_management.Shop.{Shop, Notices, Order, OrderStatus, order_key}
use operations_management.Orders.Untouched.{Apart}

-- The edges of the status of an order that the service takes.
pub data Step : OrderStatus → OrderStatus → Type 0 where
  confirms : Step OrderStatus.created OrderStatus.confirmed
  cancels : Step OrderStatus.confirmed OrderStatus.cancelled
  completes : Step OrderStatus.confirmed OrderStatus.completed

pub data Reaches : OrderStatus → OrderStatus → Type 0 where
  stays : (x : OrderStatus) → Reaches x x
  moves : (x y z : OrderStatus) → Reaches x y → Step y z → Reaches x z

-- The order is still there, the same one, and its status has moved along the edges.
pub record Lives (o : Order) (d : Shop) : Type 0 where
  pub now : Order
  pub found : find o.id d.orders ≡ some now
  pub same_code : now.code ≡ o.code
  pub same_user : now.user_id ≡ o.user_id
  pub same_time : now.created_at ≡ o.created_at
  pub reached : Reaches o.status now.status

same_row : (x y : Order) → some x ≡ some y → x ≡ y
same_row x y e = cc

module _ (o : Order) where
  -- Where the orders are the same rows.
  pub Apart-Lives :
      (s s' : Session Shop Notices) (orders : List Order)
      → Apart orders s
      → Apart orders s'
      → Safe (Lives o) s
      → Safe (Lives o) s'
  Apart-Lives s s' orders a b (x, y) = (
    record {
      now = x.now;
      found = ap (λ os. find o.id os) (b.0 ∙ sym a.0) ∙ x.found;
      same_code = x.same_code;
      same_user = x.same_user;
      same_time = x.same_time;
      reached = x.reached;
    },
    record {
      now = y.now;
      found = ap (λ os. find o.id os) (b.1 ∙ sym a.1) ∙ y.found;
      same_code = y.same_code;
      same_user = y.same_user;
      same_time = y.same_time;
      reached = y.reached;
    },
  )

  -- A stored order that takes an edge.
  pub stepped :
      (d d' : Shop) (old new : Order)
      → find old.id d.orders ≡ some old
      → new.id ≡ old.id
      → new.code ≡ old.code
      → new.user_id ≡ old.user_id
      → new.created_at ≡ old.created_at
      → Step old.status new.status
      → d'.orders ≡ put new d.orders
      → Lives o d
      → Lives o d'
  stepped d d' old new there key code user time step e x = elim (Bool-cases (new.id == o.id)) [
    | inr other ↦ record {
      now = x.now;
      found = rw e (ground (arith, find-put o.id new d.orders, x.found));
      same_code = x.same_code;
      same_user = x.same_user;
      same_time = x.same_time;
      reached = x.reached;
    }
    | inl same ↦
        let at_o : find o.id d.orders ≡ some old = ground (arith, there) in
        let is_old : x.now ≡ old = same_row x.now old (sym x.found ∙ at_o) in
        record {
          now = new;
          found = rw e (ground (arith, find-put o.id new d.orders, at_o));
          same_code = code ∙ ap (λ y. y.code) (sym is_old) ∙ x.same_code;
          same_user = user ∙ ap (λ y. y.user_id) (sym is_old) ∙ x.same_user;
          same_time = time ∙ ap (λ y. y.created_at) (sym is_old) ∙ x.same_time;
          reached =
              Reaches.moves o.status old.status new.status
                (subst (λ y. Reaches o.status y.status) is_old x.reached) step;
        }
  ]

  -- A transaction that ends by storing an order that has taken an edge.
  pub transition-Lives :
      (s s' : Session Shop Notices) (old new : Order)
      → find old.id s.db.orders ≡ some old
      → new.id ≡ old.id
      → new.code ≡ old.code
      → new.user_id ≡ old.user_id
      → new.created_at ≡ old.created_at
      → Step old.status new.status
      → s'.db.orders ≡ put new s.db.orders
      → s'.committed.orders ≡ put new s.db.orders
      → Safe (Lives o) s
      → Safe (Lives o) s'
  transition-Lives s s' old new there key code user time step e c x = (
    stepped s.db s'.db old new there key code user time step e x.0,
    stepped s.db s'.committed old new there key code user time step c x.0,
  )
