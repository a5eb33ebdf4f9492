-- ===== src/Orders/Consistency.antt =====
-- The order calls of app/orders/service.py and the consistency of the stock tables.
use operations_management.Base.{ℕ}
use operations_management.Session.{Session}
use operations_management.Shop.{Shop, Notices}
use operations_management.Shop.Invariant.{IsConsistent}
use operations_management.Shop.Transaction.{Transacts}
use operations_management.Reservations.Consistency.{
  reserve_for_item-Returns, release_for_item-Returns, fulfill_for_item-Returns,
}
use operations_management.Orders.Service.{confirm_order, cancel_order, complete_order}
use operations_management.Orders.Transaction.{
  confirming-Transacts, cancelling-Transacts, completing-Transacts,
}

-- On consistent tables `confirm_order` is one transaction: it returns with consistent tables that are
-- committed, or it raises with nothing committed and no alert sent.
pub confirm_order-Transacts :
    (l i : ℕ) (s : Session Shop Notices)
    → IsConsistent s.db
    → Transacts IsConsistent s (confirm_order i l s)
confirm_order-Transacts l i s h =
    confirming-Transacts IsConsistent (λ _ _ k. k) reserve_for_item-Returns i l s h

-- On consistent tables `cancel_order` is one transaction: it returns with consistent tables that are
-- committed, or it raises with nothing committed and no alert sent.
pub cancel_order-Transacts :
    (i : ℕ) (s : Session Shop Notices)
    → IsConsistent s.db
    → Transacts IsConsistent s (cancel_order i s)
cancel_order-Transacts i s h =
    cancelling-Transacts IsConsistent (λ _ _ k. k) release_for_item-Returns i s h

-- On consistent tables `complete_order` is one transaction: it returns with consistent tables that are
-- committed, or it raises with nothing committed and no alert sent.
pub complete_order-Transacts :
    (i : ℕ) (s : Session Shop Notices)
    → IsConsistent s.db
    → (user : ℕ) → Transacts IsConsistent s (complete_order i user s)
complete_order-Transacts i s h user =
    completing-Transacts IsConsistent (λ _ _ k. k) user (λ j s'. fulfill_for_item-Returns j s' user)
      i s h
