-- ===== src/Tests/Orders.antt =====
-- The orders, and the requests as a whole.
use operations_management.Base.{refl, List, [], ◌∷◌}
use operations_management.Shop.{order_key}
use operations_management.Int.{pos}
use operations_management.Shop.Invariant.{IsConsistent}
use operations_management.Shop.Transaction.{Transacts}
use operations_management.Stock.Alerts.{Announces}
use operations_management.Orders.Service.{confirm_order}
use operations_management.Orders.Consistency.{confirm_order-Transacts}
use operations_management.Orders.Alerts.{confirm_order-Announces}
use operations_management.Requests.{Request, serve}
use operations_management.Requests.Soundness.{IsSound, serve-IsSound}
use operations_management.Orders.Lifecycle.{Lives}
use operations_management.Requests.Lifecycle.{serve-Lives}
use operations_management.Tests.Data.{confirmed_order, session, shop-IsConsistent, shop-IsSound}

confirm_order-Transacts_example : Transacts IsConsistent session (confirm_order 7 2 session)
confirm_order-Transacts_example = confirm_order-Transacts 2 7 session shop-IsConsistent

confirm_order-Announces_example : Announces session (confirm_order 7 2 session)
confirm_order-Announces_example =
    confirm_order-Announces 7 session shop-IsConsistent shop-IsSound.1 shop-IsSound.1 refl 2

abbrev day : List Request
day =
    Request.post_out 1 2 (pos 3) 9
    ∷ Request.patch_confirm 7 2
    ∷ Request.patch_complete 6 9
    ∷ Request.patch_cancel 7
    ∷ []

serve-IsSound_example : IsSound (serve day session).committed
serve-IsSound_example = serve-IsSound day session shop-IsSound

-- Order 6 is completed on that day, and order 7 is confirmed.
serve-Lives_example : Lives confirmed_order (serve day session).committed
serve-Lives_example = serve-Lives confirmed_order day session refl
