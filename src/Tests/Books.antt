-- ===== src/Tests/Books.antt =====
-- The books of the stock, and the creation of orders.
use operations_management.Base.{◌+◌, ◌*◌, ◌≡◌, refl, some, arith}
use operations_management.Int.{pos, ◌-ℤ◌}
use operations_management.Session.Outcome.{Returns}
use operations_management.Shop.Transaction.{Transacts}
use operations_management.Stock.{remove_stock}
use operations_management.Stock.Books.{KeepsOpenings, remove_stock-KeepsOpenings}
use operations_management.Stock.Overdraft.{IsOverdrawn, remove_stock-IsOverdrawn}
use operations_management.Reservations.Books.{Books}
use operations_management.Orders.Code.{generate_order_code, draw_code, normalize_code}
use operations_management.Orders.Lookup.{normalize-generate}
use operations_management.Orders.Repository.{create_order}
use operations_management.Orders.Creation.{Creates, create_order-Creates}
use operations_management.Orders.Service.{confirm_order, cancel_order, complete_order}
use operations_management.Orders.Books.{
  Ships, confirm_order-Books, cancel_order-Books, complete_order-Books,
}
use operations_management.Tests.Data.{row, shop, session, shop-IsConsistent}

shop-Books : Books shop shop
unfolding ◌-ℤ◌
shop-Books = record {
  consistent = shop-IsConsistent;
  covered = (omega arith, tt);
  openings = λ i. refl;
}

confirm_order-Books_example : Transacts (Books shop) session (confirm_order 7 2 session)
confirm_order-Books_example = confirm_order-Books shop 7 session shop-Books 2

cancel_order-Books_example : Transacts (Books shop) session (cancel_order 6 session)
cancel_order-Books_example = cancel_order-Books shop 6 session shop-Books

complete_order-Books_example :
    Transacts (Ships shop 6 session shop-Books) session (complete_order 6 9 session)
complete_order-Books_example = complete_order-Books shop 6 session shop-Books 9

remove_stock-KeepsOpenings_example :
    Returns (KeepsOpenings shop) (remove_stock 1 2 (pos 5) 9 session)
remove_stock-KeepsOpenings_example =
    remove_stock-KeepsOpenings 1 2 (pos 5) 9 session shop-IsConsistent.stocks_keyed

-- Seven of ten pieces are taken while four are reserved.
remove_stock-IsOverdrawn_example : IsOverdrawn 3 (remove_stock 1 2 (pos 7) 9 session)
unfolding ◌-ℤ◌
remove_stock-IsOverdrawn_example =
    remove_stock-IsOverdrawn 1 2 (pos 7) 9 row session shop-IsConsistent.stocks_keyed refl refl
      (omega arith) (omega arith) (omega arith)

normalize-generate_example :
    (normalize_code (generate_order_code (λ n. 7 * n + 3))
      ≡ some (generate_order_code (λ n. 7 * n + 3)))
    × (normalize_code (draw_code 8 (λ n. 7 * n + 3)) ≡ some (generate_order_code (λ n. 7 * n + 3)))
normalize-generate_example = normalize-generate (λ n. 7 * n + 3)

create_order-Creates_example :
    Creates 5
      (λ round n. round + 5 * n)
      9
      session
      (create_order 9 (λ round n. round + 5 * n) session)
create_order-Creates_example = create_order-Creates 9 (λ round n. round + 5 * n) session
