-- ===== src/Tests/Stocks.antt =====
-- The stock calls and the reservations.
use operations_management.Base.{ℕ, ◌≡◌, refl, Option, some, [], ◌∷◌, ◌++◌, arith}
use operations_management.Int.{pos, ◌-ℤ◌}
use operations_management.Table.{find}
use operations_management.Errors.{ok}
use operations_management.Shop.{StockMovement, StockMovementType, ReservationStatus, stock_key}
use operations_management.Stock.{
  record_change, create_movement, add_movement, sync_low_stock, flush_low_stock_alerts,
  remove_stock, adjust_stock,
}
use operations_management.Stock.Refinement.{
  specified, on_hand, Meets, remove_stock-Meets, adjust_stock-Meets,
}
use operations_management.Reservations.{
  new_reservation, reserve_for_item, release_for_item, fulfill_for_item,
}
use operations_management.Reservations.Effects.{CanReserve, release-reserve, fulfill-reserve}
use operations_management.Tests.Data.{row, shop, session, shop-IsConsistent}

remove_stock-Meets_example :
    Meets 1 2 StockMovementType.outward
      (specified StockMovementType.outward (pos 7) (on_hand 1 2 shop))
      session
      (remove_stock 1 2 (pos 7) 9 session)
remove_stock-Meets_example = remove_stock-Meets 1 2 9 session shop-IsConsistent refl (pos 7)

adjust_stock-Meets_example :
    Meets 1 2 StockMovementType.adjust
      (specified StockMovementType.adjust (pos 2) (on_hand 1 2 shop))
      session
      (adjust_stock 1 2 (pos 2) 9 session)
adjust_stock-Meets_example = adjust_stock-Meets 1 2 9 session shop-IsConsistent refl (pos 2)

-- Six of ten pieces are available: taking one of them brings the rest to the reorder point.
remove_stock_run : (remove_stock 1 2 (pos 1) 9 session).1.memory.sent ≡ 3 ∷ []
unfolding remove_stock record_change create_movement add_movement sync_low_stock
    flush_low_stock_alerts ◌-ℤ◌
remove_stock_run = refl

can_reserve : CanReserve 8 1 2 (pos 3) row session
unfolding ◌-ℤ◌
can_reserve = record {
  consistent = shop-IsConsistent;
  row = refl;
  positive = omega arith;
  enough = omega arith;
  fresh = refl;
  once = refl;
  there = refl;
}

release-reserve_example :
    let (r, s2) = release_for_item 100 (reserve_for_item 8 1 2 (pos 3) session).1 in
    (r ≡ ok (record (new_reservation 100 8 3 (pos 3)) { status = ReservationStatus.released }))
    × ((m : Option ℕ) × (find 3 s2.db.stocks ≡ some (record row { low_stock_alerted_at = m })))
release-reserve_example = release-reserve 8 1 2 (pos 3) row session can_reserve

fulfill-reserve_example :
    let (r, s2) = fulfill_for_item 100 9 (reserve_for_item 8 1 2 (pos 3) session).1 in
    (r ≡ ok (record (new_reservation 100 8 3 (pos 3)) { status = ReservationStatus.fulfilled }))
    × ((m : Option ℕ) × (find 3 s2.db.stocks
          ≡ some (record row { quantity = pos 10 -ℤ pos 3; low_stock_alerted_at = m })))
    × ((movement : StockMovement) × (s2.db.movements ≡ [] ++ movement ∷ [])
        × (movement.stock_id ≡ 3)
        × (movement.previous_quantity ≡ pos 10)
        × (movement.new_quantity ≡ pos 10 -ℤ pos 3))
fulfill-reserve_example = fulfill-reserve 8 1 2 (pos 3) row session can_reserve 9 refl
