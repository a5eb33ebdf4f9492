-- ===== src/Reservations/Runs.antt =====
-- The three reservation calls as equations, where their checks pass: the session that each leaves.
use operations_management.Base.{
  ℕ, ◌+◌, ◌≡◌, true, false, none, some, [], ◌∷◌, ◌++◌, arith, any, is_some, ◌==◌,
}
use operations_management.Int.{ℤ, pos, ◌+ℤ◌, ◌-ℤ◌, ◌≤ℤ◌}
use operations_management.Table.{find, put}
use operations_management.Table.Laws.{find-first, find-put}
use operations_management.Errors.{ok}
use operations_management.Session.{Session}
use operations_management.Shop.{
  Shop, Notices, InventoryStock, StockReservation, StockMovementType, ReservationStatus,
  is_reserved, stock_key, reservation_key, order_item_key, movement_key,
}
use operations_management.Shop.Invariant.{IsConsistent}
use operations_management.Stock.{available, stock_at, movement_of, add_movement}
use operations_management.Stock.Sync.{sync_low_stock-run, marked, after_sync}
use operations_management.Reservations.{
  new_reservation, create_reservation, hold, reserve_for_item, open_reservation, release,
  release_for_item, shipped, fulfill, fulfill_for_item,
}

-- The rows with more, or less, reserved.
abbrev pub raised : ℤ → InventoryStock → InventoryStock
raised q st = record st { reserved_quantity = st.reserved_quantity +ℤ q }

abbrev pub lowered : ℤ → InventoryStock → InventoryStock
lowered q st = record st { reserved_quantity = st.reserved_quantity -ℤ q }

abbrev pub after_reserve : ℕ → ℤ → InventoryStock → Session Shop Notices → Session Shop Notices
after_reserve item q st s = record (after_sync (raised q st) s) {
  db = record s.db {
    stocks = put (marked (s.clock s.reads) (raised q st)) s.db.stocks;
    reservations = s.db.reservations ++ new_reservation (s.uuids s.drawn) item st.id q ∷ [];
  };
  drawn = s.drawn + 1;
}

pub reserve_for_item-run :
    (item p l : ℕ) (q : ℤ) (st : InventoryStock) (s : Session Shop Notices)
    → IsConsistent s.db
    → stock_at p l s.db ≡ some st
    → pos 1 ≤ℤ q
    → q ≤ℤ available st
    → find (s.uuids s.drawn) s.db.reservations ≡ none
    → any (λ x. x.order_item_id == item) s.db.reservations ≡ false
    → is_some (find item s.db.order_items) ≡ true
    → reserve_for_item item p l q s
      ≡ (ok (new_reservation (s.uuids s.drawn) item st.id q), after_reserve item q st s)
unfolding reserve_for_item hold create_reservation
reserve_for_item-run item p l q st s h e positive enough fresh once there = ground (
  arith,
  sync_low_stock-run (raised q st) s,
  find-first _ s.db.stocks st h.stocks_keyed e,
  find-put st.id (marked (s.clock s.reads) (raised q st)) s.db.stocks,
)

module _ (i : ℕ) (r : StockReservation) (st : InventoryStock) (s : Session Shop Notices)
    (er : find i s.db.reservations ≡ some r) (is_open : is_reserved r.status ≡ true)
    (e : find r.stock_id s.db.stocks ≡ some st) where
  abbrev pub released : StockReservation
  released = record r { status = ReservationStatus.released }

  pub release_for_item-run : release_for_item i s ≡ (
    ok released,
    record (after_sync (lowered r.quantity st) s) {
      db = record s.db {
        stocks = put (marked (s.clock s.reads) (lowered r.quantity st)) s.db.stocks;
        reservations = put released s.db.reservations;
      };
    },
  )
  unfolding release_for_item open_reservation release
  release_for_item-run = ground (
    arith,
    sync_low_stock-run (lowered r.quantity st)
        (record s { db = record s.db { reservations = put released s.db.reservations } }),
  )

  abbrev pub fulfilled : StockReservation
  fulfilled = record r { status = ReservationStatus.fulfilled }

  pub fulfill_for_item-run :
      (user : ℕ)
      → find (s.uuids s.drawn) s.db.movements ≡ none
      → let s1 = after_sync (shipped r st) s in
        let movement =
          movement_of StockMovementType.outward r.quantity
            (shipped r st)
            st.quantity
            user
            (s.uuids s.drawn)
            (s.clock s1.reads) in
        fulfill_for_item i user s ≡ (
          ok fulfilled,
          record s1 {
            db = record s.db {
              stocks = put (marked (s.clock s.reads) (shipped r st)) s.db.stocks;
              reservations = put fulfilled s.db.reservations;
              movements = s.db.movements ++ movement ∷ [];
            };
            drawn = s.drawn + 1;
            reads = s1.reads + 1;
          },
        )
  unfolding fulfill_for_item open_reservation fulfill add_movement
  fulfill_for_item-run user u = ground (
    arith,
    sync_low_stock-run (shipped r st)
        (record s { db = record s.db { reservations = put fulfilled s.db.reservations } }),
  )
