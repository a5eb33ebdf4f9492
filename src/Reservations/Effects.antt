-- ===== src/Reservations/Effects.antt =====
-- What a reservation does to its stock row, and what its release or its fulfilment leaves of it.
use operations_management.Base.{
  ℕ, ◌+◌, ◌≡◌, refl, Option, true, false, none, some, [], ◌∷◌, ◌++◌, arith, any, is_some, ◌==◌,
}
use operations_management.Int.{ℤ, pos, ◌+ℤ◌, ◌-ℤ◌, ◌≤ℤ◌, int_laws, eq_of_parts}
use operations_management.Table.{find}
use operations_management.Table.Laws.{find-first, find-put, find-append}
use operations_management.Errors.{ok}
use operations_management.Session.{Session}
use operations_management.Shop.{
  Shop, Notices, InventoryStock, StockMovement, StockReservation, ReservationStatus, stock_key,
  reservation_key, order_item_key, movement_key,
}
use operations_management.Shop.Invariant.{IsConsistent}
use operations_management.Stock.{available, stock_at}
use operations_management.Stock.Sync.{marked, mark}
use operations_management.Reservations.{
  new_reservation, reserve_for_item, release_for_item, fulfill_for_item, shipped,
}
use operations_management.Reservations.Runs.{
  raised, lowered, after_reserve, reserve_for_item-run, release_for_item-run, fulfill_for_item-run,
}

add_sub_cancel : (a q : ℤ) → a +ℤ q -ℤ q ≡ a
add_sub_cancel a q = eq_of_parts _ _ (omega int_laws)

-- What has to hold for a reservation of `q` from the row `st` to go through.
pub record CanReserve (item p l : ℕ) (q : ℤ) (st : InventoryStock) (s : Session Shop Notices)
    : Type 0 where
  pub consistent : IsConsistent s.db
  pub row : stock_at p l s.db ≡ some st
  pub positive : pos 1 ≤ℤ q
  pub enough : q ≤ℤ available st
  pub fresh : find (s.uuids s.drawn) s.db.reservations ≡ none
  pub once : any (λ x. x.order_item_id == item) s.db.reservations ≡ false
  pub there : is_some (find item s.db.order_items) ≡ true

module _ (item p l : ℕ) (q : ℤ) (st : InventoryStock) (s : Session Shop Notices)
    (c : CanReserve item p l q st s) where
  abbrev pub reserved : StockReservation
  reserved = new_reservation (s.uuids s.drawn) item st.id q

  abbrev s1 : Session Shop Notices
  s1 = after_reserve item q st s

  abbrev row1 : InventoryStock
  row1 = marked (s.clock s.reads) (raised q st)

  found_row : find st.id s.db.stocks ≡ some st
  found_row = find-first _ s.db.stocks st c.consistent.stocks_keyed c.row

  found_row1 : find st.id s1.db.stocks ≡ some row1
  found_row1 = ground (arith, found_row, find-put st.id row1 s.db.stocks)

  found_reserved : find (s.uuids s.drawn) s1.db.reservations ≡ some reserved
  found_reserved = ground (arith, c.fresh, find-append (s.uuids s.drawn) reserved s.db.reservations)

  runs : reserve_for_item item p l q s ≡ (ok reserved, s1)
  runs =
      reserve_for_item-run item p l q st s c.consistent c.row c.positive c.enough c.fresh c.once
        c.there

  -- When a reservation can go through, its release right after it returns the released reservation and
  -- gives the row back as it was, up to its low-stock mark.
  pub release-reserve :
      let (r, s2) = release_for_item (s.uuids s.drawn) (reserve_for_item item p l q s).1 in
      (r ≡ ok (record reserved { status = ReservationStatus.released }))
      × ((m : Option ℕ) × (find st.id s2.db.stocks ≡ some (record st { low_stock_alerted_at = m })))
  release-reserve = rw runs (
      rw (release_for_item-run (s.uuids s.drawn) reserved row1 s1 found_reserved refl found_row1) (
        refl,
        (
          mark (s1.clock s1.reads) (lowered q row1),
          ground (
            arith,
            found_row1,
            find-put st.id (marked (s1.clock s1.reads) (lowered q row1)) s1.db.stocks,
            add_sub_cancel st.reserved_quantity q,
          ),
        ),
      ))

  -- When a reservation can go through and the next uuid keys no movement, its fulfilment right after it
  -- returns the fulfilled reservation, leaves the row with the amount taken off the quantity and the
  -- reserved quantity as it was, and appends one movement of that row between the two quantities.
  pub fulfill-reserve :
      (user : ℕ)
      → find (s.uuids (s.drawn + 1)) s.db.movements ≡ none
      → let (r, s2) = fulfill_for_item (s.uuids s.drawn) user (reserve_for_item item p l q s).1 in
        (r ≡ ok (record reserved { status = ReservationStatus.fulfilled }))
        × ((m : Option ℕ) × (find st.id s2.db.stocks
              ≡ some (record st { quantity = st.quantity -ℤ q; low_stock_alerted_at = m })))
        × ((movement : StockMovement) × (s2.db.movements ≡ s.db.movements ++ movement ∷ [])
            × (movement.stock_id ≡ st.id)
            × (movement.previous_quantity ≡ st.quantity)
            × (movement.new_quantity ≡ st.quantity -ℤ q))
  fulfill-reserve user u = rw runs (
      rw
        (fulfill_for_item-run (s.uuids s.drawn) reserved row1 s1 found_reserved refl found_row1 user
          u)
        (
          refl,
          (
            mark (s1.clock s1.reads) (shipped reserved row1),
            ground (
              arith,
              found_row1,
              find-put st.id (marked (s1.clock s1.reads) (shipped reserved row1)) s1.db.stocks,
              add_sub_cancel st.reserved_quantity q,
            ),
          ),
          (_, refl, refl, refl, refl),
        ))
