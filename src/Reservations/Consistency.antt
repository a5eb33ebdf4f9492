-- ===== src/Reservations/Consistency.antt =====
-- The reservation calls of app/inventory/service.py, the consistency of the tables and the caller's
-- transaction.
use operations_management.Base.{ℕ, ◌≡◌, refl, inl, inr, some, arith, Option-cases, true}
use operations_management.Int.{ℤ, ◌+ℤ◌, ◌-ℤ◌}
use operations_management.Errors.{Result, ok, err}
use operations_management.Table.{find, put}
use operations_management.Table.Laws.{find-first, find_key}
use operations_management.Session.{Session, continue}
use operations_management.Session.Outcome.{Returns}
use operations_management.Shop.{
  Shop, Notices, Action, Staged, InventoryStock, StockReservation, ReservationStatus, is_reserved,
  stock_key, reservation_key,
}
use operations_management.Shop.Invariant.{IsConsistent, reserve-IsConsistent, settle-IsConsistent}
use operations_management.Stock.{stock_at, add_movement}
use operations_management.Stock.Sync.{sync_low_stock-run, marked, after_sync}
use operations_management.Reservations.{
  new_reservation, hold, create_reservation, reserve_for_item, open_reservation, release,
  release_for_item, shipped, fulfill, fulfill_for_item,
}

-- The insertion, after the reserved quantity of the row `old` was raised.
create_reservation-Returns :
    (item : ℕ) (quantity : ℤ) (d : Shop) (st old : InventoryStock) (s : Session Shop Notices)
    → find st.id d.stocks ≡ some old
    → st.reserved_quantity ≡ old.reserved_quantity +ℤ quantity
    → IsConsistent d
    → Returns IsConsistent (
        create_reservation item st.id quantity
          (record s { db = record d { stocks = put st d.stocks } }))
unfolding create_reservation
create_reservation-Returns item quantity d st old s e raised h =
    ground (
      arith,
      reserve-IsConsistent d st old (new_reservation (s.uuids s.drawn) item st.id quantity) e,
    )

module _ (item : ℕ) (quantity : ℤ) (st : InventoryStock) (s : Session Shop Notices) where
  hold-Staged : Staged s (hold item quantity st s)
  unfolding hold create_reservation
  hold-Staged =
      let st' = record st { reserved_quantity = st.reserved_quantity +ℤ quantity } in
      rw (sync_low_stock-run st' s) (ground arith)

  hold-Returns :
      find st.id s.db.stocks ≡ some st
      → IsConsistent s.db
      → Returns IsConsistent (hold item quantity st s)
  unfolding hold
  hold-Returns e h =
      let st' = record st { reserved_quantity = st.reserved_quantity +ℤ quantity } in
      rw (sync_low_stock-run st' s) (
        create_reservation-Returns item quantity s.db (marked (s.clock s.reads) st') st
          (after_sync st' s) e refl h)

module _ (item p l : ℕ) (quantity : ℤ) (s : Session Shop Notices) where
  pub reserve_for_item-Staged : Staged s (reserve_for_item item p l quantity s)
  unfolding reserve_for_item
  reserve_for_item-Staged = elim (Option-cases (stock_at p l s.db)) [
    | inl e ↦ ground arith
    | inr (st, e) ↦ ground (arith, hold-Staged item quantity st s)
  ]

  pub reserve_for_item-Returns :
      IsConsistent s.db → Returns IsConsistent (reserve_for_item item p l quantity s)
  unfolding reserve_for_item
  reserve_for_item-Returns h = elim (Option-cases (stock_at p l s.db)) [
    | inl e ↦ ground arith
    | inr (st, e) ↦
        ground
          (arith, hold-Returns item quantity st s (find-first _ s.db.stocks st h.stocks_keyed e) h)
  ]

-- How an opened reservation was found.
abbrev pub Opened :
    Session Shop Notices
    → Result (StockReservation × InventoryStock) × Session Shop Notices
    → Type 0
Opened s (ok (r, st), s') =
    (s' ≡ s)
    × (find r.id s.db.reservations ≡ some r)
    × (find st.id s.db.stocks ≡ some st)
    × (r.stock_id ≡ st.id)
    × (is_reserved r.status ≡ true)
Opened s (err e, s') = s' ≡ s

pub open_reservation-Opened : (i : ℕ) (s : Session Shop Notices) → Opened s (open_reservation i s)
unfolding open_reservation
open_reservation-Opened i s = elim (Option-cases (find i s.db.reservations)) [
  | inl e ↦ ground arith
  | inr (r, e) ↦ elim (Option-cases (find r.stock_id s.db.stocks)) [
    | inl e' ↦ ground arith
    | inr (st, e') ↦
        ground (arith, find_key i s.db.reservations r e, find_key r.stock_id s.db.stocks st e')
  ]
]

module _ (r : StockReservation) (st : InventoryStock) (s : Session Shop Notices) where
  release-Staged : Staged s (release (r, st) s)
  unfolding release
  release-Staged =
      let st' = record st { reserved_quantity = st.reserved_quantity -ℤ r.quantity } in
      let r' = record r { status = ReservationStatus.released } in
      rw
        (sync_low_stock-run st'
          (record s { db = record s.db { reservations = put r' s.db.reservations } }))
        (ground arith)

  pub release-Returns :
      Opened s (ok (r, st), s) → IsConsistent s.db → Returns IsConsistent (release (r, st) s)
  unfolding release
  release-Returns (_, er, e, same, o) h =
      let st' = record st { reserved_quantity = st.reserved_quantity -ℤ r.quantity } in
      let r' = record r { status = ReservationStatus.released } in
      rw
        (sync_low_stock-run st'
          (record s { db = record s.db { reservations = put r' s.db.reservations } }))
        (settle-IsConsistent s.db (marked (s.clock s.reads) st') st r r' e er same o refl refl refl
          refl refl h)

  module _ (user : ℕ) where
    fulfill-Staged : Staged s (fulfill user (r, st) s)
    unfolding fulfill add_movement
    fulfill-Staged =
        let r' = record r { status = ReservationStatus.fulfilled } in
        rw
          (sync_low_stock-run (shipped r st)
            (record s { db = record s.db { reservations = put r' s.db.reservations } }))
          (ground arith)

    pub fulfill-Returns :
        Opened s (ok (r, st), s) → IsConsistent s.db → Returns IsConsistent (fulfill user (r, st) s)
    unfolding fulfill add_movement
    fulfill-Returns (_, er, e, same, o) h =
        let r' = record r { status = ReservationStatus.fulfilled } in
        rw
          (sync_low_stock-run (shipped r st)
            (record s { db = record s.db { reservations = put r' s.db.reservations } }))
          (ground (
            arith,
            settle-IsConsistent s.db (marked (s.clock s.reads) (shipped r st)) st r r' e er same o
                refl refl refl refl refl h,
          ))

-- A settlement behind `open_reservation`, by how that ended.
module _ (f : StockReservation × InventoryStock → Action StockReservation) where
  settle-Staged :
      (s s' : Session Shop Notices) (x : Result (StockReservation × InventoryStock))
      → Opened s (x, s')
      → ((r : StockReservation) (st : InventoryStock) → Staged s (f (r, st) s))
      → Staged s (continue x f s')
  settle-Staged s s' (ok (r, st)) o k = rw o.0 (k r st)
  settle-Staged s s' (err e) o k = rw o (refl, refl)

  pub settle-Returns :
      (P : Shop → Type 0) (s s' : Session Shop Notices)
      (x : Result (StockReservation × InventoryStock))
      → Opened s (x, s')
      → ((r : StockReservation) (st : InventoryStock)
          → Opened s (ok (r, st), s)
          → Returns P (f (r, st) s))
      → Returns P (continue x f s')
  settle-Returns P s s' (ok (r, st)) o k = rw o.0 (k r st (refl, o.1, o.2, o.3, o.4))
  settle-Returns P s s' (err e) o k = tt

module _ (i : ℕ) (s : Session Shop Notices) where
  pub release_for_item-Staged : Staged s (release_for_item i s)
  unfolding release_for_item
  release_for_item-Staged =
      settle-Staged release s _ _ (open_reservation-Opened i s) (λ r st. release-Staged r st s)

  pub release_for_item-Returns : IsConsistent s.db → Returns IsConsistent (release_for_item i s)
  unfolding release_for_item
  release_for_item-Returns h =
      settle-Returns release IsConsistent s _ _ (open_reservation-Opened i s)
        (λ r st o. release-Returns r st s o h)

  pub fulfill_for_item-Staged : (user : ℕ) → Staged s (fulfill_for_item i user s)
  unfolding fulfill_for_item
  fulfill_for_item-Staged user =
      settle-Staged (fulfill user) s _ _ (open_reservation-Opened i s)
        (λ r st. fulfill-Staged r st s user)

  pub fulfill_for_item-Returns :
      (user : ℕ) → IsConsistent s.db → Returns IsConsistent (fulfill_for_item i user s)
  unfolding fulfill_for_item
  fulfill_for_item-Returns user h =
      settle-Returns (fulfill user) IsConsistent s _ _ (open_reservation-Opened i s)
        (λ r st o. fulfill-Returns r st s user o h)
