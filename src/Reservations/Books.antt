-- ===== src/Reservations/Books.antt =====
-- The books of the stock, which are what is reserved of each row and what its movements add up to,
-- under the reservation calls of app/inventory/service.py.
use operations_management.Base.{
  ℕ, ◌≡◌, refl, ◌∙◌, some, inl, inr, arith, Option-cases, Bool-cases, All, is_some,
}
use operations_management.Int.{ℤ, pos, ◌≤ℤ◌, int_laws}
use operations_management.Table.{find, put}
use operations_management.Table.Laws.{find-first, put-All, find-All}
use operations_management.Errors.{Result, ok, err}
use operations_management.Session.{Session}
use operations_management.Session.Outcome.{Returns}
use operations_management.Shop.{
  Shop, Notices, InventoryStock, StockReservation, stock_key, movement_key, reservation_key,
}
use operations_management.Shop.Invariant.{IsConsistent, IsPositive}
use operations_management.Shop.Ledger.{opening, kept-opening, moved-opening}
use operations_management.Stock.{available, stock_at, add_movement}
use operations_management.Stock.Sync.{sync_low_stock-run, marked, after_sync}
use operations_management.Reservations.{
  create_reservation, hold, reserve_for_item, release, fulfill, shipped, release_for_item,
  fulfill_for_item,
}
use operations_management.Reservations.Runs.{raised, lowered}
use operations_management.Reservations.Consistency.{
  Opened, open_reservation-Opened, settle-Returns, reserve_for_item-Returns,
  release_for_item-Returns, fulfill_for_item-Returns,
}

-- What is reserved is there.
abbrev pub IsCovered : InventoryStock → Type 0
IsCovered st = pos 0 ≤ℤ available st

-- The quantity of every row less its movements is what it was in `d0`.
pub record Books (d0 d : Shop) : Type 0 where
  pub consistent : IsConsistent d
  pub covered : All IsCovered d.stocks
  pub openings : (i : ℕ) → opening i d ≡ opening i d0

abbrev Kept : Shop → Shop → Type 0
Kept d0 d = All IsCovered d.stocks × ((i : ℕ) → opening i d ≡ opening i d0)

raised-IsCovered : (q : ℤ) (st : InventoryStock) → q ≤ℤ available st → IsCovered (raised q st)
raised-IsCovered q st h = grind int_laws

lowered-IsCovered :
    (q : ℤ) (st : InventoryStock) → pos 1 ≤ℤ q → IsCovered st → IsCovered (lowered q st)
lowered-IsCovered q st p h = grind int_laws

shipped-IsCovered :
    (r : StockReservation) (st : InventoryStock) → IsCovered st → IsCovered (shipped r st)
shipped-IsCovered r st h = grind int_laws

module _ (d0 : Shop) where
  create_reservation-Kept :
      (item i : ℕ) (q : ℤ) (s : Session Shop Notices)
      → Kept d0 s.db
      → Returns (Kept d0) (create_reservation item i q s)
  unfolding create_reservation
  create_reservation-Kept item i q s h = ground arith

  hold-Kept :
      (item : ℕ) (q : ℤ) (st : InventoryStock) (s : Session Shop Notices)
      → find st.id s.db.stocks ≡ some st
      → q ≤ℤ available st
      → Books d0 s.db
      → Returns (Kept d0) (hold item q st s)
  unfolding hold
  hold-Kept item q st s e enough h =
      let st' = marked (s.clock s.reads) (raised q st) in
      rw (sync_low_stock-run (raised q st) s) (
        create_reservation-Kept item st.id q
          (record (after_sync (raised q st) s) {
            db = record s.db { stocks = put st' s.db.stocks };
          })
          (
            put-All IsCovered st' s.db.stocks (raised-IsCovered q st enough) h.covered,
            λ i. kept-opening s.db st' st e refl i ∙ h.openings i,
          ))

  reserve_for_item-Kept :
      (item p l : ℕ) (q : ℤ) (s : Session Shop Notices)
      → Books d0 s.db
      → Returns (Kept d0) (reserve_for_item item p l q s)
  unfolding reserve_for_item
  reserve_for_item-Kept item p l q s h = elim (Option-cases (stock_at p l s.db)) [
    | inl e ↦ ground arith
    | inr (st, e) ↦
        ground
          (arith, hold-Kept item q st s (find-first _ s.db.stocks st h.consistent.stocks_keyed e))
  ]

  module _ (r : StockReservation) (st : InventoryStock) (s : Session Shop Notices)
      (o : Opened s (ok (r, st), s)) (h : Books d0 s.db) where
    st-IsCovered : IsCovered st
    st-IsCovered = find-All IsCovered st.id s.db.stocks st o.2 h.covered

    release-Kept : Returns (Kept d0) (release (r, st) s)
    unfolding release
    release-Kept =
        let st' = marked (s.clock s.reads) (lowered r.quantity st) in
        let positive = find-All IsPositive r.id s.db.reservations r o.1 h.consistent.positive in
        rw (sync_low_stock-run (lowered r.quantity st) _) (
          put-All IsCovered st' s.db.stocks (lowered-IsCovered r.quantity st positive st-IsCovered)
              h.covered,
          λ i. kept-opening s.db st' st o.2 refl i ∙ h.openings i,
        )

    fulfill-Kept : (user : ℕ) → Returns (Kept d0) (fulfill user (r, st) s)
    unfolding fulfill add_movement
    fulfill-Kept user =
        let st' = marked (s.clock s.reads) (shipped r st) in
        rw (sync_low_stock-run (shipped r st) _)
          (elim (Bool-cases (is_some (find (s.uuids s.drawn) s.db.movements))) [
            | inl taken ↦ rw taken tt
            | inr fresh ↦ rw fresh (
              put-All IsCovered st' s.db.stocks (shipped-IsCovered r st st-IsCovered) h.covered,
              λ i. moved-opening s.db st' st _ o.2 refl refl refl i ∙ h.openings i,
            )
          ])

  both :
      {A : Type 0} (x : Result A × Session Shop Notices)
      → Returns IsConsistent x
      → Returns (Kept d0) x
      → Returns (Books d0) x
  both (ok a, s) c k = record { consistent = c; covered = k.0; openings = k.1 }
  both (err e, s) c k = tt

  -- The books after a reservation.
  pub reserve_for_item-Books :
      (item p l : ℕ) (q : ℤ) (s : Session Shop Notices)
      → Books d0 s.db
      → Returns (Books d0) (reserve_for_item item p l q s)
  reserve_for_item-Books item p l q s h =
      both (reserve_for_item item p l q s) (reserve_for_item-Returns item p l q s h.consistent)
        (reserve_for_item-Kept item p l q s h)

  release_for_item-Kept :
      (i : ℕ) (s : Session Shop Notices) → Books d0 s.db → Returns (Kept d0) (release_for_item i s)
  unfolding release_for_item
  release_for_item-Kept i s h =
      settle-Returns release (Kept d0) s _ _ (open_reservation-Opened i s)
        (λ r st o. release-Kept r st s o h)

  pub release_for_item-Books :
      (i : ℕ) (s : Session Shop Notices) → Books d0 s.db → Returns (Books d0) (release_for_item i s)
  release_for_item-Books i s h =
      both (release_for_item i s) (release_for_item-Returns i s h.consistent)
        (release_for_item-Kept i s h)

  fulfill_for_item-Kept :
      (user i : ℕ) (s : Session Shop Notices)
      → Books d0 s.db
      → Returns (Kept d0) (fulfill_for_item i user s)
  unfolding fulfill_for_item
  fulfill_for_item-Kept user i s h =
      settle-Returns (fulfill user) (Kept d0) s _ _ (open_reservation-Opened i s)
        (λ r st o. fulfill-Kept r st s o h user)

  pub fulfill_for_item-Books :
      (user i : ℕ) (s : Session Shop Notices)
      → Books d0 s.db
      → Returns (Books d0) (fulfill_for_item i user s)
  fulfill_for_item-Books user i s h =
      both (fulfill_for_item i user s) (fulfill_for_item-Returns i s user h.consistent)
        (fulfill_for_item-Kept user i s h)
