-- ===== src/Reservations/Alerts.antt =====
-- The low-stock alerts under the reservation calls of app/inventory/service.py.
use operations_management.Base.{
  ℕ, ◌≡◌, refl, some, arith, is_some, All, Option-cases, Bool-cases, inl, inr, true, false,
}
use operations_management.Int.{ℤ, pos, ◌≤ℤ◌, int_laws}
use operations_management.Table.{find, put, IsKeyed}
use operations_management.Table.Laws.{find-first, find-All, put-All, put-IsKeyed}
use operations_management.Errors.{Result, ok, err}
use operations_management.Session.{Session, continue}
use operations_management.Session.Outcome.{Leaves}
use operations_management.Shop.{
  Shop, Notices, Action, InventoryStock, StockReservation, ReservationStatus, stock_key,
  reservation_key, movement_key,
}
use operations_management.Shop.Invariant.{IsConsistent, IsPositive}
use operations_management.Stock.{is_low, stock_at, add_movement}
use operations_management.Stock.Sync.{
  sync_low_stock-run, marked, after_sync, alert_due, IsMarked, marked-IsMarked,
}
use operations_management.Stock.Alerts.{IsAlerted, put-IsAlerted, queued-IsAlerted}
use operations_management.Reservations.{
  create_reservation, hold, reserve_for_item, release, fulfill, shipped, release_for_item,
  fulfill_for_item,
}
use operations_management.Reservations.Runs.{raised, lowered}
use operations_management.Reservations.Consistency.{
  Opened, open_reservation-Opened, release-Returns, fulfill-Returns,
}

low_raised :
    (q : ℤ) (st : InventoryStock) → pos 1 ≤ℤ q → is_low st ≡ true → is_low (raised q st) ≡ true
low_raised q st h low = grind int_laws

low_lowered :
    (q : ℤ) (st : InventoryStock) → pos 1 ≤ℤ q → is_low (lowered q st) ≡ true → is_low st ≡ true
low_lowered q st h low = grind int_laws

low_shipped :
    (r : StockReservation) (st : InventoryStock) → is_low (shipped r st) ≡ true → is_low st ≡ true
low_shipped r st low = grind int_laws

-- Every mark is right, and what is queued is marked.
pub record IsAlerting (s : Session Shop Notices) : Type 0 where
  pub keyed : IsKeyed s.db.stocks
  pub marks : All IsMarked s.db.stocks
  pub queued : All (IsAlerted s.db.stocks) s.memory.pending

create_reservation-IsAlerting :
    (item i : ℕ) (q : ℤ) (s : Session Shop Notices)
    → IsAlerting s
    → Leaves IsAlerting (create_reservation item i q s)
unfolding create_reservation
create_reservation-IsAlerting item i q s h = ground arith

hold-IsAlerting :
    (item : ℕ) (q : ℤ) (st : InventoryStock) (s : Session Shop Notices)
    → find st.id s.db.stocks ≡ some st
    → pos 1 ≤ℤ q
    → IsAlerting s
    → Leaves IsAlerting (hold item q st s)
unfolding hold
hold-IsAlerting item q st s e positive h =
    let t = s.clock s.reads in
    let right = find-All IsMarked st.id s.db.stocks st e h.marks in
    let marked_before =
      put-IsAlerted t (raised q st) st s.db.stocks e
        (λ old. low_raised q st positive (rw (← right) old)) s.memory.pending h.queued in
    rw (sync_low_stock-run (raised q st) s) (
      create_reservation-IsAlerting item st.id q
        (record (after_sync (raised q st) s) {
          db = record s.db { stocks = put (marked t (raised q st)) s.db.stocks };
        })
        (record {
          keyed = put-IsKeyed (marked t (raised q st)) s.db.stocks h.keyed;
          marks =
              put-All IsMarked (marked t (raised q st)) s.db.stocks
                (marked-IsMarked t (raised q st)) h.marks;
          queued = queued-IsAlerted t (raised q st) st s.db.stocks s e marked_before;
        }))

pub reserve_for_item-IsAlerting :
    (item p l : ℕ) (q : ℤ) (s : Session Shop Notices)
    → IsAlerting s
    → Leaves IsAlerting (reserve_for_item item p l q s)
unfolding reserve_for_item
reserve_for_item-IsAlerting item p l q s h = elim (Option-cases (stock_at p l s.db)) [
  | inl e ↦ ground arith
  | inr (st, e) ↦
      ground (arith, hold-IsAlerting item q st s (find-first _ s.db.stocks st h.keyed e))
]

-- Every mark is right, and nothing more is queued or sent than in `s0`.
pub record IsQuiet (s0 s : Session Shop Notices) : Type 0 where
  pub consistent : IsConsistent s.db
  pub marks : All IsMarked s.db.stocks
  pub same : s.memory ≡ s0.memory

-- A row of which no alert is due leaves the memory alone.
not_due :
    (st old : InventoryStock)
    → IsMarked old
    → st.low_stock_alerted_at ≡ old.low_stock_alerted_at
    → (is_low st ≡ true → is_low old ≡ true)
    → alert_due st ≡ false
not_due st old m same rises = ground arith

-- The settlements of an opened reservation.
module _ (s0 : Session Shop Notices) (r : StockReservation) (st : InventoryStock)
    (s : Session Shop Notices) (o : Opened s (ok (r, st), s)) (h : IsQuiet s0 s) where
  abbrev with_status : ReservationStatus → Session Shop Notices
  with_status x = record s {
    db = record s.db { reservations = put (record r { status = x }) s.db.reservations };
  }

  st-IsMarked : IsMarked st
  st-IsMarked = find-All IsMarked st.id s.db.stocks st o.2 h.marks

  quantity-IsPositive : pos 1 ≤ℤ r.quantity
  quantity-IsPositive = find-All IsPositive r.id s.db.reservations r o.1 h.consistent.positive

  quiet_sync :
      (st' : InventoryStock) (x : ReservationStatus)
      → st'.low_stock_alerted_at ≡ st.low_stock_alerted_at
      → (is_low st' ≡ true → is_low st ≡ true)
      → (after_sync st' (with_status x)).memory ≡ s0.memory
  quiet_sync st' x same rises = rw (not_due st' st st-IsMarked same rises) h.same

  release-IsQuiet : Leaves (IsQuiet s0) (release (r, st) s)
  unfolding release
  release-IsQuiet =
      let st' = lowered r.quantity st in
      let run = sync_low_stock-run st' (with_status ReservationStatus.released) in
      rw run (record {
        consistent = rw run at (release-Returns r st s o h.consistent);
        marks =
            put-All IsMarked (marked (s.clock s.reads) st') s.db.stocks
              (marked-IsMarked (s.clock s.reads) st') h.marks;
        same =
            quiet_sync st' ReservationStatus.released refl
              (low_lowered r.quantity st quantity-IsPositive);
      })

  fulfill-IsQuiet : (user : ℕ) → Leaves (IsQuiet s0) (fulfill user (r, st) s)
  unfolding fulfill add_movement
  fulfill-IsQuiet user =
      let st' = shipped r st in
      let run = sync_low_stock-run st' (with_status ReservationStatus.fulfilled) in
      let consistent = rw run at (fulfill-Returns r st s user o h.consistent) in
      let marks =
        put-All IsMarked (marked (s.clock s.reads) st') s.db.stocks
          (marked-IsMarked (s.clock s.reads) st') h.marks in
      let same = quiet_sync st' ReservationStatus.fulfilled refl (low_shipped r st) in
      rw run (elim (Bool-cases (is_some (find (s.uuids s.drawn) s.db.movements))) [
        | inl taken ↦ rw taken tt
        | inr fresh ↦
            rw fresh (record { consistent = rw fresh at consistent; marks = marks; same = same })
      ])

-- A settlement behind `open_reservation`, by how that ended.
settle-IsQuiet :
    (f : StockReservation × InventoryStock → Action StockReservation)
    (s0 s s' : Session Shop Notices) (x : Result (StockReservation × InventoryStock))
    → Opened s (x, s')
    → ((r : StockReservation) (st : InventoryStock)
        → Opened s (ok (r, st), s)
        → Leaves (IsQuiet s0) (f (r, st) s))
    → Leaves (IsQuiet s0) (continue x f s')
settle-IsQuiet f s0 s s' (ok (r, st)) o k = rw o.0 (k r st (refl, o.1, o.2, o.3, o.4))
settle-IsQuiet f s0 s s' (err e) o k = tt

module _ (s0 : Session Shop Notices) (i : ℕ) (s : Session Shop Notices) (h : IsQuiet s0 s) where
  pub release_for_item-IsQuiet : Leaves (IsQuiet s0) (release_for_item i s)
  unfolding release_for_item
  release_for_item-IsQuiet =
      settle-IsQuiet release s0 s _ _ (open_reservation-Opened i s)
        (λ r st o. release-IsQuiet s0 r st s o h)

  pub fulfill_for_item-IsQuiet : (user : ℕ) → Leaves (IsQuiet s0) (fulfill_for_item i user s)
  unfolding fulfill_for_item
  fulfill_for_item-IsQuiet user =
      settle-IsQuiet (fulfill user) s0 s _ _ (open_reservation-Opened i s)
        (λ r st o. fulfill-IsQuiet s0 r st s o h user)
