-- ===== src/Reservations/Shipping.antt =====
-- What shipping the goods of a reservation changes: `fulfill_for_item` of app/inventory/service.py, and
-- the loop of `complete_order` over it.
use operations_management.Base.{
  ℕ, ◌≡◌, refl, ◌∙◌, ap, sym, Option, none, some, List, [], ◌∷◌, ◌++◌, ◌==◌, arith, inl, inr,
  Option-cases, Bool-cases, is_some,
}
use operations_management.Int.{ℤ, int_laws}
use operations_management.Table.{find, put}
use operations_management.Table.Laws.{find-put, find-first, find_key}
use operations_management.Errors.{Result, ok, err}
use operations_management.Session.{Session, continue}
use operations_management.Session.Outcome.{Returns}
use operations_management.Shop.{
  Shop, Notices, Action, InventoryStock, StockReservation, StockMovement, ReservationStatus,
  OrderItem, is_reserved, stock_key, movement_key, reservation_key,
}
use operations_management.Stock.{available, add_movement}
use operations_management.Stock.Sync.{sync_low_stock-run, marked}
use operations_management.Reservations.{open_reservation, fulfill, shipped, fulfill_for_item}
use operations_management.Reservations.Closed.{IsClosed, AllClosed, closed_by, still_each}
use operations_management.Reservations.Books.{Books, fulfill_for_item-Books}
use operations_management.Orders.Repository.{reservation_of}
use operations_management.Orders.Service.{settle_item, settle_items}

-- What a stock row could still promise.
abbrev pub available_of : Option InventoryStock → Option ℤ
available_of none = none
available_of (some st) = some (available st)

-- No row promises more or less than in `d0`.
abbrev pub Promises : Shop → Shop → Type 0
Promises d0 d = (i : ℕ) → available_of (find i d.stocks) ≡ available_of (find i d0.stocks)

-- The tables after a shipment with the movement `m`.
abbrev after_ship : StockReservation → InventoryStock → Session Shop Notices → StockMovement → Shop
after_ship r st s m = record s.db {
  stocks = put (marked (s.clock s.reads) (shipped r st)) s.db.stocks;
  reservations = put (record r { status = ReservationStatus.fulfilled }) s.db.reservations;
  movements = s.db.movements ++ m ∷ [];
}

module _ (Q : Shop → Type 0) (user : ℕ) where
  fulfill-Ships :
      (r : StockReservation) (st : InventoryStock) (s : Session Shop Notices)
      → ((m : StockMovement) → Q (after_ship r st s m))
      → Returns Q (fulfill user (r, st) s)
  unfolding fulfill add_movement
  fulfill-Ships r st s h =
      rw (sync_low_stock-run (shipped r st) _)
        (elim (Bool-cases (is_some (find (s.uuids s.drawn) s.db.movements))) [
          | inl taken ↦ rw taken tt
          | inr fresh ↦ rw fresh (h _)
        ])

  fulfill_for_item-Ships :
      (i : ℕ) (s : Session Shop Notices)
      → ((r : StockReservation) (st : InventoryStock) (m : StockMovement)
          → find i s.db.reservations ≡ some r
          → find r.stock_id s.db.stocks ≡ some st
          → Q (after_ship r st s m))
      → Returns Q (fulfill_for_item i user s)
  unfolding fulfill_for_item open_reservation
  fulfill_for_item-Ships i s h = elim (Option-cases (find i s.db.reservations)) [
    | inl e ↦ rw e tt
    | inr (r, e) ↦ rw e (elim (Bool-cases (is_reserved r.status)) [
      | inr shut ↦ rw shut tt
      | inl held ↦ rw held (elim (Option-cases (find r.stock_id s.db.stocks)) [
        | inl e' ↦ rw e' tt
        | inr (st, e') ↦ rw e' (fulfill-Ships r st s (λ m. h r st m e e'))
      ])
    ])
  ]

-- The first part is one fact, and the rest has another from there.
then-Returns :
    {A B : Type 0} (P R : Shop → Type 0) (f : A → Action B) (x : Result A × Session Shop Notices)
    → Returns P x
    → ((a : A) (s : Session Shop Notices) → P s.db → Returns R (f a s))
    → Returns R (continue x.0 f x.1)
then-Returns P R f (ok a, s) h k = k a s h
then-Returns P R f (err e, s) h k = tt

both :
    {A : Type 0} (P R : Shop → Type 0) (x : Result A × Session Shop Notices)
    → Returns P x
    → Returns R x
    → Returns (λ d. P d × R d) x
both P R (ok a, s) h k = (h, k)
both P R (err e, s) h k = tt

same_available :
    (r : StockReservation) (st : InventoryStock) → available (shipped r st) ≡ available st
same_available r st = grind int_laws

-- What leaves a row was reserved of it.
level :
    (r : StockReservation) (st : InventoryStock)
    → some (available (shipped r st)) ≡ some (available st)
level r st = ap some (same_available r st)

-- Books since `d0`, and the promises of `d1`.
abbrev pub Kept : Shop → Shop → Shop → Type 0
Kept d0 d1 d = Books d0 d × Promises d1 d

module _ (d0 d1 : Shop) (user : ℕ) where
  promised :
      (r : StockReservation) (st : InventoryStock) (s : Session Shop Notices) (m : StockMovement)
      → find st.id s.db.stocks ≡ some st
      → Promises d1 s.db
      → Promises d1 (after_ship r st s m)
  promised r st s m e h j =
      let st' = marked (s.clock s.reads) (shipped r st) in
      rw (find-put j st' s.db.stocks) (elim (Bool-cases (st.id == j)) [
        | inr other ↦ rw other (h j)
        | inl same ↦
            let here : find j s.db.stocks ≡ some st = ground arith in
            let before = h j in rw (same, here) (level r st ∙ (rw here at before))
      ])

  -- One reservation: the goods leave, and it is closed in its place.
  abbrev Closes : ℕ → List OrderItem → Shop → Type 0
  Closes item ys d = Kept d0 d1 d × (IsClosed item d × AllClosed ys d)

  sorted_out :
      {A : Type 0} (item : ℕ) (ys : List OrderItem) (x : Result A × Session Shop Notices)
      → Returns (λ d. Books d0 d × (Promises d1 d × (IsClosed item d × AllClosed ys d))) x
      → Returns (Closes item ys) x
  sorted_out item ys (ok a, s) (books, (promises, rest)) = ((books, promises), rest)
  sorted_out item ys (err e, s) h = tt

  fulfill_for_item-Closes :
      (i : ℕ) (s : Session Shop Notices) (ys : List OrderItem) (item : ℕ)
      → Kept d0 d1 s.db
      → AllClosed ys s.db
      → ((r : StockReservation)
          → find i s.db.reservations ≡ some r
          → reservation_of item s.db ≡ some r)
      → Returns (Closes item ys) (fulfill_for_item i user s)
  fulfill_for_item-Closes i s ys item h closed own =
      sorted_out item ys (fulfill_for_item i user s) (
        both (Books d0) (λ d. Promises d1 d × (IsClosed item d × AllClosed ys d))
          (fulfill_for_item i user s) (fulfill_for_item-Books d0 user i s h.0)
          (fulfill_for_item-Ships (λ d. Promises d1 d × (IsClosed item d × AllClosed ys d)) user i s
            (λ r st m er est.
              let key = find_key i s.db.reservations r er in
              let stock_key' = find_key r.stock_id s.db.stocks st est in
              let there : find r.id s.db.reservations ≡ some r = cc in
              let stored : find st.id s.db.stocks ≡ some st = cc in
              (
                promised r st s m stored h.1,
                (
                  closed_by item r (record r { status = ReservationStatus.fulfilled })
                      s.db.reservations there refl refl refl (own r er),
                  still_each s.db r ys there closed,
                ),
              ))))

  settle_item-Closes :
      (o : Option StockReservation) (s : Session Shop Notices) (ys : List OrderItem) (item : ℕ)
      → Kept d0 d1 s.db
      → AllClosed ys s.db
      → reservation_of item s.db ≡ o
      → Returns (Closes item ys) (settle_item (λ i. fulfill_for_item i user) o s)
  settle_item-Closes none s ys item h closed e = (h, (rw e refl, closed))
  settle_item-Closes (some r) s ys item h closed e =
      let there = find-first _ s.db.reservations r h.0.consistent.reservations_keyed e in
      then-Returns (Closes item ys) (Closes item ys) _ (fulfill_for_item r.id user s)
        (fulfill_for_item-Closes r.id s ys item h closed
          (λ q eq. let same : some r ≡ some q = sym there ∙ eq in e ∙ same))
        (λ a s' k. k)

  -- The whole loop.
  pub settle_items-Closes :
      (xs ys : List OrderItem) (s : Session Shop Notices)
      → Kept d0 d1 s.db
      → AllClosed ys s.db
      → Returns
          (λ d. Kept d0 d1 d × (AllClosed ys d × AllClosed xs d))
          (settle_items (λ i. fulfill_for_item i user) xs s)
  unfolding settle_items
  settle_items-Closes [] ys s h closed = (h, (closed, tt))
  settle_items-Closes (x ∷ xs) ys s h closed =
      turned (settle_items (λ i. fulfill_for_item i user) (x ∷ xs) s) (
        then-Returns (Closes x.id ys) (λ d. Kept d0 d1 d × (AllClosed (x ∷ ys) d × AllClosed xs d))
          _ (settle_item (λ i. fulfill_for_item i user) (reservation_of x.id s.db) s)
          (settle_item-Closes (reservation_of x.id s.db) s ys x.id h closed refl)
          (λ _ s' k. settle_items-Closes xs (x ∷ ys) s' k.0 k.1))
    where
      turned :
          (y : Result (Unit {0}) × Session Shop Notices)
          → Returns (λ d. Kept d0 d1 d × (AllClosed (x ∷ ys) d × AllClosed xs d)) y
          → Returns (λ d. Kept d0 d1 d × (AllClosed ys d × AllClosed (x ∷ xs) d)) y
      turned (ok _, s') (k, ((first_closed, others), rest)) = (k, (others, (first_closed, rest)))
      turned (err e, s') k = tt

  pub ship_items :
      (xs : List OrderItem) (s : Session Shop Notices)
      → Kept d0 d1 s.db
      → Returns
          (λ d. Kept d0 d1 d × AllClosed xs d)
          (settle_items (λ i. fulfill_for_item i user) xs s)
  ship_items xs s h =
      short (settle_items (λ i. fulfill_for_item i user) xs s) (settle_items-Closes xs [] s h tt)
    where
      short :
          (y : Result (Unit {0}) × Session Shop Notices)
          → Returns (λ d. Kept d0 d1 d × (AllClosed [] d × AllClosed xs d)) y
          → Returns (λ d. Kept d0 d1 d × AllClosed xs d) y
      short (ok _, s') (k, (_, closed)) = (k, closed)
      short (err e, s') k = tt
