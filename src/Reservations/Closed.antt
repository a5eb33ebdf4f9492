-- ===== src/Reservations/Closed.antt =====
-- The reservation of an order item that `fulfill_for_item` of app/inventory/service.py has closed.
use operations_management.Base.{
  ℕ, ◌≡◌, refl, Bool, true, false, Option, none, some, List, [], ◌∷◌, ◌==◌, arith, inl, inr,
  Bool-cases, All,
}
use operations_management.Table.{find, first, put}
use operations_management.Table.Laws.{first_holds}
use operations_management.Shop.{
  Shop, StockReservation, ReservationStatus, OrderItem, is_reserved, stock_key, movement_key,
  reservation_key,
}
use operations_management.Orders.Repository.{reservation_of}

abbrev pub is_open : Option StockReservation → Bool
is_open none = false
is_open (some r) = is_reserved r.status

-- The reservation of an item, if it has one, holds its goods no longer.
abbrev pub IsClosed : ℕ → Shop → Type 0
IsClosed item d = is_open (reservation_of item d) ≡ false

-- A reservation that is closed in its place.
closed_put :
    (item : ℕ) (r r' : StockReservation) (rs : List StockReservation)
    → find r.id rs ≡ some r
    → r'.id ≡ r.id
    → r'.order_item_id ≡ r.order_item_id
    → is_reserved r'.status ≡ false
    → is_open (first (λ (q : StockReservation). q.order_item_id == item) rs) ≡ false
    → is_open (first (λ (q : StockReservation). q.order_item_id == item) (put r' rs)) ≡ false
closed_put item r r' [] e same owner shut h = h
closed_put item r r' (x ∷ xs) e same owner shut h = ground (arith, closed_put item r r' xs)

met_first :
    (x r : StockReservation) (item : ℕ) (xs : List StockReservation)
    → (x.order_item_id == item) ≡ true
    → first (λ (q : StockReservation). q.order_item_id == item) (x ∷ xs) ≡ some r
    → x ≡ r
met_first x r item xs mine h = let found : some x ≡ some r = rw mine at h in cc

pub closed_by :
    (item : ℕ) (r r' : StockReservation) (rs : List StockReservation)
    → find r.id rs ≡ some r
    → r'.id ≡ r.id
    → r'.order_item_id ≡ r.order_item_id
    → is_reserved r'.status ≡ false
    → first (λ (q : StockReservation). q.order_item_id == item) rs ≡ some r
    → is_open (first (λ (q : StockReservation). q.order_item_id == item) (put r' rs)) ≡ false
closed_by item r r' [] e same owner shut h = cc
closed_by item r r' (x ∷ xs) e same owner shut h =
    let own : (r.order_item_id == item) ≡ true =
      first_holds (λ (q : StockReservation). q.order_item_id == item) (x ∷ xs) r h in
    let own' : (r'.order_item_id == item) ≡ true = rw owner own in
    elim (Bool-cases (x.id == r.id)) [
      | inl here ↦ let met : (x.id == r'.id) ≡ true = rw same here in rw met (rw own' shut)
      | inr later ↦
          let other : (x.id == r'.id) ≡ false = rw same later in
          let rest : find r.id xs ≡ some r = rw later at e in
          rw other (elim (Bool-cases (x.order_item_id == item)) [
            | inl mine ↦
                let itself : x ≡ r = met_first x r item xs mine h in
                let id : (x.id == r.id) ≡ true = rw itself (ground arith) in
                let absurd : ⊥ = cc in elim absurd [ ]
            | inr others ↦ rw others (closed_by item r r' xs rest same owner shut (rw others at h))
          ])
    ]

-- The items of a list are closed.
abbrev pub AllClosed : List OrderItem → Shop → Type 0
AllClosed xs d = All (λ (x : OrderItem). IsClosed x.id d) xs

pub still_each :
    (d : Shop) (r : StockReservation) (xs : List OrderItem)
    → find r.id d.reservations ≡ some r
    → All (λ (x : OrderItem). IsClosed x.id d) xs
    → All
        (λ (x : OrderItem).
          is_open (
            first
              (λ (q : StockReservation). q.order_item_id == x.id)
              (put (record r { status = ReservationStatus.fulfilled }) d.reservations))
          ≡ false)
        xs
still_each d r [] e h = tt
still_each d r (x ∷ xs) e h = (
  closed_put x.id r (record r { status = ReservationStatus.fulfilled }) d.reservations e refl refl
      refl h.0,
  still_each d r xs e h.1,
)
