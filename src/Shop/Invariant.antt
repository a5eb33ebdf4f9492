-- ===== src/Shop/Invariant.antt =====
-- The consistency of the stock tables: keys are unique, a reservation belongs to a stock row and
-- holds a positive quantity, and `reserved_quantity` is the sum of the open reservations of its row.
use operations_management.Base.{
  ℕ, ◌≡◌, refl, true, false, ◌&&◌, none, some, List, [], ◌∷◌, ◌++◌, arith, ◌==◌, if◌then◌else◌, All,
  All-append, is_some,
}
use operations_management.Int.{ℤ, pos, ◌+ℤ◌, ◌-ℤ◌, ◌≤ℤ◌, int_laws}
use operations_management.Table.{find, put, IsKeyed}
use operations_management.Table.Laws.{
  find-put, find-append, put-IsKeyed, append-IsKeyed, put-All, find-All,
}
use operations_management.Table.Sums.{total, total-append, total-put}
use operations_management.Shop.{
  Shop, InventoryStock, StockReservation, ReservationStatus, is_reserved, stock_key,
  reservation_key,
}

-- What a reservation holds of the stock row `i`.
abbrev pub held : ℕ → StockReservation → ℤ
held i r = if is_reserved r.status && r.stock_id == i then r.quantity else pos 0

abbrev pub open_total : ℕ → List StockReservation → ℤ
open_total i rs = total (held i) rs

abbrev pub HasStock : List InventoryStock → StockReservation → Type 0
HasStock stocks r = is_some (find r.stock_id stocks) ≡ true

abbrev pub IsPositive : StockReservation → Type 0
IsPositive r = pos 1 ≤ℤ r.quantity

pub record Consistent (stocks : List InventoryStock) (reservations : List StockReservation)
    : Type 0 where
  pub stocks_keyed : IsKeyed stocks
  pub reservations_keyed : IsKeyed reservations
  pub positive : All IsPositive reservations
  pub referenced : All (HasStock stocks) reservations
  pub reserved_sum :
      (i : ℕ) (st : InventoryStock)
      → find i stocks ≡ some st
      → st.reserved_quantity ≡ open_total i reservations

abbrev pub IsConsistent : Shop → Type 0
IsConsistent d = Consistent d.stocks d.reservations

-- No open reservation of a consistent table holds less than nothing.
pub open_total_nonneg :
    (i : ℕ) (rs : List StockReservation) → All IsPositive rs → pos 0 ≤ℤ open_total i rs
open_total_nonneg i [] h = omega arith
open_total_nonneg i (r ∷ rs) h = grind (int_laws, open_total_nonneg i rs h.1)

-- A row that no reservation names has nothing reserved.
pub open_total_unreferenced :
    (i : ℕ) (stocks : List InventoryStock) (rs : List StockReservation)
    → find i stocks ≡ none
    → All (HasStock stocks) rs
    → open_total i rs ≡ pos 0
open_total_unreferenced i stocks [] e h = refl
open_total_unreferenced i stocks (r ∷ rs) e h =
    grind (int_laws, open_total_unreferenced i stocks rs e h.1)

module _ (stocks : List InventoryStock) where
  put-referenced :
      (st : InventoryStock) (rs : List StockReservation)
      → All (HasStock stocks) rs
      → All (HasStock (put st stocks)) rs
  put-referenced st [] h = tt
  put-referenced st (r ∷ rs) h =
      ground (arith, find-put r.stock_id st stocks, put-referenced st rs h.1)

  append-referenced :
      (st : InventoryStock) (rs : List StockReservation)
      → All (HasStock stocks) rs
      → All (HasStock (stocks ++ st ∷ [])) rs
  append-referenced st [] h = tt
  append-referenced st (r ∷ rs) h =
      ground (arith, find-append r.stock_id st stocks, append-referenced st rs h.1)

-- A change of a row that leaves its reserved quantity alone.
pub put_stock-IsConsistent :
    (d : Shop) (st old : InventoryStock)
    → find st.id d.stocks ≡ some old
    → st.reserved_quantity ≡ old.reserved_quantity
    → IsConsistent d
    → IsConsistent (record d { stocks = put st d.stocks })
put_stock-IsConsistent d st old e same h = record {
  stocks_keyed = put-IsKeyed st d.stocks h.stocks_keyed;
  reservations_keyed = h.reservations_keyed;
  positive = h.positive;
  referenced = put-referenced d.stocks st d.reservations h.referenced;
  reserved_sum = λ i x p.
      ground (arith, find-put i st d.stocks, h.reserved_sum i x, h.reserved_sum st.id old e);
}

-- A new row with nothing reserved.
pub append_stock-IsConsistent :
    (d : Shop) (st : InventoryStock)
    → find st.id d.stocks ≡ none
    → st.reserved_quantity ≡ pos 0
    → IsConsistent d
    → IsConsistent (record d { stocks = d.stocks ++ st ∷ [] })
append_stock-IsConsistent d st e zero_reserved h = record {
  stocks_keyed = append-IsKeyed st d.stocks e h.stocks_keyed;
  reservations_keyed = h.reservations_keyed;
  positive = h.positive;
  referenced = append-referenced d.stocks st d.reservations h.referenced;
  reserved_sum = λ i x p. ground (
    arith,
    find-append i st d.stocks,
    h.reserved_sum i x,
    open_total_unreferenced st.id d.stocks d.reservations e h.referenced,
  );
}

-- A new open reservation, with the reserved quantity of its row raised to match.
pub reserve-IsConsistent :
    (d : Shop) (st old : InventoryStock) (r : StockReservation)
    → find st.id d.stocks ≡ some old
    → find r.id d.reservations ≡ none
    → r.stock_id ≡ st.id
    → r.status ≡ ReservationStatus.reserved
    → IsPositive r
    → st.reserved_quantity ≡ old.reserved_quantity +ℤ r.quantity
    → IsConsistent d
    → IsConsistent (record d { stocks = put st d.stocks; reservations = d.reservations ++ r ∷ [] })
reserve-IsConsistent d st old r e fresh same_stock is_open pr raised h = record {
  stocks_keyed = put-IsKeyed st d.stocks h.stocks_keyed;
  reservations_keyed = append-IsKeyed r d.reservations fresh h.reservations_keyed;
  positive = All-append IsPositive d.reservations (r ∷ []) h.positive (pr, tt);
  referenced =
      All-append (HasStock (put st d.stocks)) d.reservations (r ∷ [])
        (put-referenced d.stocks st d.reservations h.referenced)
        (ground (arith, find-put r.stock_id st d.stocks), tt);
  reserved_sum = λ i x p. grind (
    int_laws,
    find-put i st d.stocks,
    h.reserved_sum i x,
    h.reserved_sum st.id old e,
    total-append (held i) d.reservations r,
  );
}

-- An open reservation that is closed, with the reserved quantity of its row lowered to match.
pub settle-IsConsistent :
    (d : Shop) (st old : InventoryStock) (r r' : StockReservation)
    → find st.id d.stocks ≡ some old
    → find r.id d.reservations ≡ some r
    → r.stock_id ≡ st.id
    → is_reserved r.status ≡ true
    → r'.id ≡ r.id
    → r'.stock_id ≡ r.stock_id
    → r'.quantity ≡ r.quantity
    → is_reserved r'.status ≡ false
    → st.reserved_quantity ≡ old.reserved_quantity -ℤ r.quantity
    → IsConsistent d
    → IsConsistent (record d { stocks = put st d.stocks; reservations = put r' d.reservations })
settle-IsConsistent d st old r r' e er same_stock is_open i s q closed lowered h = record {
  stocks_keyed = put-IsKeyed st d.stocks h.stocks_keyed;
  reservations_keyed = put-IsKeyed r' d.reservations h.reservations_keyed;
  positive =
      put-All IsPositive r' d.reservations
        (rw q (find-All IsPositive r.id d.reservations r er h.positive)) h.positive;
  referenced =
      put-All (HasStock (put st d.stocks)) r' d.reservations
        (ground (arith, find-put r'.stock_id st d.stocks))
        (put-referenced d.stocks st d.reservations h.referenced);
  reserved_sum = λ j x p. grind (
    int_laws,
    find-put j st d.stocks,
    h.reserved_sum j x,
    h.reserved_sum st.id old e,
    total-put (held j) r' r d.reservations,
  );
}
