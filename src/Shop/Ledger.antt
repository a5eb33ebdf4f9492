-- ===== src/Shop/Ledger.antt =====
-- The audit trail: what the movements of a stock row add up to, and the quantity that the row began
-- with, which is its quantity less that sum.
use operations_management.Base.{
  ℕ, ◌≡◌, Option, none, some, List, [], ◌∷◌, ◌++◌, ◌==◌, if◌then◌else◌, arith,
}
use operations_management.Int.{ℤ, pos, ◌-ℤ◌, int_laws}
use operations_management.Table.{find, put}
use operations_management.Table.Laws.{find-put}
use operations_management.Table.Sums.{total, total-append}
use operations_management.Shop.{Shop, InventoryStock, StockMovement, stock_key}

abbrev pub delta : ℕ → StockMovement → ℤ
delta i m = if m.stock_id == i then m.new_quantity -ℤ m.previous_quantity else pos 0

abbrev pub net : ℕ → List StockMovement → ℤ
net i ms = total (delta i) ms

abbrev pub opening_of : ℤ → Option InventoryStock → Option ℤ
opening_of n none = none
opening_of n (some st) = some (st.quantity -ℤ n)

abbrev pub opening : ℕ → Shop → Option ℤ
opening i d = opening_of (net i d.movements) (find i d.stocks)

-- A change of a row's quantity beside the movement that records it.
pub moved-opening :
    (d : Shop) (st old : InventoryStock) (m : StockMovement)
    → find st.id d.stocks ≡ some old
    → m.stock_id ≡ st.id
    → m.previous_quantity ≡ old.quantity
    → m.new_quantity ≡ st.quantity
    → (i : ℕ)
    → opening i (record d { stocks = put st d.stocks; movements = d.movements ++ m ∷ [] })
      ≡ opening i d
moved-opening d st old m e same prev new i =
    grind (int_laws, find-put i st d.stocks, total-append (delta i) d.movements m)

-- A change of a row that leaves its quantity alone.
pub kept-opening :
    (d : Shop) (st old : InventoryStock)
    → find st.id d.stocks ≡ some old
    → st.quantity ≡ old.quantity
    → (i : ℕ) → opening i (record d { stocks = put st d.stocks }) ≡ opening i d
kept-opening d st old e same i = ground (arith, find-put i st d.stocks)
