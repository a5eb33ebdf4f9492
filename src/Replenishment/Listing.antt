-- ===== src/Replenishment/Listing.antt =====
-- Which rows the report of `get_replenishment_suggestions` lists.
use operations_management.Base.{
  ◌⊎◌, All, IsIn, ℕ, ◌≡◌, Bool, true, Option, none, some, List, ◌==◌, any,
}
use operations_management.Base.Sorting.{sort}
use operations_management.Int.{◌≤ℤ◌, ◌<ℤ◌, ◌-ℤ◌, ℤ, pos}
use operations_management.Errors.{Failure, InventoryError, Result, ok, err}
use operations_management.Shop.{Shop, InventoryStock}
use operations_management.Replenishment.{Floats, StockReplenishment, get_stock_levels}
use operations_management.Replenishment.Report.{row_before}

-- The row is at the location that the report is for, if it is for one.
abbrev pub IsHere : Option ℕ → InventoryStock → Type 0
IsHere none st = Unit
IsHere (some l) st = st.location_id ≡ l

-- The row has a reorder point, and no more than that is available.
abbrev pub IsShort : InventoryStock → Type 0
IsShort st = (pos 1 ≤ℤ st.reorder_point) × (st.quantity -ℤ st.reserved_quantity ≤ℤ st.reorder_point)

-- What a report says: it is about stored rows of the location, leaves out no short one, and with
-- `only_needed` has no row without need. It is refused for a horizon of no days or of more than 30.
abbrev pub Lists :
    {F : Type 0} → Option ℕ → Option ℤ → Bool → Shop → Result (List (StockReplenishment F)) → Type 0
Lists {F} location_id horizon only_needed d (ok rs) =
    All (λ (r : StockReplenishment F). IsIn r.stock d.stocks × IsHere location_id r.stock) rs
    × ((st : InventoryStock)
        → IsIn st d.stocks
        → IsHere location_id st
        → IsShort st
        → any (λ (r : StockReplenishment F). r.stock.id == st.id) rs ≡ true)
    × (only_needed ≡ true
        → All (λ (r : StockReplenishment F). r.suggestion.needs_restock ≡ true) rs)
Lists location_id horizon only_needed d (err e) =
    (e ≡ Failure.inventory InventoryError.invalid_replenishment_policy)
    × ((h : ℤ) × (horizon ≡ some h) × ((h ≤ℤ pos 0) ⊎ (pos 30 <ℤ h)))

-- The rows of a report all come from the rows that it goes through.
abbrev Rows :
    {F : Type 0} → (InventoryStock → Type 0) → Result (List (StockReplenishment F)) → Type 0
Rows {F} P (ok rs) = All (λ (r : StockReplenishment F). P r.stock) rs
Rows P (err e) = ⊥

module _ {F : Type 0} (floats : Floats F) (location_id : Option ℕ) (horizon : Option ℤ)
    (only_needed : Bool) (now : ℕ) (d : Shop) where
  -- The rows of the location, in the order of the query.
  abbrev rows : List InventoryStock
  rows = sort row_before (get_stock_levels location_id d)
