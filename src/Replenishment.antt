-- ===== src/Replenishment.antt =====
-- app/inventory/replenishment.py, and `get_replenishment_suggestions` of app/inventory/service.py.
-- Python's floats are a parameter: the operations on them that the code uses.
pub mod Levels
pub mod Report
pub mod Shown
pub mod Listing
use operations_management.Base.{
  ℕ, ◌-◌, ◌*◌, Bool, true, false, not, ◌&&◌, ◌||◌, Option, none, some, List, [], ◌∷◌, ◌==◌, leb,
  select, if◌then◌else◌,
}
use operations_management.Int.{ℤ, pos, ◌+ℤ◌, ◌-ℤ◌, ltb_ℤ, leb_ℤ, max_ℤ}
use operations_management.Errors.{Failure, InventoryError, Result, ok, err}
use operations_management.Table.Sums.{total}
use operations_management.Shop.{Shop, InventoryStock, StockMovement, is_outward}

-- `a / b`, `a / x`, `x * a`, `math.ceil(x)`, `x <= 0`, `x <= a` and `x < y`, for integers a and b and
-- floats x and y.
pub record Floats (F : Type 0) : Type 0 where
  pub divide : ℤ → ℤ → F
  pub over : ℤ → F → F
  pub times : F → ℤ → F
  pub ceil : F → ℤ
  pub is_zero_or_less : F → Bool
  pub at_most : F → ℤ → Bool
  pub less : F → F → Bool
  pub zero_float : F

pub record StockSnapshot : Type 0 where
  pub quantity : ℤ
  pub reserved_quantity : ℤ
  pub reorder_point : ℤ

pub record ReplenishmentPolicy : Type 0 where
  pub window_days : ℤ
  pub horizon_days : ℤ
  pub target_days : ℤ

-- `ReplenishmentPolicy(...)` with its `__post_init__`.
abbrev pub make_policy : ℤ → ℤ → ℤ → Result ReplenishmentPolicy
make_policy window horizon target =
    if leb_ℤ window (pos 0) || leb_ℤ horizon (pos 0) || leb_ℤ target (pos 0)
    then err Failure.value_error
    else if ltb_ℤ target horizon
    then err Failure.value_error
    else ok (record { window_days = window; horizon_days = horizon; target_days = target })

pub record ReplenishmentSuggestion (F : Type 0) : Type 0 where
  pub available : ℤ
  pub daily_consumption : F
  pub days_of_coverage : Option F
  pub needs_restock : Bool
  pub suggested_quantity : ℤ

abbrev pub snapshot_available : StockSnapshot → ℤ
snapshot_available x = x.quantity -ℤ x.reserved_quantity

module _ {F : Type 0} (floats : Floats F) where
  abbrev pub daily_consumption : ℤ → ℤ → Result F
  daily_consumption consumed window_days =
      if leb_ℤ window_days (pos 0)
      then err Failure.value_error
      else ok (floats.divide (max_ℤ consumed (pos 0)) window_days)

  abbrev pub days_of_coverage : ℤ → F → Option F
  days_of_coverage available daily =
      if floats.is_zero_or_less daily
      then none
      else some (floats.over (max_ℤ available (pos 0)) daily)

  abbrev pub runs_out_soon : Option F → ℤ → Bool
  runs_out_soon none horizon = false
  runs_out_soon (some days) horizon = floats.at_most days horizon

  abbrev pub below_reorder_point : StockSnapshot → Bool
  below_reorder_point x =
      ltb_ℤ (pos 0) x.reorder_point && leb_ℤ (snapshot_available x) x.reorder_point

  -- `evaluate` behind the computation of `daily`.
  unfoldable pub evaluate_at : StockSnapshot → F → ReplenishmentPolicy → ReplenishmentSuggestion F
  evaluate_at x daily policy =
      let coverage = days_of_coverage (snapshot_available x) daily in
      let needs = below_reorder_point x || runs_out_soon coverage policy.horizon_days in
      let target_level =
        max_ℤ (floats.ceil (floats.times daily policy.target_days)) (x.reorder_point +ℤ pos 1) in
      record {
        available = snapshot_available x;
        daily_consumption = daily;
        days_of_coverage = coverage;
        needs_restock = needs;
        suggested_quantity =
            if needs then max_ℤ (target_level -ℤ snapshot_available x) (pos 0) else pos 0;
      }

  abbrev pub evaluate : StockSnapshot → ℤ → ReplenishmentPolicy → Result (ReplenishmentSuggestion F)
  evaluate x consumed policy = elim (daily_consumption consumed policy.window_days) [
    | ok daily ↦ ok (evaluate_at x daily policy)
    | err e ↦ err e
  ]

abbrev pub snapshot_of : InventoryStock → StockSnapshot
snapshot_of st = record {
  quantity = st.quantity;
  reserved_quantity = st.reserved_quantity;
  reorder_point = st.reorder_point;
}

-- `get_consumption_by_stock`, at one stock row: what left it since then.
abbrev pub left_since : ℕ → ℕ → StockMovement → ℤ
left_since since i m =
    if is_outward m.movement_type && leb since m.created_at && m.stock_id == i
    then m.quantity
    else pos 0

abbrev pub consumption : ℕ → ℕ → Shop → ℤ
consumption since i d = total (left_since since i) d.movements

-- A day in the microseconds of a `datetime`.
abbrev pub day : ℕ
day = 86400000000

-- `get_stock_levels`, with the filter that this report uses.
abbrev pub is_at : Option ℕ → InventoryStock → Bool
is_at none st = true
is_at (some l) st = st.location_id == l

abbrev pub get_stock_levels : Option ℕ → Shop → List InventoryStock
get_stock_levels location_id d = select (is_at location_id) d.stocks

pub record StockReplenishment (F : Type 0) : Type 0 where
  pub stock : InventoryStock
  pub suggestion : ReplenishmentSuggestion F
