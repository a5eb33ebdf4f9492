-- ===== src/Replenishment/Report.antt =====
-- `get_replenishment_suggestions` of app/inventory/service.py.
use operations_management.Base.{
  ℕ, ◌-◌, ◌*◌, Bool, true, false, not, ◌&&◌, ◌||◌, Option, none, some, List, [], ◌∷◌, ltb, ◌==◌,
  if◌then◌else◌,
}
use operations_management.Base.Sorting.{sort}
use operations_management.Int.{ℤ, pos, ltb_ℤ}
use operations_management.Errors.{Failure, InventoryError, Result, ok, err}
use operations_management.Shop.{Shop, InventoryStock}
use operations_management.Replenishment.{
  Floats, ReplenishmentPolicy, StockReplenishment, make_policy, snapshot_of, evaluate, consumption,
  day, get_stock_levels,
}

-- `order_by(product_id, location_id)`
abbrev pub row_before : InventoryStock → InventoryStock → Bool
row_before x y =
    ltb x.product_id y.product_id
    || (x.product_id == y.product_id && ltb x.location_id y.location_id)

-- The default policy has a window of 30 days, a horizon of 7 and a target of 30.
abbrev pub policy_for : Option ℤ → Result ReplenishmentPolicy
policy_for none = make_policy (pos 30) (pos 7) (pos 30)
policy_for (some horizon) = make_policy (pos 30) horizon (pos 30)

module _ {F : Type 0} (floats : Floats F) where
  abbrev pub coverage_or_zero : Option F → F
  coverage_or_zero none = floats.zero_float
  coverage_or_zero (some days) = days

  abbrev pub is_without : Option F → Bool
  is_without none = true
  is_without (some days) = false

  -- `<` on the keys that the report is sorted by.
  abbrev pub more_urgent : StockReplenishment F → StockReplenishment F → Bool
  more_urgent x y =
      let a = x.suggestion.days_of_coverage in
      let b = y.suggestion.days_of_coverage in
      let later = ltb_ℤ y.suggestion.suggested_quantity x.suggestion.suggested_quantity in
      if not (is_without a) && is_without b
      then true
      else if is_without a && not (is_without b)
      then false
      else if floats.less (coverage_or_zero a) (coverage_or_zero b)
      then true
      else if floats.less (coverage_or_zero b) (coverage_or_zero a)
      then false
      else later

  -- The loop over the rows.
  unfoldable pub suggest :
      (InventoryStock → ℤ)
      → Bool
      → ReplenishmentPolicy
      → List InventoryStock
      → Result (List (StockReplenishment F))
  suggest consumed only_needed policy [] = ok []
  suggest consumed only_needed policy (st ∷ sts) =
      let rest = suggest consumed only_needed policy sts in
      elim (evaluate floats (snapshot_of st) (consumed st) policy) [
        | err e ↦ err e
        | ok r ↦ elim rest [
          | err e ↦ err e
          | ok rs ↦
              if only_needed && not r.needs_restock
              then ok rs
              else ok (record { stock = st; suggestion = r } ∷ rs)
        ]
      ]

  unfoldable pub get_replenishment_suggestions :
      Option ℕ → Option ℤ → Bool → ℕ → Shop → Result (List (StockReplenishment F))
  get_replenishment_suggestions location_id horizon only_needed now d = elim (policy_for horizon) [
    | err e ↦ err (Failure.inventory InventoryError.invalid_replenishment_policy)
    | ok policy ↦
        elim (suggest (λ st. consumption (now - 30 * day) st.id d) only_needed policy
          (sort row_before (get_stock_levels location_id d))) [
            | err e ↦ err e
            | ok rs ↦ ok (sort more_urgent rs)
          ]
  ]
