-- ===== src/Replenishment/Shown.antt =====
-- What the report of `get_replenishment_suggestions` says of one row.
use operations_management.Base.{
  ℕ, ◌-◌, ◌*◌, ◌≡◌, refl, Bool, true, false, not, ◌&&◌, ◌||◌, Option, none, some, List, [], ◌∷◌,
  arith, ◌==◌, any, if◌then◌else◌,
}
use operations_management.Base.Sorting.{sort, any-sort}
use operations_management.Int.{ℤ, pos, leb_ℤ, max_ℤ}
use operations_management.Errors.{Failure, InventoryError, Result, ok, err}
use operations_management.Shop.{Shop, InventoryStock}
use operations_management.Stock.{is_low}
use operations_management.Replenishment.{
  Floats, ReplenishmentPolicy, ReplenishmentSuggestion, StockReplenishment, snapshot_of,
  evaluate_at, consumption, day, get_stock_levels,
}
use operations_management.Replenishment.Levels.{low-needs_restock}
use operations_management.Replenishment.Report.{
  row_before, more_urgent, suggest, policy_for, get_replenishment_suggestions,
}

abbrev pub HasWindow : Result ReplenishmentPolicy → Type 0
HasWindow (ok policy) = leb_ℤ policy.window_days (pos 0) ≡ false
HasWindow (err e) = Unit

pub policy_for-HasWindow : (horizon : Option ℤ) → HasWindow (policy_for horizon)
policy_for-HasWindow none = refl
policy_for-HasWindow (some horizon) = ground arith

abbrev pub is_row : ℕ → InventoryStock → Bool
is_row i st = st.id == i && is_low st

-- What the report says of the row `i`, when `low` tells that it is there and low.
abbrev pub Shows : {F : Type 0} → ℕ → Bool → Bool → Result (List (StockReplenishment F)) → Type 0
Shows {F} i low only_needed (ok rs) =
    ((not low || any (λ (r : StockReplenishment F). r.stock.id == i) rs) ≡ true)
    × ((only_needed && any (λ (r : StockReplenishment F). not r.suggestion.needs_restock) rs)
        ≡ false)
Shows i low only_needed (err e) = e ≡ Failure.inventory InventoryError.invalid_replenishment_policy

module _ {F : Type 0} (floats : Floats F) (i : ℕ) (only_needed : Bool) where
  suggest-Shows :
      (consumed : InventoryStock → ℤ) (policy : ReplenishmentPolicy)
      → leb_ℤ policy.window_days (pos 0) ≡ false
      → (sts : List InventoryStock)
      → Shows i (any (is_row i) sts) only_needed (suggest floats consumed only_needed policy sts)
  unfolding suggest
  suggest-Shows consumed policy window [] = (refl, ground arith)
  suggest-Shows consumed policy window (st ∷ sts) =
      let daily = floats.divide (max_ℤ (consumed st) (pos 0)) policy.window_days in
      rw (window, Shows)
        (cons st sts (evaluate_at floats (snapshot_of st) daily policy)
          (suggest floats consumed only_needed policy sts)
          (low-needs_restock floats st daily policy) (suggest-Shows consumed policy window sts))
    where
      cons :
          (st : InventoryStock) (sts : List InventoryStock) (r : ReplenishmentSuggestion F)
          (x : Result (List (StockReplenishment F)))
          → (is_low st ≡ true → r.needs_restock ≡ true)
          → Shows i (any (is_row i) sts) only_needed x
          → Shows i (any (is_row i) (st ∷ sts)) only_needed (elim x [
            | err e ↦ err e
            | ok rs ↦
                if only_needed && not r.needs_restock
                then ok rs
                else ok (record { stock = st; suggestion = r } ∷ rs)
          ])
      cons st sts r (err e) due h = h
      cons st sts r (ok rs) due h = ground arith

  sorted-Shows :
      (low : Bool) (x : Result (List (StockReplenishment F)))
      → Shows i low only_needed x
      → Shows i low only_needed
          (elim x [ err e ↦ err e | ok rs ↦ ok (sort (more_urgent floats) rs) ])
  sorted-Shows low (err e) h = h
  sorted-Shows low (ok rs) h = (
    rw (any-sort (more_urgent floats) (λ (r : StockReplenishment F). r.stock.id == i) rs) h.0,
    rw
        (any-sort (more_urgent floats)
          (λ (r : StockReplenishment F). not r.suggestion.needs_restock) rs)
        h.1,
  )

  -- The report on one row.
  pub report-Shows :
      (location_id : Option ℕ) (horizon : Option ℤ) (now : ℕ) (d : Shop)
      → Shows i
          (any (is_row i) (get_stock_levels location_id d))
          only_needed
          (get_replenishment_suggestions floats location_id horizon only_needed now d)
  unfolding get_replenishment_suggestions
  report-Shows location_id horizon now d =
      by_policy (policy_for horizon) (policy_for-HasWindow horizon)
    where
      by_policy :
          (x : Result ReplenishmentPolicy)
          → HasWindow x
          → Shows i (any (is_row i) (get_stock_levels location_id d)) only_needed (elim x [
            | err e ↦ err (Failure.inventory InventoryError.invalid_replenishment_policy)
            | ok policy ↦
                elim (suggest floats
                  (λ st. consumption (now - 30 * day) st.id d)
                  only_needed
                  policy
                  (sort row_before (get_stock_levels location_id d))) [
                    | err e ↦ err e
                    | ok rs ↦ ok (sort (more_urgent floats) rs)
                  ]
          ])
      by_policy (err e) w = refl
      by_policy (ok policy) w = sorted-Shows _ _ (
          rw (← any-sort row_before (is_row i) (get_stock_levels location_id d)) (
            suggest-Shows (λ st. consumption (now - 30 * day) st.id d) policy w
              (sort row_before (get_stock_levels location_id d))))
