-- ===== src/Replenishment/Levels.antt =====
-- What a suggestion of app/inventory/replenishment.py is worth: whether it is due and what the
-- stock comes to when it is followed.
use operations_management.Base.{Bool, ◌≡◌, refl, true, false, arith, Bool-cases, inl, inr, ◌||◌}
use operations_management.Int.{ℤ, pos, ◌+ℤ◌, ◌-ℤ◌, ◌≤ℤ◌, ◌<ℤ◌, leb_ℤ, max_ℤ, int_laws}
use operations_management.Errors.{Result, ok, err}
use operations_management.Shop.{InventoryStock}
use operations_management.Stock.{is_low}
use operations_management.Replenishment.{
  Floats, StockSnapshot, ReplenishmentPolicy, ReplenishmentSuggestion, snapshot_available,
  snapshot_of, evaluate_at, evaluate, below_reorder_point, days_of_coverage, runs_out_soon,
}

-- Where the level ends up after a suggestion that is due, or that nothing is suggested.
abbrev pub EndsAt : Bool → ℤ → ℤ → ℤ → ℤ → Type 0
EndsAt true reorder target available suggested =
    (reorder <ℤ (available +ℤ suggested)) × (target ≤ℤ (available +ℤ suggested))
EndsAt false reorder target available suggested = suggested ≡ pos 0

-- What the caller may rely on.
abbrev pub Restocks :
    {F : Type 0}
    → Floats F
    → StockSnapshot
    → ReplenishmentPolicy
    → Result (ReplenishmentSuggestion F)
    → Type 0
Restocks floats x policy (err e) = policy.window_days ≤ℤ pos 0
Restocks floats x policy (ok r) =
    (r.available ≡ snapshot_available x)
    × (pos 0 ≤ℤ r.suggested_quantity)
    × EndsAt r.needs_restock x.reorder_point
        (floats.ceil (floats.times r.daily_consumption policy.target_days)) r.available
        r.suggested_quantity

module _ (available reorder target : ℤ) where
  level_nonneg : pos 0 ≤ℤ max_ℤ (max_ℤ target (reorder +ℤ pos 1) -ℤ available) (pos 0)
  level_nonneg = grind int_laws

  level_reorder :
      reorder <ℤ (available +ℤ max_ℤ (max_ℤ target (reorder +ℤ pos 1) -ℤ available) (pos 0))
  level_reorder = grind int_laws

  level_target :
      target ≤ℤ (available +ℤ max_ℤ (max_ℤ target (reorder +ℤ pos 1) -ℤ available) (pos 0))
  level_target = grind int_laws

module _ {F : Type 0} (floats : Floats F) where
  -- A suggestion that is due brings what is available above the reorder point, and to what the
  -- policy's target days are expected to take; one that is not due suggests nothing; none is
  -- negative; and `evaluate` raises only where the policy has no window.
  pub evaluate-Restocks :
      (x : StockSnapshot) (consumed : ℤ) (policy : ReplenishmentPolicy)
      → Restocks floats x policy (evaluate floats x consumed policy)
  unfolding evaluate_at
  evaluate-Restocks x consumed policy =
      let daily = floats.divide (max_ℤ consumed (pos 0)) policy.window_days in
      let coverage = days_of_coverage floats (snapshot_available x) daily in
      let target = floats.ceil (floats.times daily policy.target_days) in
      let needs =
        below_reorder_point floats x || runs_out_soon floats coverage policy.horizon_days in
      elim (Bool-cases (leb_ℤ policy.window_days (pos 0))) [
        | inl no_window ↦ rw (no_window, Restocks) (ground arith)
        | inr window ↦
            rw (window, Restocks)
              (elim (Bool-cases needs) [
                | inl due ↦
                    rw (due, Restocks)
                      (
                        refl,
                        level_nonneg (snapshot_available x) x.reorder_point target,
                        (
                          level_reorder (snapshot_available x) x.reorder_point target,
                          level_target (snapshot_available x) x.reorder_point target,
                        ),
                      )
                | inr not_due ↦ rw (not_due, Restocks) (refl, omega arith, refl)
              ])
      ]

  -- A row that `_sync_low_stock` calls low is always due for a restock.
  pub low-needs_restock :
      (st : InventoryStock) (daily : F) (policy : ReplenishmentPolicy)
      → is_low st ≡ true
      → (evaluate_at floats (snapshot_of st) daily policy).needs_restock ≡ true
  unfolding evaluate_at
  low-needs_restock st daily policy low = ground arith
