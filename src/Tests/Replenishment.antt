-- ===== src/Tests/Replenishment.antt =====
-- The replenishment report, with floats in thousandths.
use operations_management.Base.{ℕ, ◌+◌, ◌*◌, ◌≡◌, refl, true, ◌==◌, leb, ltb}
use Prim.Native.Nat.{◌/◌}
use operations_management.Int.{pos, pos_part, ◌-ℤ◌}
use operations_management.Stock.{is_low}
use operations_management.Shop.{InventoryStock}
use operations_management.Replenishment.{Floats, evaluate, snapshot_of, ReplenishmentPolicy}
use operations_management.Replenishment.Levels.{Restocks, evaluate-Restocks}
use operations_management.Tests.Data.{row}

abbrev pub thousandths : Floats ℕ
thousandths = record {
  divide = λ a b. pos_part a * 1000 / pos_part b;
  over = λ a x. pos_part a * 1000000 / x;
  times = λ x a. x * pos_part a;
  ceil = λ x. pos ((x + 999) / 1000);
  is_zero_or_less = λ x. x == 0;
  at_most = λ x a. leb x (pos_part a * 1000);
  less = ltb;
  zero_float = 0;
}

abbrev policy : ReplenishmentPolicy
policy = record { window_days = pos 30; horizon_days = pos 7; target_days = pos 30 }

evaluate-Restocks_example :
    Restocks thousandths
      (snapshot_of row)
      policy
      (evaluate thousandths (snapshot_of row) (pos 45) policy)
evaluate-Restocks_example = evaluate-Restocks thousandths (snapshot_of row) (pos 45) policy

abbrev low_row : InventoryStock
low_row = record row { quantity = pos 8 }

low_row_low : is_low low_row ≡ true
unfolding ◌-ℤ◌
low_row_low = refl
