-- ===== src/Stock/Sync.antt =====
-- `_sync_low_stock` as an equation: the mark that it leaves on a row, and what it queues.
use operations_management.Base.{
  ℕ, ◌+◌, ◌≡◌, Bool, ◌&&◌, Option, none, some, arith, is_none, is_some, if◌then◌else◌,
}
use operations_management.Errors.{ok}
use operations_management.Session.{Session}
use operations_management.Shop.{Shop, Notices, InventoryStock}
use operations_management.Stock.{is_low, add_pending, sync_low_stock}

-- The mark after a look at time `t`: it stays while the stock is low, and is gone when it is not.
abbrev pub mark : ℕ → InventoryStock → Option ℕ
mark t st =
    if is_low st then (elim st.low_stock_alerted_at [ none ↦ some t | some u ↦ some u ]) else none

abbrev pub marked : ℕ → InventoryStock → InventoryStock
marked t st = record st { low_stock_alerted_at = mark t st }

-- An alert is due when the stock has become low since the last look.
abbrev pub alert_due : InventoryStock → Bool
alert_due st = is_low st && is_none st.low_stock_alerted_at

abbrev pub after_sync : InventoryStock → Session Shop Notices → Session Shop Notices
after_sync st s = record s {
  reads = if alert_due st then s.reads + 1 else s.reads;
  memory = if alert_due st then add_pending st.id s.memory else s.memory;
}

pub sync_low_stock-run :
    (st : InventoryStock) (s : Session Shop Notices)
    → sync_low_stock st s ≡ (ok (marked (s.clock s.reads) st, alert_due st), after_sync st s)
unfolding sync_low_stock
sync_low_stock-run st s = ground arith

-- The low-stock column says what the quantities say.
abbrev pub IsMarked : InventoryStock → Type 0
IsMarked st = is_some st.low_stock_alerted_at ≡ is_low st

pub marked-IsMarked : (t : ℕ) (st : InventoryStock) → IsMarked (marked t st)
marked-IsMarked t st = ground arith
