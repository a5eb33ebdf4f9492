-- ===== src/Stock/Overdraft.antt =====
-- `remove_stock` of app/inventory/service.py on a row with reservations.
use operations_management.Base.{ℕ, ◌≡◌, false, some, arith}
use operations_management.Int.{ℤ, pos, ◌-ℤ◌, ◌≤ℤ◌, ◌<ℤ◌, int_laws, leb_ℤ, ltb_ℤ}
use operations_management.Table.{find, IsKeyed}
use operations_management.Table.Laws.{find-first, find-put}
use operations_management.Errors.{Result, ok, err}
use operations_management.Session.{Session}
use operations_management.Shop.{
  Shop, Notices, InventoryStock, StockMovement, stock_key, movement_key,
}
use operations_management.Stock.{
  available, stock_at, record_change, create_movement, add_movement, flush_low_stock_alerts,
  remove_stock,
}
use operations_management.Stock.Sync.{sync_low_stock-run, marked}
use operations_management.Stock.Refinement.{IsUnused}

-- The call has returned, and the row `i` has less than what is reserved of it.
abbrev pub IsOverdrawn : ℕ → Result StockMovement × Session Shop Notices → Type 0
IsOverdrawn i (ok movement, s) =
    (st : InventoryStock) × (find i s.db.stocks ≡ some st) × (available st <ℤ pos 0)
IsOverdrawn i (err e, s) = ⊥

module _ (p l : ℕ) (quantity : ℤ) (user : ℕ) (st : InventoryStock) (s : Session Shop Notices)
    (keyed : IsKeyed s.db.stocks) (u : IsUnused s) (row : stock_at p l s.db ≡ some st)
    (positive : pos 1 ≤ℤ quantity) (on_hand : quantity ≤ℤ st.quantity)
    (reserved : available st <ℤ quantity) where
  taken-IsOverdrawn : available (record st { quantity = st.quantity -ℤ quantity }) <ℤ pos 0
  taken-IsOverdrawn = grind int_laws

  -- When the stock rows have keys of their own, the next uuid keys no movement, and the amount is
  -- positive, on hand, and more than what is available, `remove_stock` returns all the same, and
  -- leaves the row with less on hand than is reserved.
  pub remove_stock-IsOverdrawn : IsOverdrawn st.id (remove_stock p l quantity user s)
  unfolding remove_stock record_change create_movement add_movement flush_low_stock_alerts
  remove_stock-IsOverdrawn =
      let st' = record st { quantity = st.quantity -ℤ quantity } in
      let accepted : leb_ℤ quantity (pos 0) ≡ false = ground arith in
      let enough : ltb_ℤ st.quantity quantity ≡ false = ground arith in
      let found = find-first _ s.db.stocks st keyed row in
      rw accepted (
        rw row (
          rw enough (
            rw (sync_low_stock-run st' s) (
              rw u (
                marked (s.clock s.reads) st',
                ground (arith, found, find-put st.id (marked (s.clock s.reads) st') s.db.stocks),
                taken-IsOverdrawn,
              )))))
